-- ===== src/Agent/Routing.antt =====
-- Which exchanges a decision of `LLMRouter` (core/src/octoforge_core/agent/router.py) concerns.
use octo_forge.Base.{
  ℕ, zero, suc, ◌≤◌, String, Bool, true, false, Option, none, some, List, [], ◌∷◌, ◌≡◌, ◌⊎◌, refl,
  ◌&&◌, str_eq, str_take, str_length, str_length-take, eq_iff, if◌then◌else◌, opt_test, first_where,
  map, arith, All, select-All, select_where, Bool-cases, inl, inr,
}
use octo_forge.Json.{Value, Members, get_field, as_text}
use octo_forge.Dialogs.Exchanges.{title_max_length}
use octo_forge.Domain.{ToolCall}
use octo_forge.Agent.Router.{
  RouteAction, new, continue, command, RouteDecision, ExchangeInfo, route_tool_name, Completion,
  fallback, is_space, space, collapse_from, collapse, non_empty, clean_title, listed, is_in,
  action_of, continue_with, act, parse_decision, decide, route,
}

-- one line: no whitespace but single spaces as such
abbrev pub IsLine : String → Type 0
IsLine String.[] = Unit
IsLine (String.◌∷◌ c s) = ((is_space c ≡ false) ⊎ (c ≡ space)) × IsLine s

-- nothing, or a line of 1 to 60 characters
abbrev pub IsTitle : Option String → Type 0
IsTitle none = Unit
IsTitle (some t) = IsLine t × ((1 ≤ str_length t) × (str_length t ≤ title_max_length))

collapse_from-IsLine : (started gap : Bool) (s : String) → IsLine (collapse_from started gap s)
unfolding collapse_from
collapse_from-IsLine started gap String.[] = tt
collapse_from-IsLine started gap (String.◌∷◌ c s) = elim (Bool-cases (is_space c)) [
  | inl is ↦ rw is (collapse_from-IsLine started true s)
  | inr other ↦
      rw other
        (elim (started && gap)
          as (λ b. IsLine (
            if b
            then String.◌∷◌ space (String.◌∷◌ c (collapse_from true false s))
            else String.◌∷◌ c (collapse_from true false s))) [
              | true ↦ (inr refl, (inl other, collapse_from-IsLine true false s))
              | false ↦ (inl other, collapse_from-IsLine true false s)
            ])
]

str_take-IsLine : (n : ℕ) (s : String) → IsLine s → IsLine (str_take n s)
unfolding str_take
str_take-IsLine zero s h = tt
str_take-IsLine (suc n) String.[] h = tt
str_take-IsLine (suc n) (String.◌∷◌ c s) h = (h.0, str_take-IsLine n s h.1)

str_take-positive :
    (s : String) → (str_eq s "" ≡ false) → 1 ≤ str_length (str_take title_max_length s)
unfolding str_take str_length
str_take-positive String.[] h = ground arith
str_take-positive (String.◌∷◌ c s) h = omega arith

-- A cleaned title is one line of 1 to 60 characters.
pub clean_title-IsTitle : (value : Option Value) → IsTitle (clean_title value)
unfolding clean_title
clean_title-IsTitle value = go (as_text value)
  where
    filled : (s : String) → IsLine s → IsTitle (non_empty s)
    filled s line = elim (Bool-cases (str_eq s "")) [
      | inl empty ↦ rw empty tt
      | inr some_ ↦ rw some_ (
        str_take-IsLine title_max_length s line,
        (str_take-positive s some_, str_length-take title_max_length s),
      )
    ]

    go : (o : Option String) → IsTitle (elim o [ none ↦ none | some s ↦ non_empty (collapse s) ])
    go none = tt
    go (some s) = filled (collapse s) (unfold collapse in collapse_from-IsLine false false s)

-- A continuation has an exchange that is known; any other decision has neither exchange nor title.
abbrev pub IsAddressed : List String → RouteAction → Option String → Option String → Type 0
IsAddressed known continue (some target) title = is_in known target ≡ true
IsAddressed known continue none title = ⊥
IsAddressed known _ target title = (target ≡ none) × (title ≡ none)

pub record IsSafe (known : List String) (d : RouteDecision) : Type 0 where
  pub cancels : All (λ id. is_in known id ≡ true) d.cancel_ids
  pub addressed : IsAddressed known d.action d.exchange_id d.title
  pub titled : IsTitle d.title

module _ (known : List String) where
  fallback-IsSafe :
      (cancel_ids : List String)
      → All (λ id. is_in known id ≡ true) cancel_ids
      → IsSafe known (fallback cancel_ids)
  fallback-IsSafe cancel_ids h = record { cancels = h; addressed = (refl, refl); titled = tt }

  continue_with-IsSafe :
      (title : Option Value) (cancel_ids : List String) (target : Option String)
      → All (λ id. is_in known id ≡ true) cancel_ids
      → IsSafe known (continue_with known title cancel_ids target)
  continue_with-IsSafe title cancel_ids none h = fallback-IsSafe cancel_ids h
  continue_with-IsSafe title cancel_ids (some target) h = elim (Bool-cases (is_in known target)) [
    | inl is ↦ rw is (record { cancels = h; addressed = is; titled = clean_title-IsTitle title })
    | inr other ↦ rw other (fallback-IsSafe cancel_ids h)
  ]

  act-IsSafe :
      (arguments : Members) (cancel_ids : List String) (action : Option RouteAction)
      → All (λ id. is_in known id ≡ true) cancel_ids
      → IsSafe known (act known arguments cancel_ids action)
  act-IsSafe arguments cancel_ids none h = fallback-IsSafe cancel_ids h
  act-IsSafe arguments cancel_ids (some new) h = fallback-IsSafe cancel_ids h
  act-IsSafe arguments cancel_ids (some command) h = record {
    cancels = h;
    addressed = (refl, refl);
    titled = tt;
  }
  act-IsSafe arguments cancel_ids (some continue) h =
      continue_with-IsSafe (get_field "title" arguments) cancel_ids
        (as_text (get_field "exchange_id" arguments)) h

  parse_decision-IsSafe : (arguments : Members) → IsSafe known (parse_decision arguments known)
  unfolding parse_decision
  parse_decision-IsSafe arguments =
      act-IsSafe arguments _ (action_of (as_text (get_field "action" arguments)))
        (select-All (is_in known) (listed (get_field "cancel_exchange_ids" arguments)))

-- Whatever the model replies, and if it does not reply, the decision cancels only exchanges that the
-- router was shown, continues only one of them, and renames only on a continuation, to one line of 1
-- to 60 characters.
pub route-IsSafe :
    (exchanges : List ExchangeInfo) (reply : Option Completion)
    → IsSafe (map (λ e. e.id) exchanges) (route exchanges reply)
unfolding route
route-IsSafe [] reply = fallback-IsSafe [] [] tt
route-IsSafe (e ∷ exchanges) none = fallback-IsSafe _ [] tt
route-IsSafe (e ∷ exchanges) (some reply) =
    go (first_where (λ c. str_eq c.name route_tool_name) reply.tool_calls)
  where
    go :
        (o : Option ToolCall)
        → IsSafe (map (λ e. e.id) (e ∷ exchanges)) (decide (e ∷ exchanges) reply o)
    go none = record { cancels = tt; addressed = (refl, refl); titled = tt }
    go (some call) =
        let d = parse_decision-IsSafe (map (λ e. e.id) (e ∷ exchanges)) call.arguments in
        record { cancels = d.cancels; addressed = d.addressed; titled = d.titled }

abbrev pub is_continue : RouteAction → Bool
is_continue continue = true
is_continue _ = false

-- The arguments of the model make a message continue an exchange exactly when they say so and name a
-- known exchange, which is then the one that is continued; what else they hold does not matter.
pub parse_continues :
    (arguments : Members) (known : List String)
    → (if is_continue (parse_decision arguments known).action
        then (parse_decision arguments known).exchange_id
        else none)
      ≡ (if opt_test (λ s. str_eq s "continue") (as_text (get_field "action" arguments))
            && opt_test (is_in known) (as_text (get_field "exchange_id" arguments))
          then as_text (get_field "exchange_id" arguments)
          else none)
unfolding parse_decision
parse_continues arguments known = acts (as_text (get_field "action" arguments))
  where
    cancels : List String
    cancels = select_where (is_in known) (listed (get_field "cancel_exchange_ids" arguments))

    target : Option String
    target = as_text (get_field "exchange_id" arguments)

    chosen : RouteDecision → Option String
    chosen d = if is_continue d.action then d.exchange_id else none

    continues :
        (t : Option String)
        → chosen (continue_with known (get_field "title" arguments) cancels t)
          ≡ (if opt_test (is_in known) t then t else none)
    continues none = refl
    continues (some t) = elim (Bool-cases (is_in known t)) [
      | inl is ↦ rw is refl
      | inr other ↦ rw other refl
    ]

    acts :
        (a : Option String)
        → chosen (act known arguments cancels (action_of a)) ≡ (
            if opt_test (λ s. str_eq s "continue") a && opt_test (is_in known) target
            then target
            else none)
    acts none = refl
    acts (some s) = elim (Bool-cases (str_eq s "continue")) [
      | inl says ↦
          (let e : s ≡ "continue" = (eq_iff s "continue").0 says in rw e (continues target))
      | inr other ↦
          rw other
            (elim (str_eq s "new")
              as (λ b.
                chosen (
                  act known arguments cancels (
                    if b
                    then some new
                    else if false
                    then some continue
                    else if str_eq s "command"
                    then some command
                    else none))
                ≡ none) [
                  | true ↦ refl
                  | false ↦
                      elim (str_eq s "command")
                        as (λ b.
                          chosen (act known arguments cancels (if b then some command else none))
                          ≡ none) [ true ↦ refl | false ↦ refl ]
                ])
    ]
