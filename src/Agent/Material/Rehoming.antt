-- ===== src/Agent/Material/Rehoming.antt =====
-- How `_reparent_material` of core/src/octoforge_core/agent/runner.py moves the messages of an exchange.
use mathlib.Core.Option.{some_inj}
use mathlib.Core.Path.{ap₂}
use octo_forge.Base.{
  String, Bool, true, Option, none, some, List, [], ◌∷◌, ◌&&◌, ◌||◌, str_eq, eq_iff, any, opt_test,
  if◌then◌else◌, map, update_where, ◌≡◌, ◌≢◌, ◌↔◌, refl, ap, ◌∙◌, arith, inl, inr, Bool-cases,
}
use octo_forge.Domain.{ChatMessage}
use octo_forge.Dialogs.Messages.{MessageRow, Messages}
use octo_forge.Dialogs.Log.{with_exchange, set_exchange}
use octo_forge.Agent.Material.{is_in, placed_in, reparented, reparented_rows}

-- a narrative in which the messages of one exchange have moved to another: in the same order, each of
-- them the same but for its exchange, and all others as they were
pub data Rehomed (from to : String) : List ChatMessage → List ChatMessage → Type 0 where
  no_more : Rehomed from to [] []
  moved :
      (m : ChatMessage) (before after : List ChatMessage)
      → m.exchange_id ≡ some from
      → Rehomed from to before after
      → Rehomed from to (m ∷ before) (record m { exchange_id = some to } ∷ after)
  stayed :
      (m : ChatMessage) (before after : List ChatMessage)
      → m.exchange_id ≢ some from
      → Rehomed from to before after
      → Rehomed from to (m ∷ before) (m ∷ after)

-- the row of one of the exchange's messages
abbrev pub is_moved_row : String → List ChatMessage → MessageRow → Bool
is_moved_row from narrative r =
    any (λ m. is_in from m && opt_test (λ id. str_eq r.id id) m.id) narrative

-- the rows after the move
abbrev pub rehomed_rows : String → String → List ChatMessage → Messages → Messages
rehomed_rows from to narrative rows =
    map (λ r. if is_moved_row from narrative r then with_exchange to r else r) rows

names_iff :
    (id : String) (o : Option String) → (opt_test (λ e. str_eq e id) o ≡ true) ↔ (o ≡ some id)
names_iff id none = (λ h. absurd (ground (arith, h)), λ h. absurd (ground (arith, h)))
names_iff id (some x) = (λ h. ap some ((eq_iff x id).0 h), λ h. (eq_iff x id).1 (some_inj.0 h))

pub reparented-Rehomed :
    (from to : String) (narrative : List ChatMessage)
    → Rehomed from to narrative (reparented from to narrative)
unfolding reparented
reparented-Rehomed from to [] = no_more
reparented-Rehomed from to (m ∷ narrative) =
    let rest = reparented-Rehomed from to narrative in
    elim (Bool-cases (is_in from m)) [
      | inl e ↦ rw e (moved m _ _ ((names_iff from m.exchange_id).0 e) rest)
      | inr e ↦
          rw e (stayed m _ _ (λ h. ground (arith, e, (names_iff from m.exchange_id).1 h)) rest)
    ]

update-map :
    {A : Type 0} (p : A → Bool) (f : A → A) (rows : List A)
    → update_where p f rows ≡ map (λ r. if p r then f r else r) rows
update-map p f [] = refl
update-map p f (r ∷ rows) = ground (arith, update-map p f rows)

-- a row that is set twice, or once
set_again :
    (from to i : String) (narrative : List ChatMessage) (r : MessageRow)
    → (let s = if str_eq r.id i then with_exchange to r else r in
        if is_moved_row from narrative s then with_exchange to s else s)
      ≡ (if str_eq r.id i || is_moved_row from narrative r then with_exchange to r else r)
set_again from to i narrative r = elim (Bool-cases (str_eq r.id i)) [
  | inr e ↦ rw e refl
  | inl e ↦ elim (Bool-cases (is_moved_row from narrative r)) [
    | inl k ↦ rw (e, k) refl
    | inr k ↦ rw (e, k) refl
  ]
]

set_rows_again :
    (from to i : String) (narrative : List ChatMessage) (rows : Messages)
    → rehomed_rows from to narrative
        (map (λ r. if str_eq r.id i then with_exchange to r else r) rows)
      ≡ map
          (λ r. if str_eq r.id i || is_moved_row from narrative r then with_exchange to r else r)
          rows
set_rows_again from to i narrative [] = refl
set_rows_again from to i narrative (r ∷ rows) =
    ap₂ ◌∷◌ (set_again from to i narrative r) (set_rows_again from to i narrative rows)

map-same : (rows : Messages) → rows ≡ map (λ r. r) rows
map-same [] = refl
map-same (r ∷ rows) = ap (λ l. r ∷ l) (map-same rows)

pub reparented_rows-rehomed :
    (from to : String) (narrative : List ChatMessage) (rows : Messages)
    → reparented_rows from to narrative rows ≡ rehomed_rows from to narrative rows
unfolding reparented_rows set_exchange
reparented_rows-rehomed from to [] rows = map-same rows
reparented_rows-rehomed from to (m ∷ narrative) rows = elim (Bool-cases (is_in from m)) [
  | inr e ↦ rw e (reparented_rows-rehomed from to narrative rows)
  | inl e ↦ rw e (reparented_rows-rehomed from to narrative (placed_in m.id to rows) ∙ go m.id)
]
  where
    go :
        (o : Option String)
        → rehomed_rows from to narrative (placed_in o to rows)
          ≡ map
              (λ r.
                if opt_test (λ id. str_eq r.id id) o || is_moved_row from narrative r
                then with_exchange to r
                else r)
              rows
    go none = refl
    go (some i) =
        ap (rehomed_rows from to narrative)
          (update-map (λ r. str_eq r.id i) (with_exchange to) rows)
        ∙ set_rows_again from to i narrative rows
