-- ===== src/Agent/Material/Placement.antt =====
-- Where core/src/octoforge_core/agent/runner.py puts a message and a forward.
use octo_forge.Base.{
  ℕ, String, true, Option, none, some, List, [], ◌∷◌, ◌&&◌, str_eq, eq_iff, any, map, count_where,
  ◌≡◌, refl, sym, ap, ◌∙◌, subst, arith, inl, inr, Bool-cases,
}
use octo_forge.Domain.{ChatMessage}
use octo_forge.Dialogs.Exchanges.{is_collecting, Exchange, Exchanges}
use octo_forge.Agent.Router.{Completion, route, is_in}
use octo_forge.Agent.Routing.{IsSafe, route-IsSafe}
use octo_forge.Agent.Material.{
  shown, sole_fresh_collection, continue_in, route_unaddressed, route_message, material_preview,
}

abbrev pub ids : List Exchange → List String
ids live = map (λ e. e.id) live

shown-ids :
    (now : ℕ) (preview : Exchange → Option String) (live : List Exchange)
    → map (λ i. i.id) (map (shown now preview) live) ≡ ids live
shown-ids now preview [] = refl
shown-ids now preview (e ∷ live) = ap (λ l. e.id ∷ l) (shown-ids now preview live)

continue_in-IsSafe :
    (known : List String) (id : String) → is_in known id ≡ true → IsSafe known (continue_in id)
continue_in-IsSafe known id h = record { cancels = tt; addressed = h; titled = tt }

any-ids :
    (id : String) (live : List Exchange) → any (λ e. str_eq id e.id) live ≡ is_in (ids live) id
any-ids id [] = refl
any-ids id (e ∷ live) = ground (arith, any-ids id live)

sole_in :
    (now quiet : ℕ) (live : List Exchange) (e : Exchange)
    → sole_fresh_collection now quiet live ≡ some e
    → is_in (ids live) e.id ≡ true
unfolding sole_fresh_collection
sole_in now quiet [] e h = absurd (ground (arith, h))
sole_in now quiet (x ∷ []) e h = ground (arith, h, eq_iff e.id x.id)
sole_in now quiet (x ∷ y ∷ live) e h = absurd (ground (arith, h))

unaddressed-IsSafe :
    (now quiet : ℕ) (preview : Exchange → Option String) (live : List Exchange)
    (reply : Option Completion)
    → IsSafe (ids live) (route_unaddressed now quiet preview live reply)
unfolding route_unaddressed
unaddressed-IsSafe now quiet preview live reply = go (sole_fresh_collection now quiet live) refl
  where
    go :
        (o : Option Exchange)
        → sole_fresh_collection now quiet live ≡ o
        → IsSafe (ids live) (route_unaddressed now quiet preview live reply)
    go (some e) h =
        rw (route_unaddressed, h) (continue_in-IsSafe (ids live) e.id (sole_in now quiet live e h))
    go none h =
        rw (route_unaddressed, h)
          (subst (λ k. IsSafe k (route (map (shown now preview) live) reply))
            (shown-ids now preview live) (route-IsSafe (map (shown now preview) live) reply))

-- Whether a reply names an exchange, a fresh collection is the only live exchange, or the router is
-- asked, and whatever its model replies: a message continues only a live exchange of the dialog, and
-- only live ones are cancelled for it.
pub route_message-IsSafe :
    (reply_to : Option String) (now quiet : ℕ) (narrative : List ChatMessage) (live : List Exchange)
    (reply : Option Completion)
    → IsSafe (ids live) (route_message reply_to now quiet narrative live reply)
unfolding route_message
route_message-IsSafe none now quiet narrative live reply =
    unaddressed-IsSafe now quiet (λ e. material_preview narrative e.id) live reply
route_message-IsSafe (some id) now quiet narrative live reply =
    elim (Bool-cases (any (λ e. str_eq id e.id) live)) [
      | inl h ↦ rw h (continue_in-IsSafe (ids live) id (sym (any-ids id live) ∙ h))
      | inr h ↦
          rw h (unaddressed-IsSafe now quiet (λ e. material_preview narrative e.id) live reply)
    ]

-- how many collections a dialog has
abbrev pub collections : String → Exchanges → ℕ
collections dialog_id rows =
    count_where (λ e. str_eq e.dialog_id dialog_id && is_collecting e.status) rows
