-- ===== src/Agent/Branch/Shown.antt =====
-- Which messages core/src/octoforge_core/agent/branch.py shows to a run.
use octo_forge.Base.{
  ℕ, suc, Bool, ◌&&◌, not, Option, List, [], ◌∷◌, String, select_where, map, ◌≡◌, refl, inl, inr,
  Option-cases, arith,
}
use octo_forge.Domain.{ChatMessage}
use octo_forge.Agent.Branch.{
  is_user, is_material, same_id, is_live, render_from, task_index, render_branch,
}

-- a question that another run owes the answer to
abbrev pub is_owed_elsewhere : Option String → List String → ChatMessage → Bool
is_owed_elsewhere own_exchange_id live m =
    is_user m.role
    && not (same_id m.exchange_id own_exchange_id)
    && is_live live m.exchange_id
    && not (is_material m.kind)

-- a message but for its content
abbrev pub blank : ChatMessage → ChatMessage
blank m = record m { content = "" }

render_from-blank :
    (index : ℕ) (task : Option ℕ) (own_exchange_id : Option String) (live : List String)
    (messages : List ChatMessage)
    → map blank (render_from index task own_exchange_id live messages)
      ≡ map blank (select_where (λ m. not (is_owed_elsewhere own_exchange_id live m)) messages)
unfolding render_from
render_from-blank index task own_exchange_id live [] = refl
render_from-blank index task own_exchange_id live (m ∷ messages) =
    elim (Option-cases m.exchange_id) [
      | inl e ↦ ground (arith, e, render_from-blank (suc index) task own_exchange_id live messages)
      | inr (x, e) ↦
          ground (arith, e, render_from-blank (suc index) task own_exchange_id live messages)
    ]

-- A run's branch is the dialog's narrative without the user's own messages of the other exchanges that
-- are being answered: no other message is left out, none is added, the order is kept, and of a message
-- nothing but its content is changed.
pub render_branch_shows :
    (messages : List ChatMessage) (own_exchange_id : Option String) (live : List String)
    → map blank (render_branch messages own_exchange_id live)
      ≡ map blank (select_where (λ m. not (is_owed_elsewhere own_exchange_id live m)) messages)
unfolding render_branch
render_branch_shows messages own_exchange_id live =
    render_from-blank 0 (task_index messages own_exchange_id) own_exchange_id live messages
