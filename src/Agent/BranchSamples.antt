-- ===== src/Agent/BranchSamples.antt =====
-- The properties of a run's branch at a concrete narrative.
use octo_forge.Base.{
  false, not, none, some, List, [], ◌∷◌, ◌++◌, ◌≡◌, ◌⊎◌, String, select_where, map, All,
}
use octo_forge.Domain.{user, MessageKind, own, material, ChatMessage}
use octo_forge.Agent.Branch.{belongs, render_branch}
use octo_forge.Agent.Branch.Shown.{blank, is_owed_elsewhere, render_branch_shows}
use octo_forge.Agent.Branch.Positions.{IsTask}
use octo_forge.Agent.Branch.Task.{untasked, as_task, one_marked}

abbrev said : String → MessageKind → String → ChatMessage
said content kind exchange_id = record {
  role = user;
  content = content;
  tool_calls = [];
  tool_call_id = none;
  task_id = none;
  kind = kind;
  attachments = [];
  id = none;
  exchange_id = some exchange_id;
}

abbrev narrative : List ChatMessage
narrative =
    said "forward" material "mine"
    ∷ said "first" own "mine"
    ∷ said "other" own "theirs"
    ∷ said "second" own "mine"
    ∷ []

render_branch_shows_example :
    map blank (render_branch narrative (some "mine") ("theirs" ∷ []))
    ≡ map blank
        (select_where (λ m. not (is_owed_elsewhere (some "mine") ("theirs" ∷ []) m)) narrative)
render_branch_shows_example = render_branch_shows narrative (some "mine") ("theirs" ∷ [])

one_marked_example :
    ((before : List ChatMessage) × (m : ChatMessage) × (after : List ChatMessage) × (narrative
        ≡ before ++ m ∷ after)
      × IsTask "mine" before m after
      × (render_branch narrative (some "mine") ("theirs" ∷ [])
          ≡ untasked "mine" ("theirs" ∷ []) before
            ++ as_task m ∷ untasked "mine" ("theirs" ∷ []) after))
    ⊎ (All (λ m. belongs "mine" m ≡ false) narrative
        × (render_branch narrative (some "mine") ("theirs" ∷ [])
            ≡ untasked "mine" ("theirs" ∷ []) narrative))
one_marked_example = one_marked narrative "mine" ("theirs" ∷ [])
