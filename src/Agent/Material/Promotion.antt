-- ===== src/Agent/Material/Promotion.antt =====
-- What `_handle_promote` of core/src/octoforge_core/agent/runner.py does to a settled collection.
use octo_forge.Base.{
  ℕ, ◌+◌, ◌<◌, if◌then◌else◌, String, Bool, false, not, Option, none, some, str_eq, ◌&&◌,
  count_where, ◌≡◌, ◌≢◌, ◌⊎◌,
}
use octo_forge.Dialogs.Exchanges.{
  opened, cancelled, is_collecting, is_live, Exchange, Exchanges, get, with_status,
}
use octo_forge.Agent.Material.Rehoming.{Rehomed, rehomed_rows}
use octo_forge.Agent.Material.{Desk}

-- what a promotion may do: nothing, for an exchange that is no settled collection
abbrev pub IsKept : Exchange → ℕ → ℕ → Desk → Desk → Option String → Type 0
IsKept e now quiet desk after run =
    ((is_collecting e.status ≡ false) ⊎ (now < e.updated_at + quiet))
    × (after ≡ desk)
    × (run ≡ none)

abbrev pub IsOpened : String → Exchange → ℕ → Desk → Desk → Option String → Type 0
IsOpened id e now desk after run =
    (after.narrative ≡ desk.narrative)
    × (after.messages ≡ desk.messages)
    × (get id after.exchanges ≡ some (with_status opened none now e))
    × (run ≡ some id)

-- a live exchange of the dialog, under one id, that is no collection and not the one under another
abbrev pub is_answerable : String → String → String → Exchange → Bool
is_answerable dialog_id id to e =
    (str_eq e.dialog_id dialog_id && is_live e.status)
    && ((not (str_eq e.id id) && not (is_collecting e.status)) && str_eq e.id to)

pub record IsMoved (has_run : String → Bool) (dialog_id id : String) (e : Exchange) (now : ℕ)
    (desk after : Desk) (run : Option String) (to : String) : Type 0 where
  pub answerable : count_where (is_answerable dialog_id id to) desk.exchanges ≢ 0
  pub dropped : get id after.exchanges ≡ some (with_status cancelled none now e)
  pub rehomed : Rehomed id to desk.narrative after.narrative
  pub rows : after.messages ≡ rehomed_rows id to desk.narrative desk.messages
  pub started : run ≡ (if has_run to then none else some to)

abbrev pub IsPromoted :
    (String → Bool) → String → String → Exchange → ℕ → ℕ → Desk → Desk × Option String → Type 0
IsPromoted has_run dialog_id id e now quiet desk r =
    IsKept e now quiet desk r.0 r.1
    ⊎ (IsOpened id e now desk r.0 r.1
        ⊎ ((to : String) × IsMoved has_run dialog_id id e now desk r.0 r.1 to))
