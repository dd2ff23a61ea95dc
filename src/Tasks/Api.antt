-- ===== src/Tasks/Api.antt =====
-- core/src/octoforge_core/tasks/api.py: the task. A datetime is the number of microseconds since
-- the least one.
use octo_forge.Base.{ℕ, String, Bool, true, false, Option}
use octo_forge.Json.{Members}

pub data TaskKind : Type 0 where
  run answer : TaskKind

pub data TaskStatus : Type 0 where
  pending running done failed cancelled : TaskStatus

pub record Task : Type 0 where
  pub id : String
  pub dialog_id : String
  pub title : String
  pub kind : TaskKind
  pub input : Members
  pub exchange_id : Option String
  pub status : TaskStatus
  pub result : Option String
  pub error : Option String
  pub created_at : ℕ
  pub started_at : Option ℕ
  pub finished_at : Option ℕ
  pub delivered_at : Option ℕ

-- `status in (PENDING, RUNNING)`
abbrev pub is_active : TaskStatus → Bool
is_active pending = true
is_active running = true
is_active _ = false

-- `status in (DONE, FAILED)`
abbrev pub is_final : TaskStatus → Bool
is_final done = true
is_final failed = true
is_final _ = false
