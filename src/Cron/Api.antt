-- ===== src/Cron/Api.antt =====
-- The job and the wake outcome of core/src/octoforge_core/cron/api.py. Datetimes are UTC, as the
-- number of microseconds since the least one.
use octo_forge.Base.{ℕ, String, Bool, Option, List}
use octo_forge.Tasks.Api.{TaskStatus}

pub record CronJob : Type 0 where
  pub id : String
  pub user_id : String
  pub channel : String
  pub title : String
  pub schedule : String
  pub timezone : String
  pub prompt : String
  pub enabled : Bool
  pub next_fire_at : ℕ
  pub last_fire_at : Option ℕ
  pub claimed_by : Option String
  pub claimed_at : Option ℕ
  pub created_at : ℕ
  pub one_shot : Bool
  pub last_status : Option TaskStatus
  pub last_error : Option String
  pub retry_count : ℕ

pub data WakeOutcome : Type 0 where
  delivered limited not_ours : WakeOutcome

-- the table `cron_jobs`
abbrev pub Jobs : Type 0
Jobs = List CronJob

abbrev pub job_id : CronJob → String
job_id j = j.id
