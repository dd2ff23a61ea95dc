-- ===== src/Cron/Create.antt =====
-- Creating a job, from core/src/octoforge_core/cron/api.py. The texts of the replies are left out:
-- a reply is the case that it words, with what it names.
use octo_forge.Base.{
  ℕ, String, Bool, true, Option, none, some, List, ◌&&◌, str_eq, ok, err, if◌then◌else◌, ltb,
  length, first_where,
}
use mathlib.Core.Bool.{xor, not}
use octo_forge.Cron.Api.{CronJob, Jobs}
use octo_forge.Cron.Schedule.{schedule_error, bad_date, Calendar, compute_next_fire}
use octo_forge.Cron.Store.{create, list_for_user}

pub record CronJobDraft : Type 0 where
  pub user_id : String
  pub channel : String
  pub title : String
  pub schedule : String
  pub prompt : String
  pub timezone : String
  pub one_shot : Bool

pub data CreateReply : Type 0 where
  -- `error: ..` for a CronScheduleError
  invalid : CreateReply
  duplicate : CronJob → CreateReply
  refused : (limit : ℕ) → CreateReply
  created : CronJob → CreateReply
  -- an exception that `create_job` does not catch
  raised : CreateReply

-- `max_jobs` if the cap is reached
unfoldable pub job_quota_refusal : ℕ → Option ℕ → Option ℕ
job_quota_refusal existing_count none = none
job_quota_refusal existing_count (some max_jobs) =
    if ltb existing_count max_jobs then none else some max_jobs

abbrev pub is_duplicate : CronJobDraft → CronJob → Bool
is_duplicate draft job =
    str_eq job.title draft.title
    && (str_eq job.schedule draft.schedule
        && (str_eq job.prompt draft.prompt && not (xor job.one_shot draft.one_shot)))

unfoldable pub find_duplicate : List CronJob → CronJobDraft → Option CronJob
find_duplicate existing draft = first_where (is_duplicate draft) existing

abbrev pub new_job : CronJobDraft → String → ℕ → ℕ → CronJob
new_job draft id next_fire_at now = record {
  id = id;
  user_id = draft.user_id;
  channel = draft.channel;
  title = draft.title;
  schedule = draft.schedule;
  timezone = draft.timezone;
  prompt = draft.prompt;
  enabled = true;
  next_fire_at = next_fire_at;
  last_fire_at = none;
  claimed_by = none;
  claimed_at = none;
  created_at = now;
  one_shot = draft.one_shot;
  last_status = none;
  last_error = none;
  retry_count = 0;
}

-- from the listing on; `id` is the fresh `uuid4().hex`, and `now` the second call of `utc_now()`
unfoldable pub admit : CronJobDraft → Option ℕ → String → ℕ → ℕ → Jobs → CreateReply × Jobs
unfolding find_duplicate job_quota_refusal
admit draft max_jobs id next_fire_at now rows =
    let existing = list_for_user draft.user_id rows in
    elim (find_duplicate existing draft) [
      | some job ↦ (duplicate job, rows)
      | none ↦ elim (job_quota_refusal (length existing) max_jobs) [
        | some limit ↦ (refused limit, rows)
        | none ↦ elim (create (new_job draft id next_fire_at now) rows) [
          | none ↦ (raised, rows)
          | some rows' ↦ (created (new_job draft id next_fire_at now), rows')
        ]
      ]
    ]

unfoldable pub create_job :
    Calendar → CronJobDraft → Option ℕ → String → ℕ → ℕ → Jobs → CreateReply × Jobs
unfolding admit
create_job cal draft max_jobs id base now rows =
    elim (compute_next_fire cal draft.schedule draft.timezone base) [
      | err schedule_error ↦ (invalid, rows)
      | err bad_date ↦ (raised, rows)
      | ok next_fire_at ↦ admit draft max_jobs id next_fire_at now rows
    ]
