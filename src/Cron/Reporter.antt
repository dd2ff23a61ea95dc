-- ===== src/Cron/Reporter.antt =====
-- core/src/octoforge_core/cron/reporter.py: what the outcome of a fired task does to its job.
use mathlib.Core.Option
use octo_forge.Base.{
  ℕ, String, Option, none, some, [], ◌∷◌, ◌≡◌, refl, sym, ap, ◌∙◌, ◌&&◌, str_eq, eq_iff,
  if◌then◌else◌, opt_test, arith, update_where, delete_where, get_by, IsKeyed, touched, get-update,
  get-delete, key-get, str_take, Bool-cases, inl, inr,
}
use octo_forge.Json.{get_field, as_text}
use octo_forge.Tasks.Api.{Task, TaskStatus, failed, cancelled, is_final}
use octo_forge.Cron.Api.{CronJob, Jobs, job_id}
use octo_forge.Cron.Store.{delete_for_user, find_owned_row, record_fire_result, with_result}

-- LAST_ERROR_MAX_CHARS
abbrev pub last_error_max_chars : ℕ
last_error_max_chars = 500

-- `text or default`: an empty text is false too
abbrev pub text_or : Option String → String → String
text_or none default = default
text_or (some s) default = if str_eq s "" then default else s

unfoldable pub error_for : Task → TaskStatus → Option String
error_for task failed = some (str_take last_error_max_chars (text_or task.error "unknown error"))
error_for task cancelled = some "cancelled"
error_for task _ = none

-- The answer is `none` for an exception, which none of the calls raises on an unchanged table.
unfoldable pub report_job : Task → TaskStatus → Option String → Jobs → Option Jobs
report_job task status none rows = some rows
report_job task status (some id) rows = elim (get_by job_id id rows) [
  | none ↦ some rows
  | some job ↦
      if job.one_shot && is_final status
      then delete_for_user job.user_id job.id rows
      else some (record_fire_result id status (error_for task status) none rows)
]

unfoldable pub report_outcome : Task → TaskStatus → Jobs → Option Jobs
report_outcome task status = report_job task status (as_text (get_field "cron_job_id" task.input))

-- the row of a job that stays
abbrev pub recorded : Task → TaskStatus → CronJob → CronJob
recorded task status job = record job {
  last_status = some status;
  last_error = error_for task status;
  retry_count = 0;
}

abbrev pub row_after : Task → TaskStatus → CronJob → Option CronJob
row_after task status job =
    if job.one_shot && is_final status then none else some (recorded task status job)

-- a stored job is found by its owner
owned-found :
    (id : String) (rows : Jobs) (job : CronJob)
    → get_by job_id id rows ≡ some job
    → find_owned_row job.user_id job.id rows ≡ some job
unfolding find_owned_row
owned-found id [] job e = cc
owned-found id (r ∷ rows) job e = ground (
  arith,
  e,
  eq_iff r.id id,
  eq_iff r.id job.id,
  eq_iff r.user_id job.user_id,
  key-get job_id id rows job,
  owned-found id rows job,
)

-- the rows after the DELETE of one job, and after an UPDATE of it
get-delete_job :
    (id : String) (job : CronJob) (rows : Jobs)
    → IsKeyed job_id rows
    → get_by job_id id rows ≡ some job
    → (k : String)
    → get_by job_id k (delete_where (λ j. str_eq j.id job.id) rows)
      ≡ (if str_eq id k then none else get_by job_id k rows)
get-delete_job id job rows keyed found k =
    rw (get-delete job_id k (λ j. str_eq j.id job.id) rows keyed) (
      go (get_by job_id k rows) (key-get job_id k rows)
        (λ e. sym (ap (λ x. get_by job_id x rows) e) ∙ found))
  where
    go :
        (o : Option CronJob)
        → ((j : CronJob) → o ≡ some j → j.id ≡ k)
        → (id ≡ k → o ≡ some job)
        → (if opt_test (λ j. str_eq j.id job.id) o then none else o)
          ≡ (if str_eq id k then none else o)
    go none h e = ground arith
    go (some j) h e =
        ground
          (arith, h j refl, key-get job_id id rows job found, e, eq_iff id k, eq_iff j.id job.id)

get-update_job :
    (id : String) (f : CronJob → CronJob) (job : CronJob) (rows : Jobs)
    → ((j : CronJob) → (f j).id ≡ j.id)
    → get_by job_id id rows ≡ some job
    → (k : String)
    → get_by job_id k (update_where (λ j. str_eq j.id id) f rows)
      ≡ (if str_eq id k then some (f job) else get_by job_id k rows)
get-update_job id f job rows keeps found k =
    rw (get-update job_id k (λ j. str_eq j.id id) f rows keeps) (
      go (get_by job_id k rows) (key-get job_id k rows)
        (λ e. sym (ap (λ x. get_by job_id x rows) e) ∙ found))
  where
    go :
        (o : Option CronJob)
        → ((j : CronJob) → o ≡ some j → j.id ≡ k)
        → (id ≡ k → o ≡ some job)
        → Option.map (touched (λ j. str_eq j.id id) f) o ≡ (if str_eq id k then some (f job) else o)
    go none h e = ground (arith, e, eq_iff id k)
    go (some j) h e = ground (arith, h j refl, e, eq_iff id k, eq_iff j.id id)

-- The outcome of a task that a stored job fired is recorded without an exception. The job is gone if
-- it is one-shot and the task is done or failed; else it stays, with the status, its error text and
-- no retry streak, and with its schedule, its lease and all else as they were. No other job changes.
pub report_outcome_exact :
    (task : Task) (status : TaskStatus) (id : String) (job : CronJob) (rows : Jobs)
    → IsKeyed job_id rows
    → as_text (get_field "cron_job_id" task.input) ≡ some id
    → get_by job_id id rows ≡ some job
    → (rows' : Jobs) × (report_outcome task status rows ≡ some rows')
      × ((k : String)
          → get_by job_id k rows'
            ≡ (if str_eq id k then row_after task status job else get_by job_id k rows))
unfolding report_outcome report_job delete_for_user
report_outcome_exact task status id job rows keyed named found =
    elim (Bool-cases (job.one_shot && is_final status)) [
      | inl gone ↦ (
        delete_where (λ j. str_eq j.id job.id) rows,
        rw (
          report_outcome,
          named,
          report_job,
          found,
          gone,
          delete_for_user,
          owned-found id rows job found,
        ),
        rw gone (get-delete_job id job rows keyed found),
      )
      | inr stays ↦ (
        record_fire_result id status (error_for task status) none rows,
        rw (report_outcome, named, report_job, found, stays),
        rw stays (
            unfold record_fire_result in
            get-update_job id (with_result status (error_for task status) none) job rows (λ j. refl)
              found),
      )
    ]
