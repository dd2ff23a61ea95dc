-- ===== src/Cron/Store.antt =====
-- `SqlAlchemyCronStore` of core/src/octoforge_core/cron/store.py, over the table `cron_jobs`. A row
-- is its job: `create` and `_to_cron_job` copy field by field. Each method is one transaction.
use octo_forge.Base.{
  ℕ, ◌+◌, String, Bool, Option, none, some, List, [], ◌∷◌, ◌++◌, ◌&&◌, ◌||◌, str_eq, if◌then◌else◌,
  is_none, opt_test, ◌==◌, ltb, leb, take, select_where, first_where, update_where, delete_where,
  count_where, order_by, order_with, get_by, str_leb,
}
use octo_forge.Tasks.Api.{TaskStatus}
use octo_forge.Cron.Api.{CronJob, Jobs, job_id}

-- An INSERT; `none` is the IntegrityError for a primary key that is taken.
unfoldable pub create : CronJob → Jobs → Option Jobs
create job rows = if is_none (get_by job_id job.id rows) then some (rows ++ job ∷ []) else none

-- `none` is CronJobNotFoundError, here and below.
unfoldable pub get : String → Jobs → Option CronJob
get id rows = get_by job_id id rows

-- `order_by(created_at, id)`
abbrev pub older : CronJob → CronJob → Bool
older a b = ltb a.created_at b.created_at || (a.created_at == b.created_at && str_leb a.id b.id)

unfoldable pub list_for_user : String → Jobs → List CronJob
list_for_user user_id rows = order_with older (select_where (λ j. str_eq j.user_id user_id) rows)

abbrev pub is_owned : String → String → CronJob → Bool
is_owned user_id id j = str_eq j.id id && str_eq j.user_id user_id

unfoldable pub find_owned_row : String → String → Jobs → Option CronJob
find_owned_row user_id id = first_where (is_owned user_id id)

-- `session.delete(row)` deletes by the primary key.
unfoldable pub delete_for_user : String → String → Jobs → Option Jobs
delete_for_user user_id id rows = elim (find_owned_row user_id id rows) [
  | none ↦ none
  | some row ↦ some (delete_where (λ j. str_eq j.id row.id) rows)
]

abbrev pub switched : Bool → Option ℕ → CronJob → CronJob
switched enabled none j = record j { enabled = enabled }
switched enabled (some at) j = record j { enabled = enabled; next_fire_at = at }

-- The changed columns of the row are flushed by an UPDATE on its primary key.
unfoldable pub set_enabled : String → String → Bool → Option ℕ → Jobs → Option (CronJob × Jobs)
set_enabled user_id id enabled next_fire_at rows = elim (find_owned_row user_id id rows) [
  | none ↦ none
  | some row ↦ some (
    switched enabled next_fire_at row,
    update_where (λ j. str_eq j.id row.id) (switched enabled next_fire_at) rows,
  )
]

-- `claimed_at < stale_before` is not true where `claimed_at` is NULL.
abbrev pub is_claimable : ℕ → CronJob → Bool
is_claimable stale_before j =
    is_none j.claimed_by || opt_test (λ at. ltb at stale_before) j.claimed_at

abbrev pub is_due : ℕ → ℕ → CronJob → Bool
is_due now stale_before j = j.enabled && (leb j.next_fire_at now && is_claimable stale_before j)

unfoldable pub list_due : ℕ → ℕ → ℕ → Jobs → List CronJob
list_due now stale_before limit rows =
    take limit (order_by (λ j. j.next_fire_at) (select_where (is_due now stale_before) rows))

abbrev pub can_claim : ℕ → ℕ → CronJob → Bool
can_claim expected stale_before j =
    j.enabled && (j.next_fire_at == expected && is_claimable stale_before j)

abbrev pub leased : String → ℕ → CronJob → CronJob
leased owner now j = record j { claimed_by = some owner; claimed_at = some now }

-- One conditional UPDATE; its row count is the answer.
unfoldable pub claim : String → ℕ → String → ℕ → ℕ → Jobs → Bool × Jobs
claim id expected owner now stale_before rows =
    let wanted = λ (j : CronJob). str_eq j.id id && can_claim expected stale_before j in
    (ltb 0 (count_where wanted rows), update_where wanted (leased owner now) rows)

abbrev pub unleased : CronJob → CronJob
unleased j = record j { claimed_by = none; claimed_at = none }

unfoldable pub release_claim : String → Jobs → Jobs
release_claim id = update_where (λ j. str_eq j.id id) unleased

abbrev pub fired : ℕ → ℕ → CronJob → CronJob
fired fired_at next_fire_at j = record j {
  last_fire_at = some fired_at;
  next_fire_at = next_fire_at;
  claimed_by = none;
  claimed_at = none;
}

unfoldable pub complete_fire : String → ℕ → ℕ → Jobs → Jobs
complete_fire id fired_at next_fire_at =
    update_where (λ j. str_eq j.id id) (fired fired_at next_fire_at)

abbrev pub with_result : TaskStatus → Option String → Option ℕ → CronJob → CronJob
with_result status error (some retry_at) j = record j {
  last_status = some status;
  last_error = error;
  next_fire_at = retry_at;
  retry_count = j.retry_count + 1;
}
with_result status error none j = record j {
  last_status = some status;
  last_error = error;
  retry_count = 0;
}

unfoldable pub record_fire_result : String → TaskStatus → Option String → Option ℕ → Jobs → Jobs
record_fire_result id status error retry_at =
    update_where (λ j. str_eq j.id id) (with_result status error retry_at)
