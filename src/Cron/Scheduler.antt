-- ===== src/Cron/Scheduler.antt =====
-- `CronScheduler` of core/src/octoforge_core/cron/scheduler.py. What the scheduler shares with the
-- rest of the process is the table of jobs and `W`, whatever else a wake touches: during the wake
-- the other side may change the table too. A datetime below the least one is an OverflowError.
use Prim.Native.String.{◌++◌ as str_append}
use octo_forge.Base.{
  ℕ, suc, zero, ◌-◌, ◌/◌, ◌%◌, String, Bool, true, false, none, some, List, [], ◌∷◌, Result, ok,
  err, ◌>>=◌, if◌then◌else◌, ltb, ◌==◌,
}
use octo_forge.Cron.Api.{CronJob, WakeOutcome, delivered, limited, not_ours, Jobs}
use octo_forge.Cron.Schedule.{CronError, Calendar, compute_next_fire, count_missed, default_cap}
use octo_forge.Cron.Store.{list_due, claim, release_claim, complete_fire}

-- decimal digits, as `str.format` prints a count; `fuel` digits are enough for a number below 10^fuel
abbrev digit : ℕ → String
digit n =
    if n == 0
    then "0"
    else if n == 1
    then "1"
    else if n == 2
    then "2"
    else if n == 3
    then "3"
    else if n == 4
    then "4"
    else if n == 5
    then "5"
    else if n == 6
    then "6"
    else if n == 7
    then "7"
    else if n == 8
    then "8"
    else "9"

show_fuel : ℕ → ℕ → String
show_fuel zero n = ""
show_fuel (suc fuel) n =
    let upper = str_append (show_fuel fuel (n / 10)) (digit (n % 10)) in
    if ltb n 10 then digit n else upper

-- MISSED_RUNS_SUFFIX_TEMPLATE; a count is at most 100
unfoldable pub missed_suffix : ℕ → String
unfolding show_fuel
missed_suffix count =
    str_append "\n["
      (str_append (show_fuel 3 count) " scheduled runs were missed and coalesced into this one.]")

pub record WakeRequest : Type 0 where
  pub user_id : String
  pub channel : String
  pub title : String
  pub prompt : String
  pub cron_job_id : String

-- `wake` answers or raises.
pub data WakeReply : Type 0 where
  answered : WakeOutcome → WakeReply
  wake_raised : WakeReply

pub record CronSchedulerConfig : Type 0 where
  pub lease_ttl : ℕ
  pub replay_limit : ℕ

-- How a tick ends: `overflow` and `tick_raised` leave `tick` as exceptions, and `run_forever` logs
-- them and polls again.
pub data TickEnd : Type 0 where
  completed overflow : TickEnd
  tick_raised : CronError → TickEnd

abbrev last_run : CronJob → ℕ
last_run job = elim job.last_fire_at [ none ↦ job.created_at | some at ↦ at ]

unfoldable pub missed_run_count : Calendar → CronJob → ℕ → Result CronError ℕ
missed_run_count cal job now =
    count_missed cal job.schedule job.timezone (last_run job) now default_cap

unfoldable pub has_missed_runs : Calendar → CronJob → ℕ → Result CronError Bool
has_missed_runs cal job now = missed_run_count cal job now >>= λ missed. ok (ltb 0 missed)

unfoldable pub prompt_for : Calendar → CronJob → ℕ → Result CronError String
prompt_for cal job now = missed_run_count cal job now >>= λ missed.
    ok (if missed == 0 then job.prompt else str_append job.prompt (missed_suffix missed))

abbrev pub request : CronJob → String → WakeRequest
request job prompt = record {
  user_id = job.user_id;
  channel = job.channel;
  title = job.title;
  prompt = prompt;
  cron_job_id = job.id;
}

-- what `_fire` does with the lease after a delivered wake: an error leaves the claim in place
unfoldable pub settle_delivered : Calendar → CronJob → ℕ → Jobs → Jobs
settle_delivered cal job now rows = elim (compute_next_fire cal job.schedule job.timezone now) [
  | err e ↦ rows
  | ok next ↦ complete_fire job.id now next rows
]

unfoldable pub settle : Calendar → CronJob → ℕ → WakeReply → Jobs → Jobs
settle cal job now wake_raised rows = release_claim job.id rows
settle cal job now (answered not_ours) rows = release_claim job.id rows
settle cal job now (answered limited) rows = rows
settle cal job now (answered delivered) rows = settle_delivered cal job now rows

module _ {W : Type 0} (cal : Calendar) (wake : WakeRequest → Jobs × W → WakeReply × Jobs × W) where
  -- the part behind a won claim; building the prompt stands inside the first `try`
  unfoldable pub deliver : CronJob → ℕ → Jobs × W → Jobs × W
  deliver job now (rows, w) = elim (prompt_for cal job now) [
    | err e ↦ (release_claim job.id rows, w)
    | ok prompt ↦
        (let (reply, rows', w') = wake (request job prompt) (rows, w) in
          (settle cal job now reply rows', w'))
  ]

  unfoldable pub fire : String → CronJob → ℕ → ℕ → Jobs × W → Jobs × W
  fire owner job now stale_before (rows, w) =
      let (claimed, rows') = claim job.id job.next_fire_at owner now stale_before rows in
      if claimed then deliver job now (rows', w) else (rows, w)

  -- The `for` of `tick`. The pacing sleep changes nothing, but the test before it may raise.
  unfoldable pub fire_all : String → ℕ → ℕ → Bool → List CronJob → Jobs × W → TickEnd × Jobs × W
  fire_all owner now stale_before first [] (rows, w) = (completed, rows, w)
  fire_all owner now stale_before first (job ∷ due) (rows, w) =
      let rest =
        fire_all owner now stale_before false due (fire owner job now stale_before (rows, w)) in
      if first
      then rest
      else elim (has_missed_runs cal job now) [ err e ↦ (tick_raised e, rows, w) | ok _ ↦ rest ]

  unfoldable pub tick : CronSchedulerConfig → String → ℕ → Jobs × W → TickEnd × Jobs × W
  tick config owner fired_at (rows, w) =
      let stale_before = fired_at - config.lease_ttl in
      let due = list_due fired_at stale_before config.replay_limit rows in
      if ltb fired_at config.lease_ttl
      then (overflow, rows, w)
      else fire_all owner fired_at stale_before true due (rows, w)
