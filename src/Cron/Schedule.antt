-- ===== src/Cron/Schedule.antt =====
-- The schedule arithmetic of core/src/octoforge_core/cron/api.py. The time zone database and the
-- croniter package are outside of the repository: a `Calendar` stands for them, with the documented
-- behaviour that a next slot is later than the time it is asked for.
use octo_forge.Base.{
  ℕ, zero, suc, ◌+◌, ◌-◌, ◌<◌, String, Bool, ◌≡◌, Result, ok, ◌>>=◌, ◌>>◌, guard, ltb,
  if◌then◌else◌, min,
}

-- `schedule_error` is CronScheduleError; `bad_date` is what croniter raises for an expression that
-- is well formed and has no further date.
pub data CronError : Type 0 where
  schedule_error bad_date : CronError

pub record Calendar : Type 0 where
  -- `ZoneInfo(timezone)` finds the zone
  pub knows_zone : String → Bool
  -- `croniter.is_valid(schedule)`
  pub is_valid : String → Bool
  -- `croniter(schedule, base).get_next()` in the zone, back in UTC
  pub get_next : String → String → ℕ → Result CronError ℕ
  pub get_next_later :
      (schedule timezone : String) (base slot : ℕ)
      → get_next schedule timezone base ≡ ok slot
      → base < slot

module _ (cal : Calendar) where
  unfoldable pub load_timezone : String → Result CronError (Unit {0})
  load_timezone timezone = guard (cal.knows_zone timezone) schedule_error

  unfoldable pub ensure_valid : String → Result CronError (Unit {0})
  ensure_valid schedule = guard (cal.is_valid schedule) schedule_error

  unfoldable pub compute_next_fire : String → String → ℕ → Result CronError ℕ
  unfolding load_timezone ensure_valid
  compute_next_fire schedule timezone base = do
    load_timezone timezone
    ensure_valid schedule
    cal.get_next schedule timezone base

-- The `while True` of `count_missed`, by the rounds that are left: `slots + left ≡ cap + 1`
-- throughout, so the break on `slots > cap` is the round with none left.
unfoldable pub count_slots :
    (next : ℕ → Result CronError ℕ) (now left current slots : ℕ) → Result CronError ℕ
count_slots next now zero current slots = next current >>= λ _. ok slots
count_slots next now (suc left) current slots = next current >>= λ slot.
    (let rest = count_slots next now left slot (slots + 1) in
      if ltb now slot then ok slots else rest)

module _ (cal : Calendar) where
  -- `max(slots - 1, 0)` is the subtraction that stops at 0.
  unfoldable pub count_missed : String → String → ℕ → ℕ → ℕ → Result CronError ℕ
  unfolding count_slots load_timezone ensure_valid
  count_missed schedule timezone since now cap = do
    load_timezone cal timezone
    ensure_valid cal schedule
    slots ← count_slots (cal.get_next schedule timezone) now (cap + 1) since 0
    ok (min (slots - 1) cap)

-- MISSED_COUNT_DEFAULT_CAP
abbrev pub default_cap : ℕ
default_cap = 100
