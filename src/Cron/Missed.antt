-- ===== src/Cron/Missed.antt =====
-- What `count_missed` of core/src/octoforge_core/cron/api.py counts.
use octo_forge.Base.{ℕ, zero, suc, ◌+◌, ◌-◌, ◌<◌, ◌≤◌, String, true, ◌≡◌, Result, ok, arith, min}
use octo_forge.Cron.Schedule.{
  CronError, Calendar, count_slots, count_missed, load_timezone, ensure_valid,
}

-- There are exactly `m` slots later than `current` and not later than `now`, and the one behind them
-- is known too.
abbrev pub HasSlots : (ℕ → Result CronError ℕ) → ℕ → ℕ → ℕ → Type 0
HasSlots next now current zero = (slot : ℕ) × (next current ≡ ok slot) × (now < slot)
HasSlots next now current (suc m) =
    (slot : ℕ) × (next current ≡ ok slot) × (slot ≤ now) × HasSlots next now slot m

count_slots_lem :
    (next : ℕ → Result CronError ℕ) (now left current slots m : ℕ)
    → HasSlots next now current m
    → count_slots next now left current slots ≡ ok (slots + min m left)
unfolding count_slots
count_slots_lem next now zero current slots zero h = rw h.1 (ground arith)
count_slots_lem next now zero current slots (suc m) h = rw h.1 (ground arith)
count_slots_lem next now (suc left) current slots zero h = rw h.1 (ground arith)
count_slots_lem next now (suc left) current slots (suc m) h =
    rw h.1 (ground (arith, count_slots_lem next now left h.0 (slots + 1) m h.3))

-- For a known zone and a valid expression whose schedule has exactly `m` slots in (since, now],
-- `count_missed` answers `m - 1` (0 for no slot), and no more than the cap.
pub count_missed_exact :
    (cal : Calendar) (schedule timezone : String) (since now cap m : ℕ)
    → cal.knows_zone timezone ≡ true
    → cal.is_valid schedule ≡ true
    → HasSlots (cal.get_next schedule timezone) now since m
    → count_missed cal schedule timezone since now cap ≡ ok (min (m - 1) cap)
unfolding count_missed load_timezone ensure_valid
count_missed_exact cal schedule timezone since now bound m zone valid h =
    rw (zone, valid, count_slots_lem (cal.get_next schedule timezone) now (bound + 1) since 0 m h)
      (ground arith)
