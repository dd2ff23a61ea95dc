-- ===== src/Cron/Firing.antt =====
-- What `_fire` of core/src/octoforge_core/cron/scheduler.py leaves behind, by how the wake ends.
use octo_forge.Base.{
  ℕ, ◌≤◌, ◌<◌, String, true, false, Option, none, some, List, [], ◌∷◌, ◌≡◌, refl, sym, ◌∙◌, ◌&&◌,
  str_eq, eq_iff, ok, err, arith, opt_test, count_where, update_where, get_by, IsKeyed, touched,
  get-update, update-IsKeyed, key-get, ◌⊎◌, inl, inr,
}
use mathlib.Core.Option
use octo_forge.Cron.Api.{CronJob, delivered, limited, not_ours, Jobs, job_id}
use octo_forge.Cron.Schedule.{CronError, Calendar, compute_next_fire, load_timezone, ensure_valid}
use octo_forge.Cron.Store.{claim, can_claim, leased, unleased, fired, release_claim, complete_fire}
use octo_forge.Cron.Lease.{claim-get, get-claim, claim-IsKeyed}
use octo_forge.Cron.Scheduler.{
  WakeRequest, WakeReply, answered, wake_raised, tick_raised, has_missed_runs, prompt_for, request,
  settle, settle_delivered, deliver, fire, fire_all,
}

-- A computed slot is later than the time it is computed for.
compute_next_fire_later :
    (cal : Calendar) (schedule timezone : String) (now next : ℕ)
    → compute_next_fire cal schedule timezone now ≡ ok next
    → now < next
unfolding compute_next_fire load_timezone ensure_valid
compute_next_fire_later cal schedule timezone now next e =
    ground (arith, cal.get_next_later schedule timezone now next)

claim_complete_flag :
    (id : String) (expected now next : ℕ) (owner : String) (now' stale_before : ℕ) (rows : Jobs)
    → expected < next
    → count_where
        (λ j. str_eq j.id id && can_claim expected stale_before j)
        (update_where (λ j. str_eq j.id id) (fired now next) rows)
      ≡ 0
claim_complete_flag id expected now next owner now' stale_before [] h = refl
claim_complete_flag id expected now next owner now' stale_before (r ∷ rows) h =
    ground (arith, claim_complete_flag id expected now next owner now' stale_before rows h)

-- Once a fire is completed, no claim for the old due time is won.
claim_complete :
    (id : String) (expected now next : ℕ) (owner : String) (now' stale_before : ℕ) (rows : Jobs)
    → expected < next
    → (claim id expected owner now' stale_before (complete_fire id now next rows)).0 ≡ false
unfolding claim complete_fire
claim_complete id expected now next owner now' stale_before rows h =
    rw (claim_complete_flag id expected now next owner now' stale_before rows h)

settle-release :
    (cal : Calendar) (job : CronJob) (now : ℕ) (rows : Jobs) {reply : WakeReply}
    → (reply ≡ answered not_ours) ⊎ (reply ≡ wake_raised)
    → settle cal job now reply rows ≡ release_claim job.id rows
settle-release cal job now rows (inl h) = rw h (unfold settle in refl)
settle-release cal job now rows (inr h) = rw h (unfold settle in refl)

release-IsKeyed :
    (id : String) (rows : Jobs) → IsKeyed job_id rows → IsKeyed job_id (release_claim id rows)
unfolding release_claim
release-IsKeyed id rows = update-IsKeyed job_id _ unleased rows (λ r. refl)

get-release :
    (id : String) (rows : Jobs)
    → get_by job_id id (release_claim id rows)
      ≡ Option.map (touched (λ r. str_eq r.id id) unleased) (get_by job_id id rows)
unfolding release_claim
get-release id rows = get-update job_id id _ unleased rows (λ r. refl)

released_claimable :
    (id : String) (expected stale_before : ℕ) (j : CronJob)
    → j.id ≡ id
    → j.enabled ≡ true
    → j.next_fire_at ≡ expected
    → can_claim expected stale_before (touched (λ r. str_eq r.id id) unleased j) ≡ true
released_claimable id expected stale_before j named on slot = ground (arith, eq_iff j.id id)

module _ {W : Type 0} (cal : Calendar) (wake : WakeRequest → Jobs × W → WakeReply × Jobs × W) where
  fire-lost :
      (owner : String) (job : CronJob) (now stale_before : ℕ) (s : Jobs × W)
      → (claim job.id job.next_fire_at owner now stale_before s.0).0 ≡ false
      → fire cal wake owner job now stale_before s ≡ s
  unfolding fire
  fire-lost owner job now stale_before (rows, w) lost = rw lost

  fire-won :
      (owner : String) (job : CronJob) (now stale_before : ℕ) (s : Jobs × W) (prompt : String)
      → (claim job.id job.next_fire_at owner now stale_before s.0).0 ≡ true
      → prompt_for cal job now ≡ ok prompt
      → let woken =
          wake
            (request job prompt)
            ((claim job.id job.next_fire_at owner now stale_before s.0).1, s.1) in
        fire cal wake owner job now stale_before s ≡ (settle cal job now woken.0 woken.1, woken.2)
  unfolding fire deliver
  fire-won owner job now stale_before (rows, w) prompt won e = rw (won) (rw (e, deliver))

  -- A due job that is claimed, whose wake is delivered, and for which its schedule gives both the prompt
  -- with its missed runs and, at the time of the fire, a next slot, fires once for its slot: a scheduler
  -- that holds the same listing of the job, whoever it is and whatever its clock says, then does nothing
  -- at all. The wake may have changed the table in any way.
  pub fire_once :
      (owner owner' : String) (job : CronJob) (now stale_before now' stale_before' next : ℕ)
      (s : Jobs × W) (prompt : String)
      → job.next_fire_at ≤ now
      → (claim job.id job.next_fire_at owner now stale_before s.0).0 ≡ true
      → prompt_for cal job now ≡ ok prompt
      → (wake
          (request job prompt)
          ((claim job.id job.next_fire_at owner now stale_before s.0).1, s.1)).0
        ≡ answered delivered
      → compute_next_fire cal job.schedule job.timezone now ≡ ok next
      → fire cal wake owner' job now' stale_before' (fire cal wake owner job now stale_before s)
        ≡ fire cal wake owner job now stale_before s
  fire_once owner owner' job now stale_before now' stale_before' next s prompt due won e sent slot =
      fire-lost owner' job now' stale_before' (fire cal wake owner job now stale_before s) (
        rw (fire-won owner job now stale_before s prompt won e, sent)
          (unfold settle settle_delivered in
            rw (slot, settle_delivered)
              (claim_complete job.id job.next_fire_at now next owner' now' stale_before' _ (
                omega
                  (arith, compute_next_fire_later cal job.schedule job.timezone now next slot)))))

  -- the row of a job whose claim was just won
  won_row :
      (owner : String) (job : CronJob) (now stale_before : ℕ) (rows : Jobs)
      → IsKeyed job_id rows
      → (claim job.id job.next_fire_at owner now stale_before rows).0 ≡ true
      → (j : CronJob) × (get_by job_id job.id
            (claim job.id job.next_fire_at owner now stale_before rows).1
          ≡ some (leased owner now j))
        × (j.id ≡ job.id)
        × (j.enabled ≡ true)
        × (j.next_fire_at ≡ job.next_fire_at)
  won_row owner job now stale_before rows keyed won =
      go (get_by job_id job.id rows) (key-get job_id job.id rows)
        (sym (claim-get job.id job.next_fire_at owner now stale_before rows keyed) ∙ won)
        (get-claim job.id job.next_fire_at owner now stale_before rows job.id)
    where
      after : Option CronJob
      after = get_by job_id job.id (claim job.id job.next_fire_at owner now stale_before rows).1

      go :
          (o : Option CronJob)
          → ((j : CronJob) → o ≡ some j → j.id ≡ job.id)
          → opt_test (can_claim job.next_fire_at stale_before) o ≡ true
          → after
            ≡ Option.map
                (touched
                  (λ j. str_eq j.id job.id && can_claim job.next_fire_at stale_before j)
                  (leased owner now))
                o
          → (j : CronJob) × (after ≡ some (leased owner now j))
            × (j.id ≡ job.id)
            × (j.enabled ≡ true)
            × (j.next_fire_at ≡ job.next_fire_at)
      go none k h e = cc
      go (some j) k h e =
          (j, e ∙ rw ((eq_iff j.id job.id).1 (k j refl), h), k j refl, ground arith, ground arith)

  -- A job whose wake raised, or whose dialog another instance owns, is handed back: if the wake left
  -- the table alone, the claim for its slot is then won by whoever tries, at any time.
  pub fire_handed_back :
      (owner owner' : String) (job : CronJob) (now stale_before now' stale_before' : ℕ)
      (s : Jobs × W) (prompt : String)
      → IsKeyed job_id s.0
      → (claim job.id job.next_fire_at owner now stale_before s.0).0 ≡ true
      → prompt_for cal job now ≡ ok prompt
      → let rows = (claim job.id job.next_fire_at owner now stale_before s.0).1 in
        let woken = wake (request job prompt) (rows, s.1) in
        (woken.0 ≡ answered not_ours) ⊎ (woken.0 ≡ wake_raised)
        → woken.1 ≡ rows
        → (claim job.id job.next_fire_at owner' now' stale_before'
            (fire cal wake owner job now stale_before s).0).0
          ≡ true
  fire_handed_back owner owner' job now stale_before now' stale_before' s prompt keyed won e reply
        same =
      let rows = (claim job.id job.next_fire_at owner now stale_before s.0).1 in
      let (j, row, named, on, slot) = won_row owner job now stale_before s.0 keyed won in
      rw
        (
          fire-won owner job now stale_before s prompt won e,
          same,
          settle-release cal job now rows reply,
        )
        (rw
          (
            claim-get job.id job.next_fire_at owner' now' stale_before' (release_claim job.id rows)
                (release-IsKeyed job.id rows
                  (claim-IsKeyed job.id job.next_fire_at owner now stale_before s.0 keyed)),
            get-release job.id rows,
            row,
          )
          (released_claimable job.id job.next_fire_at stale_before' (leased owner now j) named on
            slot))

  -- A job whose dialog is at its process limit keeps its lease: if the wake left the table alone, a
  -- scheduler that does not yet regard the lease as stale leaves the job alone.
  pub fire_limited_waits :
      (owner owner' : String) (job : CronJob) (now stale_before now' stale_before' : ℕ)
      (s : Jobs × W) (prompt : String)
      → IsKeyed job_id s.0
      → (claim job.id job.next_fire_at owner now stale_before s.0).0 ≡ true
      → prompt_for cal job now ≡ ok prompt
      → let rows = (claim job.id job.next_fire_at owner now stale_before s.0).1 in
        let woken = wake (request job prompt) (rows, s.1) in
        woken.0 ≡ answered limited
        → woken.1 ≡ rows
        → stale_before' ≤ now
        → fire cal wake owner' job now' stale_before' (fire cal wake owner job now stale_before s)
          ≡ fire cal wake owner job now stale_before s
  fire_limited_waits owner owner' job now stale_before now' stale_before' s prompt keyed won e full
        same fresh =
      fire-lost owner' job now' stale_before' (fire cal wake owner job now stale_before s) (
        rw (fire-won owner job now stale_before s prompt won e, full, same) (unfold settle in lost))
    where
      lost :
          (claim job.id job.next_fire_at owner' now' stale_before'
            (claim job.id job.next_fire_at owner now stale_before s.0).1).0
          ≡ false
      lost =
          rw
            (
              claim-get job.id job.next_fire_at owner' now' stale_before'
                  (claim job.id job.next_fire_at owner now stale_before s.0).1
                  (claim-IsKeyed job.id job.next_fire_at owner now stale_before s.0 keyed),
              (won_row owner job now stale_before s.0 keyed won).1,
            )
            (ground arith)

  -- A job whose missed runs cannot be counted ends the tick there, unless it is the first of the
  -- listing: the jobs in front of it have been fired, and it and all jobs behind it have not.
  pub tick_stops_at_bad_schedule :
      (owner : String) (now stale_before : ℕ) (job bad : CronJob) (rest : List CronJob)
      (e : CronError) (s : Jobs × W)
      → has_missed_runs cal bad now ≡ err e
      → fire_all cal wake owner now stale_before true (job ∷ bad ∷ rest) s
        ≡ (let (rows, w) = fire cal wake owner job now stale_before s in (tick_raised e, rows, w))
  unfolding fire_all
  tick_stops_at_bad_schedule owner now stale_before job bad rest e (rows, w) h = rw (h, fire_all)
