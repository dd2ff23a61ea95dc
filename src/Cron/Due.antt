-- ===== src/Cron/Due.antt =====
-- What `list_due` of core/src/octoforge_core/cron/store.py hands to a scheduler.
use octo_forge.Base.{
  ℕ, ◌≤◌, String, Bool, true, some, ◌≡◌, ap, ◌∙◌, ◌&&◌, arith, leb, leb→le, length, length-take,
  take-all, length-count, length-select, All-both, select-found, All, All-take, All-weaken,
  select_where, order_by, count_where, get_by, IsKeyed, IsOrdered, order-IsOrdered, take-IsOrdered,
  order-All, select-All, count-select, count-order,
}
use octo_forge.Cron.Api.{CronJob, Jobs, job_id}
use octo_forge.Cron.Store.{list_due, is_due, claim}
use octo_forge.Cron.Lease.{claim-get}

-- A listed job can be claimed: it is there as it was listed, and what makes it due makes it claimable.
claim-listed :
    (now stale_before : ℕ) (owner : String) (rows : Jobs) (j : CronJob)
    → IsKeyed job_id rows
    → is_due now stale_before j ≡ true
    → get_by job_id j.id rows ≡ some j
    → (claim j.id j.next_fire_at owner now stale_before rows).0 ≡ true
claim-listed now stale_before owner rows j h due found =
    rw (claim-get j.id j.next_fire_at owner now stale_before rows h, found) (ground arith)

abbrev Claimable : ℕ → ℕ → String → Jobs → CronJob → Type 0
Claimable now stale_before owner rows j =
    (j.next_fire_at ≤ now) × ((claim j.id j.next_fire_at owner now stale_before rows).0 ≡ true)

-- The list is cut at `limit`, runs by due time, and holds jobs that are due at `now`; on the table
-- that was listed each of them can be claimed, by any owner.
pub list_due_claimable :
    (now stale_before limit : ℕ) (owner : String) (rows : Jobs)
    → IsKeyed job_id rows
    → (length (list_due now stale_before limit rows) ≤ limit)
      × IsOrdered (λ j. j.next_fire_at) (list_due now stale_before limit rows)
      × All
          (λ j.
            (j.next_fire_at ≤ now)
            × ((claim j.id j.next_fire_at owner now stale_before rows).0 ≡ true))
          (list_due now stale_before limit rows)
unfolding list_due
list_due_claimable now stale_before limit owner rows h = (
  length-take limit _,
  take-IsOrdered (λ j. j.next_fire_at) limit _
      (order-IsOrdered (λ j. j.next_fire_at) (select_where (is_due now stale_before) rows)),
  All-take (Claimable now stale_before owner rows) limit _ (
      order-All (Claimable now stale_before owner rows) (λ a b. leb a.next_fire_at b.next_fire_at)
        (select_where (is_due now stale_before) rows)
        (All-weaken
          (λ j e. (leb→le _ _ (ground arith), claim-listed now stale_before owner rows j h e.0 e.1))
          (select_where (is_due now stale_before) rows)
          (All-both _ _ (select_where (is_due now stale_before) rows)
            (select-All (is_due now stale_before) rows)
            (select-found job_id (is_due now stale_before) rows h)))),
)

-- A due job is passed over only if the list is full: with a limit that the due jobs fit, the list
-- has every due job of the table, as often as the table has it.
pub list_due_complete :
    (now stale_before limit : ℕ) (rows : Jobs) (q : CronJob → Bool)
    → count_where (is_due now stale_before) rows ≤ limit
    → count_where q (list_due now stale_before limit rows)
      ≡ count_where (λ j. is_due now stale_before j && q j) rows
unfolding list_due
list_due_complete now stale_before limit rows q fits =
    let due = select_where (is_due now stale_before) rows in
    let sorted = order_by (λ (j : CronJob). j.next_fire_at) due in
    let by_time = λ (a b : CronJob). leb a.next_fire_at b.next_fire_at in
    let long : length sorted ≤ limit = omega (
      arith,
      length-count sorted,
      count-order by_time (λ _. true) due,
      length-count due,
      length-select (is_due now stale_before) rows,
      fits,
    ) in
    ap (count_where q) (take-all limit sorted long)
    ∙ count-order by_time q due
    ∙ count-select (is_due now stale_before) q rows
