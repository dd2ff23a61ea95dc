-- ===== src/Cron/Lease.antt =====
-- The claim of a cron job (`claim` of core/src/octoforge_core/cron/store.py): when it is won, and what
-- it does to the rows.
use mathlib.Core.Option
use octo_forge.Base.{
  ℕ, String, Bool, true, false, [], ◌∷◌, ◌≡◌, refl, ◌&&◌, str_eq, if◌then◌else◌, opt_test, arith,
  ltb, get_by, touched, IsKeyed, get-update, count-get, update-IsKeyed,
}
use octo_forge.Cron.Api.{Jobs, job_id}
use octo_forge.Cron.Store.{claim, can_claim, leased}

-- `claim` answers what the row under that id says: it is there, enabled, still at the expected time,
-- and unclaimed or stale.
pub claim-get :
    (id : String) (expected : ℕ) (owner : String) (now stale_before : ℕ) (rows : Jobs)
    → IsKeyed job_id rows
    → (claim id expected owner now stale_before rows).0
      ≡ opt_test (can_claim expected stale_before) (get_by job_id id rows)
unfolding claim
claim-get id expected owner now stale_before rows h =
    rw (count-get job_id id (can_claim expected stale_before) rows h)
      (flag (opt_test (can_claim expected stale_before) (get_by job_id id rows)))
  where
    flag : (b : Bool) → ltb 0 (if b then 1 else 0) ≡ b
    flag true = refl
    flag false = refl

-- A claim that is not won changes nothing.
pub claim-lost :
    (id : String) (expected : ℕ) (owner : String) (now stale_before : ℕ) (rows : Jobs)
    → (claim id expected owner now stale_before rows).0 ≡ false
    → (claim id expected owner now stale_before rows).1 ≡ rows
unfolding claim
claim-lost id expected owner now stale_before [] h = refl
claim-lost id expected owner now stale_before (r ∷ rows) h =
    ground (arith, claim-lost id expected owner now stale_before rows)

-- The row behind any id after a claim.
pub get-claim :
    (id : String) (expected : ℕ) (owner : String) (now stale_before : ℕ) (rows : Jobs) (k : String)
    → get_by job_id k (claim id expected owner now stale_before rows).1
      ≡ Option.map
          (touched (λ j. str_eq j.id id && can_claim expected stale_before j) (leased owner now))
          (get_by job_id k rows)
unfolding claim
get-claim id expected owner now stale_before rows k =
    get-update job_id k _ (leased owner now) rows (λ r. refl)

pub claim-IsKeyed :
    (id : String) (expected : ℕ) (owner : String) (now stale_before : ℕ) (rows : Jobs)
    → IsKeyed job_id rows
    → IsKeyed job_id (claim id expected owner now stale_before rows).1
unfolding claim
claim-IsKeyed id expected owner now stale_before rows =
    update-IsKeyed job_id _ (leased owner now) rows (λ j. refl)
