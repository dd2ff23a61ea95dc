-- ===== src/Cron/Exclusive.antt =====
-- Histories of statements on the table `cron_jobs` (core/src/octoforge_core/cron/store.py), and how
-- often a job is claimed in them.
use mathlib.Core.Option
use octo_forge.Base.{
  ℕ, ◌+◌, ◌≤◌, String, Bool, true, false, Option, none, some, List, [], ◌∷◌, ◌≡◌, ◌≢◌, refl, sym,
  ◌∙◌, ◌&&◌, str_eq, eq_iff, if◌then◌else◌, is_none, opt_test, arith, not, ◌==◌, Bool-cases,
  Option-cases, inl, inr, delete_where, get-delete, delete-IsKeyed, get-append_ne, append-IsKeyed,
  absent_of_get, key-get, All, update_where, get_by, touched, IsKeyed, get-update, update-IsKeyed,
}
use octo_forge.Tasks.Api.{TaskStatus}
use octo_forge.Cron.Api.{CronJob, Jobs, job_id}
use octo_forge.Cron.Store.{
  claim, can_claim, leased, set_enabled, switched, find_owned_row, release_claim, complete_fire,
  record_fire_result, delete_for_user, with_result, fired, create, unleased,
}
use octo_forge.Cron.Lease.{claim-get, get-claim, claim-IsKeyed}

-- What reaches the table from the other schedulers, the users and the dialog side.
pub data Statement : Type 0 where
  claiming : String → ℕ → String → ℕ → ℕ → Statement
  releasing : String → Statement
  completing : String → ℕ → ℕ → Statement
  switching : String → String → Bool → Option ℕ → Statement
  reporting : String → TaskStatus → Option String → Option ℕ → Statement
  deleting : String → String → Statement
  creating : CronJob → Statement

abbrev or_same : Jobs → Option Jobs → Jobs
or_same rows none = rows
or_same rows (some new) = new

abbrev or_same_pair : Jobs → Option (CronJob × Jobs) → Jobs
or_same_pair rows none = rows
or_same_pair rows (some (j, new)) = new

pub apply : Statement → Jobs → Jobs
apply (claiming id expected owner now stale) rows = (claim id expected owner now stale rows).1
apply (releasing id) rows = release_claim id rows
apply (completing id at next) rows = complete_fire id at next rows
apply (switching user id enabled next) rows =
    or_same_pair rows (set_enabled user id enabled next rows)
apply (reporting id status error retry_at) rows = record_fire_result id status error retry_at rows
apply (deleting user id) rows = or_same rows (delete_for_user user id rows)
apply (creating job) rows = or_same rows (create job rows)

-- Whether the statement is a claim of `id` that is won.
pub wins : String → Statement → Jobs → Bool
wins id (claiming id' expected owner now stale) rows =
    str_eq id' id && (claim id' expected owner now stale rows).0
wins id _ rows = false

-- how many claims of `id` are won along a history
pub wins_in : String → List Statement → Jobs → ℕ
wins_in id [] rows = 0
wins_in id (s ∷ ss) rows = (if wins id s rows then 1 else 0) + wins_in id ss (apply s rows)

-- Statements that leave the lease of `id`, taken at `at`, in force: no claim regards it as stale,
-- nobody releases or completes it, and no new job gets its id.
abbrev pub Leaves : String → ℕ → Statement → Type 0
Leaves id at (claiming _ _ _ _ stale_before) = stale_before ≤ at
Leaves id at (releasing id') = id' ≢ id
Leaves id at (completing id' _ _) = id' ≢ id
Leaves id at (creating job) = job.id ≢ id
Leaves id at _ = Unit

abbrev is_held : ℕ → Option CronJob → Bool
is_held at none = true
is_held at (some j) = not (is_none j.claimed_by) && opt_test (λ t. t == at) j.claimed_at

switched_id : (enabled : Bool) (next : Option ℕ) (j : CronJob) → (switched enabled next j).id ≡ j.id
switched_id enabled none j = refl
switched_id enabled (some at) j = refl

with_result_id :
    (status : TaskStatus) (error : Option String) (retry_at : Option ℕ) (j : CronJob)
    → (with_result status error retry_at j).id ≡ j.id
with_result_id status error none j = refl
with_result_id status error (some at) j = refl

-- the lease of `id` is in force, or the job is gone
record Held (id : String) (at : ℕ) (rows : Jobs) : Type 0 where
  keyed : IsKeyed job_id rows
  held : is_held at (get_by job_id id rows) ≡ true

not_claimable :
    (at expected stale_before : ℕ) (o : Option CronJob)
    → stale_before ≤ at
    → is_held at o ≡ true
    → opt_test (can_claim expected stale_before) o ≡ false
not_claimable at expected stale_before none le h = refl
not_claimable at expected stale_before (some j) le h = ground arith

module _ {id : String} {at : ℕ} {rows : Jobs} (h : Held id at rows) where
  not_won : (s : Statement) → Leaves id at s → wins id s rows ≡ false
  unfolding wins
  not_won (claiming id' expected owner now stale) le = elim (Bool-cases (str_eq id' id)) [
    | inl same ↦
        let e : id' ≡ id = (eq_iff id' id).0 same in
        rw (same, e, claim-get id expected owner now stale rows h.keyed)
          (not_claimable at expected stale _ le h.held)
    | inr other ↦ rw other
  ]
  not_won _ le = refl

  -- a change of the rows that leaves held rows held
  Held-update :
      (p : CronJob → Bool) (f : CronJob → CronJob)
      → ((j : CronJob) → (f j).id ≡ j.id)
      → ((j : CronJob)
          → j.id ≡ id
          → is_held at (some j) ≡ true
          → is_held at (some (touched p f j)) ≡ true)
      → Held id at (update_where p f rows)
  Held-update p f keeps same = record {
    keyed = update-IsKeyed job_id p f rows keeps h.keyed;
    held =
        rw (get-update job_id id p f rows keeps)
          (go (get_by job_id id rows) (key-get job_id id rows) h.held);
  }
    where
      go :
          (o : Option CronJob)
          → ((j : CronJob) → o ≡ some j → j.id ≡ id)
          → is_held at o ≡ true
          → is_held at (Option.map (touched p f) o) ≡ true
      go none k e = refl
      go (some j) k e = same j (k j refl) e

  Held-delete : (row : String) → Held id at (delete_where (λ j. str_eq j.id row) rows)
  Held-delete row = record {
    keyed = delete-IsKeyed job_id (λ j. str_eq j.id row) rows h.keyed;
    held =
        rw (get-delete job_id id (λ j. str_eq j.id row) rows h.keyed)
          (go (opt_test (λ j. str_eq j.id row) (get_by job_id id rows)));
  }
    where
      go : (b : Bool) → is_held at (if b then none else get_by job_id id rows) ≡ true
      go true = refl
      go false = h.held

  Held-create : (job : CronJob) → job.id ≢ id → Held id at (or_same rows (create job rows))
  unfolding create
  Held-create job ne = elim (Option-cases (get_by job_id job.id rows)) [
    | inr (j, taken) ↦ rw (taken) h
    | inl free ↦ rw (free) (record {
      keyed = append-IsKeyed job_id rows job (absent_of_get job_id job.id rows free) h.keyed;
      held = rw (get-append_ne job_id id rows job ne) h.held;
    })
  ]

  apply-Held : (s : Statement) → Leaves id at s → Held id at (apply s rows)
  unfolding apply set_enabled delete_for_user
  apply-Held (claiming id' expected owner now stale) le =
      unfold claim in
      Held-update (λ j. str_eq j.id id' && can_claim expected stale j) (leased owner now)
        (λ j. refl) (λ j e held. ground arith)
  apply-Held (releasing id') ne =
      unfold release_claim in
      Held-update (λ j. str_eq j.id id') unleased (λ j. refl)
        (λ j e held. ground (arith, eq_iff j.id id'))
  apply-Held (completing id' t next) ne =
      unfold complete_fire in
      Held-update (λ j. str_eq j.id id') (fired t next) (λ j. refl)
        (λ j e held. ground (arith, eq_iff j.id id'))
  apply-Held (switching user id' enabled next) _ = go (find_owned_row user id' rows)
    where
      go :
          (o : Option CronJob)
          → Held id at (
              or_same_pair rows (elim o as (λ _. Option (CronJob × Jobs)) [
                | none ↦ none
                | some row ↦ some (
                  switched enabled next row,
                  update_where (λ j. str_eq j.id row.id) (switched enabled next) rows,
                )
              ]))
      go none = h
      go (some row) =
          Held-update (λ j. str_eq j.id row.id) (switched enabled next) (switched_id enabled next)
            (λ j e held. ground arith)
  apply-Held (reporting id' status error retry_at) _ =
      unfold record_fire_result in
      Held-update (λ j. str_eq j.id id') (with_result status error retry_at)
        (λ j. with_result_id status error retry_at j) (λ j e held. ground arith)
  apply-Held (deleting user id') _ = go (find_owned_row user id' rows)
    where
      go :
          (o : Option CronJob)
          → Held id at (
              or_same rows (elim o as (λ _. Option Jobs) [
                | none ↦ none
                | some row ↦ some (delete_where (λ j. str_eq j.id row.id) rows)
              ]))
      go none = h
      go (some row) = Held-delete row.id
  apply-Held (creating job) ne = Held-create job ne

history-loses :
    (id : String) (at : ℕ) (ss : List Statement) {rows : Jobs}
    → Held id at rows
    → All (Leaves id at) ss
    → wins_in id ss rows ≡ 0
unfolding wins_in
history-loses id at [] h leaves = refl
history-loses id at (s ∷ ss) h leaves =
    rw (not_won h s leaves.0)
      (omega (arith, history-loses id at ss (apply-Held h s leaves.0) leaves.1))

claim-Held :
    (id : String) (expected : ℕ) (owner : String) (now stale_before : ℕ) (rows : Jobs)
    → IsKeyed job_id rows
    → (claim id expected owner now stale_before rows).0 ≡ true
    → Held id now (claim id expected owner now stale_before rows).1
claim-Held id expected owner now stale_before rows keyed won = record {
  keyed = claim-IsKeyed id expected owner now stale_before rows keyed;
  held = rw (get-claim id expected owner now stale_before rows id) (
      go (get_by job_id id rows) (key-get job_id id rows)
        (sym (claim-get id expected owner now stale_before rows keyed) ∙ won));
}
  where
    go :
        (o : Option CronJob)
        → ((j : CronJob) → o ≡ some j → j.id ≡ id)
        → opt_test (can_claim expected stale_before) o ≡ true
        → is_held now (
            Option.map
              (touched
                (λ j. str_eq j.id id && can_claim expected stale_before j)
                (leased owner now))
              o)
          ≡ true
    go none k e = refl
    go (some j) k e = rw ((eq_iff j.id id).1 (k j refl), e) (ground arith)

-- Once a scheduler has won the claim of a job at `now`, nobody wins a claim of that job along any
-- history of statements in which no claim takes the lease for stale (`stale_before ≤ now`), the
-- lease is not released or completed, and no job is created under the same id. Pauses, outcome
-- reports, deletions, and everything that concerns other jobs may stand in between.
pub claim_exclusive :
    (id : String) (expected : ℕ) (owner : String) (now stale_before : ℕ) (rows : Jobs)
    → IsKeyed job_id rows
    → (claim id expected owner now stale_before rows).0 ≡ true
    → (history : List Statement) → All (Leaves id now) history
    → wins_in id history (claim id expected owner now stale_before rows).1 ≡ 0
claim_exclusive id expected owner now stale_before rows keyed won history leaves =
    history-loses id now history (claim-Held id expected owner now stale_before rows keyed won)
      leaves
