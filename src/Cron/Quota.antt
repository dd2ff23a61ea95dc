-- ===== src/Cron/Quota.antt =====
-- The two guards of `create_job` (core/src/octoforge_core/cron/api.py): the plan's cap on jobs, and
-- the test for a duplicate.
use text.Mathlib.TextPositions.{eq_refl}
use mathlib.Core.Bool.{not, xor}
use octo_forge.Base.{
  ℕ, ◌+◌, ◌≤◌, ◌<◌, String, Bool, true, false, Option, none, some, List, [], ◌∷◌, ◌++◌, ◌≡◌, ◌≢◌,
  refl, ◌∙◌, ◌&&◌, str_eq, Result, ok, err, if◌then◌else◌, arith, length, first_where, select_where,
  count_where, get_by, count-order, count-select, count-append, length-count, ◌⊎◌, Option-cases,
  inl, inr,
}
use octo_forge.Cron.Api.{CronJob, Jobs, job_id}
use octo_forge.Cron.Schedule.{CronError, schedule_error, bad_date, Calendar, compute_next_fire}
use octo_forge.Cron.Store.{create, list_for_user, older}
use octo_forge.Cron.Create.{
  CronJobDraft, CreateReply, invalid, duplicate, created, raised, job_quota_refusal, is_duplicate,
  find_duplicate, new_job, admit, create_job,
}

abbrev pub is_of : String → CronJob → Bool
is_of user_id j = str_eq j.user_id user_id

-- how many jobs a user has
abbrev pub jobs_of : String → Jobs → ℕ
jobs_of user_id = count_where (is_of user_id)

count-list :
    (user_id : String) (q : CronJob → Bool) (rows : Jobs)
    → count_where q (list_for_user user_id rows) ≡ count_where (λ j. is_of user_id j && q j) rows
unfolding list_for_user
count-list user_id q rows =
    count-order older q (select_where (is_of user_id) rows) ∙ count-select (is_of user_id) q rows

length-list :
    (user_id : String) (rows : Jobs) → length (list_for_user user_id rows) ≡ jobs_of user_id rows
length-list user_id rows =
    length-count (list_for_user user_id rows) ∙ count-list user_id (λ _. true) rows ∙ same rows
  where
    same : (rows : Jobs) → count_where (λ j. is_of user_id j && true) rows ≡ jobs_of user_id rows
    same [] = refl
    same (r ∷ rows) = ground (arith, same rows)

count-one :
    (q : CronJob → Bool) (rows : Jobs) (j : CronJob)
    → count_where q (rows ++ j ∷ []) ≡ count_where q rows + (if q j then 1 else 0)
count-one q rows j = omega (arith, count-append q rows (j ∷ []))

quota : (n limit : ℕ) → job_quota_refusal n (some limit) ≡ none → n < limit
unfolding job_quota_refusal
quota n limit e = ground arith

-- A job that was added: the listing held no identical one, and the cap was not reached.
abbrev Added : CronJobDraft → Option ℕ → String → ℕ → ℕ → Jobs → CreateReply × Jobs → Type 0
Added draft max_jobs id next now rows (reply, rows') =
    (reply ≡ created (new_job draft id next now))
    × (rows' ≡ rows ++ new_job draft id next now ∷ [])
    × (find_duplicate (list_for_user draft.user_id rows) draft ≡ none)
    × (job_quota_refusal (length (list_for_user draft.user_id rows)) max_jobs ≡ none)

-- A table that was left alone, by a reply other than `created`.
abbrev Kept : Jobs → CreateReply × Jobs → Type 0
Kept rows (reply, rows') = (rows' ≡ rows) × ((j : CronJob) → reply ≢ created j)

admit_cases :
    (draft : CronJobDraft) (max_jobs : Option ℕ) (id : String) (next now : ℕ) (rows : Jobs)
    → Kept rows (admit draft max_jobs id next now rows)
      ⊎ Added draft max_jobs id next now rows (admit draft max_jobs id next now rows)
unfolding admit create
admit_cases draft max_jobs id next now rows =
    elim (Option-cases (find_duplicate (list_for_user draft.user_id rows) draft)) [
      | inr (j, dup) ↦ inl (rw (admit, dup) (refl, λ k e. cc))
      | inl fresh ↦
          elim (Option-cases
            (job_quota_refusal (length (list_for_user draft.user_id rows)) max_jobs)) [
              | inr (n, full) ↦ inl (rw (admit, fresh, full) (refl, λ k e. cc))
              | inl room ↦ elim (Option-cases (get_by job_id id rows)) [
                | inr (j, taken) ↦ inl (rw (admit, fresh, room, taken) (refl, λ k e. cc))
                | inl free ↦ inr (rw (admit, fresh, room, free) (refl, refl, refl, refl))
              ]
            ]
    ]

create_job_cases :
    (cal : Calendar) (draft : CronJobDraft) (max_jobs : Option ℕ) (id : String) (base now : ℕ)
    (rows : Jobs)
    → Kept rows (create_job cal draft max_jobs id base now rows)
      ⊎ ((next : ℕ) × Added draft max_jobs id next now rows
            (create_job cal draft max_jobs id base now rows))
unfolding create_job
create_job_cases cal draft max_jobs id base now rows =
    go (compute_next_fire cal draft.schedule draft.timezone base)
  where
    go :
        (r : Result CronError ℕ)
        → let done = elim r as (λ _. CreateReply × Jobs) [
          | err e ↦ elim e as (λ _. CreateReply × Jobs) [
            | schedule_error ↦ (invalid, rows)
            | bad_date ↦ (raised, rows)
          ]
          | ok next ↦ admit draft max_jobs id next now rows
        ] in
          Kept rows done ⊎ ((next : ℕ) × Added draft max_jobs id next now rows done)
    go (err schedule_error) = inl (refl, λ k e. cc)
    go (err bad_date) = inl (refl, λ k e. cc)
    go (ok next) = elim (admit_cases draft max_jobs id next now rows) [
      | inl same ↦ inl same
      | inr added ↦ inr (next, added)
    ]

-- With a cap of `limit` jobs, creating a job for a user who has no more than that leaves the user
-- with no more than that, whatever the reply; and it changes no other user's number of jobs.
pub create_job_quota :
    (cal : Calendar) (draft : CronJobDraft) (limit : ℕ) (id : String) (base now : ℕ) (rows : Jobs)
    → jobs_of draft.user_id rows ≤ limit
    → let rows' = (create_job cal draft (some limit) id base now rows).1 in
      (jobs_of draft.user_id rows' ≤ limit)
      × ((other : String)
          → str_eq draft.user_id other ≡ false
          → jobs_of other rows' ≡ jobs_of other rows)
create_job_quota cal draft limit id base now rows h =
    elim (create_job_cases cal draft (some limit) id base now rows) [
      | inl same ↦ rw same.0 (h, λ other ne. refl)
      | inr (next, added) ↦ rw added.1 (
        omega (
          arith,
          count-one (is_of draft.user_id) rows (new_job draft id next now),
          room added.3,
          one (str_eq draft.user_id draft.user_id),
        ),
        λ other ne. count-one (is_of other) rows (new_job draft id next now) ∙ rw ne (omega arith),
      )
    ]
  where
    room :
        job_quota_refusal (length (list_for_user draft.user_id rows)) (some limit) ≡ none
        → jobs_of draft.user_id rows < limit
    room e = rw length-list at (quota _ limit e)

    one : (b : Bool) → (if b then 1 else 0) ≤ 1
    one true = omega arith
    one false = omega arith

first-none :
    (q : CronJob → Bool) (rows : List CronJob) → first_where q rows ≡ none → count_where q rows ≡ 0
first-none q [] e = refl
first-none q (r ∷ rows) e = ground (arith, first-none q rows)

-- the job that a draft makes is a duplicate of that draft, and stands in its user's listing
listed_duplicate :
    (draft : CronJobDraft) (id : String) (next now : ℕ) (rows : Jobs)
    → (k : CronJob) × (find_duplicate
          (list_for_user draft.user_id (rows ++ new_job draft id next now ∷ []))
          draft
        ≡ some k)
unfolding find_duplicate xor
listed_duplicate draft id next now rows =
    elim (Option-cases (first_where (is_duplicate draft) listing)) [
      | inr found ↦ found
      | inl missing ↦ absurd (omega (arith, first-none (is_duplicate draft) listing missing, many))
    ]
  where
    listing : List CronJob
    listing = list_for_user draft.user_id (rows ++ new_job draft id next now ∷ [])

    itself : (b : Bool) → not (xor b b) ≡ true
    itself true = refl
    itself false = refl

    one : 1 ≤ (
        if is_of draft.user_id (new_job draft id next now)
          && is_duplicate draft (new_job draft id next now)
        then 1
        else 0)
    one = simp (eq_refl, itself) (omega arith)

    many : 1 ≤ count_where (is_duplicate draft) listing
    many = omega (
      arith,
      count-list draft.user_id (is_duplicate draft) (rows ++ new_job draft id next now ∷ []),
      count-one (λ j. is_of draft.user_id j && is_duplicate draft j) rows
          (new_job draft id next now),
      one,
    )

-- Creating the same job again right after it was created, with any cap, at any time and for any new
-- id, answers with a duplicate and changes nothing, as long as the schedule still has a next slot.
pub create_job_idempotent :
    (cal : Calendar) (draft : CronJobDraft) (max_jobs cap' : Option ℕ) (id id' : String)
    (base now base' now' next : ℕ) (rows : Jobs) (j : CronJob)
    → (create_job cal draft max_jobs id base now rows).0 ≡ created j
    → compute_next_fire cal draft.schedule draft.timezone base' ≡ ok next
    → let rows' = (create_job cal draft max_jobs id base now rows).1 in
      (k : CronJob) × (create_job cal draft cap' id' base' now' rows' ≡ (duplicate k, rows'))
create_job_idempotent cal draft max_jobs cap' id id' base now base' now' next rows j h e =
    elim (create_job_cases cal draft max_jobs id base now rows) [
      | inl kept ↦ absurd (kept.1 j h)
      | inr (first, added) ↦
          let (k, found) = listed_duplicate draft id first now rows in
          (k, rw (added.1) (unfold create_job admit in rw (create_job, e, admit, found)))
    ]
