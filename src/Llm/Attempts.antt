-- ===== src/Llm/Attempts.antt =====
-- When the repeated calls of core/src/octoforge_core/llm/retry.py stop, with what, and how long they
-- sleep; and which failures of llm/errors.py they repeat.
use octo_forge.Base.{
  ℕ, zero, suc, ◌+◌, ◌-◌, ◌*◌, ◌^◌, ◌≤◌, min, Bool, true, false, not, Option, none, some, List, [],
  ◌∷◌, ◌||◌, ◌&&◌, ◌==◌, ◌≡◌, refl, sym, ap, ◌∙◌, leb, if◌then◌else◌, arith, All, length, ok, err,
  Bool-cases, inl, inr,
}
use octo_forge.Llm.Errors.{LlmError, is_transient, classify_http_error, error_kind}
use octo_forge.Llm.Retry.{
  Outcome, RetryConfig, gives_up, slept_first, attempts, retry_transient, complete, short_delay,
  backoff, ceiling, retry_after_delay_cap,
}

-- From one attempt to another one, each attempt before the other failed transiently, and was
-- followed by its delay.
pub data Retries {ℓ} {A : Type ℓ} (delay : ℕ → LlmError → ℕ) (call : ℕ → Outcome A)
    : ℕ → ℕ → List ℕ → Type ℓ where
  here : (n : ℕ) → Retries delay call n n []
  again :
      (attempt n : ℕ) (ds : List ℕ) (e : LlmError)
      → call attempt ≡ err e
      → is_transient e ≡ true
      → Retries delay call (attempt + 1) n ds
      → Retries delay call attempt n (delay (attempt + 1) e ∷ ds)

-- The outcome of attempt `n` is one that the loop stops at.
abbrev pub Stops {ℓ} : {A : Type ℓ} → ℕ → ℕ → Outcome A → Type 0
Stops max_retries n (ok a) = Unit
Stops max_retries n (err e) = gives_up max_retries n e ≡ true

-- What a loop that starts with `attempt` answers: the outcome of some last attempt.
pub record Answers {ℓ} {A : Type ℓ} (delay : ℕ → LlmError → ℕ) (max_retries : ℕ)
    (call : ℕ → Outcome A) (attempt : ℕ) (answer : Option (Outcome A × List ℕ)) : Type ℓ where
  pub last : ℕ
  pub slept : List ℕ
  pub answered : answer ≡ some (call last, slept)
  pub retried : Retries delay call attempt last slept
  pub stops : Stops max_retries last (call last)
  pub bounded : last ≤ max_retries

module _ {ℓ} {A : Type ℓ} (delay : ℕ → LlmError → ℕ) (max_retries : ℕ) (call : ℕ → Outcome A) where
  pub attempts-Answers :
      (fuel attempt : ℕ)
      → fuel + attempt ≡ max_retries + 1
      → attempt ≤ max_retries
      → Answers delay max_retries call attempt (attempts delay max_retries call fuel attempt)
  unfolding attempts
  attempts-Answers zero attempt enough within = ground arith
  attempts-Answers (suc fuel) attempt enough within =
      go (λ more. attempts-Answers fuel (attempt + 1) (omega arith) more) (call attempt) refl
    where
      go :
          (attempt + 1 ≤ max_retries
            → Answers delay max_retries call
                (attempt + 1)
                (attempts delay max_retries call fuel (attempt + 1)))
          → (o : Outcome A) → call attempt ≡ o
          → Answers delay max_retries call attempt (elim o as (λ _. Option (Outcome A × List ℕ)) [
            | ok a ↦ some (ok a, [])
            | err e ↦
                if gives_up max_retries attempt e
                then some (err e, [])
                else slept_first
                    (delay (attempt + 1) e)
                    (attempts delay max_retries call fuel (attempt + 1))
          ])
      go rest (ok a) eq = record {
        last = attempt;
        slept = [];
        answered = rw eq refl;
        retried = here attempt;
        stops = rw eq tt;
        bounded = within;
      }
      go rest (err e) eq = elim (Bool-cases (gives_up max_retries attempt e)) [
        | inl stop ↦ rw stop (record {
          last = attempt;
          slept = [];
          answered = rw eq refl;
          retried = here attempt;
          stops = rw (eq) stop;
          bounded = within;
        })
        | inr on ↦ rw on (
            let r = rest (ground arith) in
            record {
              last = r.last;
              slept = delay (attempt + 1) e ∷ r.slept;
              answered = ap (slept_first (delay (attempt + 1) e)) r.answered;
              retried = again attempt r.last r.slept e eq (ground arith) r.retried;
              stops = r.stops;
              bounded = r.bounded;
            })
      ]

-- `retry_transient` answers the outcome of its last attempt, which is the first one that succeeds,
-- fails for good, or is the attempt numbered `max_retries`; all attempts before it failed
-- transiently, and it slept the delay of each one.
pub retry_transient_exact {ℓ} :
    {A : Type ℓ} (max_retries delay : ℕ) (call : ℕ → Outcome A)
    → Answers (short_delay delay) max_retries call 0 (retry_transient max_retries delay call)
unfolding retry_transient
retry_transient_exact max_retries delay call =
    attempts-Answers (short_delay delay) max_retries call (max_retries + 1) 0 (omega arith)
      (omega arith)

-- `complete` answers the outcome of its last attempt, which is the first one that succeeds, fails for
-- good, or is the attempt numbered `max_retries`; all attempts before it failed transiently, and it
-- slept the backoff of each one.
pub complete_exact {ℓ} :
    {A : Type ℓ} (uniform : ℕ → ℕ → ℕ) (config : RetryConfig) (call : ℕ → Outcome A)
    → Answers (backoff uniform config) config.max_retries call 0 (complete uniform config call)
unfolding complete
complete_exact uniform config call =
    attempts-Answers (backoff uniform config) config.max_retries call (config.max_retries + 1) 0
      (omega arith) (omega arith)

-- between the provider's hint and the cap, or at most the exponential ceiling
abbrev pub IsBackoff : RetryConfig → ℕ → Option ℕ → ℕ → Type 0
IsBackoff config attempt (some hint) d =
    (min hint retry_after_delay_cap ≤ d) × (d ≤ retry_after_delay_cap)
IsBackoff config attempt none d = (d ≤ config.max) × (d ≤ config.base * 2 ^ (attempt - 1))

-- With a Retry-After, a backoff is at least that, or the cap when the provider asks for more, and
-- never more than the cap; without one it is at most the ceiling, which doubles with each attempt up
-- to the configured maximum. The jitter is assumed to be at most its ceiling.
pub backoff_bounds :
    (uniform : ℕ → ℕ → ℕ)
    → ((attempt c : ℕ) → uniform attempt c ≤ c)
    → (config : RetryConfig) (attempt : ℕ) (e : LlmError)
    → IsBackoff config attempt e.retry_after (backoff uniform config attempt e)
unfolding backoff
backoff_bounds uniform draws config attempt e = go e.retry_after
  where
    go :
        (hint : Option ℕ)
        → IsBackoff config attempt hint (elim hint [
          | some hint ↦ min (hint + uniform attempt (ceiling config attempt)) retry_after_delay_cap
          | none ↦ uniform attempt (ceiling config attempt)
        ])
    go (some h) = (omega arith, omega arith)
    go none = (
      omega (arith, draws attempt (ceiling config attempt)),
      omega (arith, draws attempt (ceiling config attempt)),
    )

module _ {ℓ} {A : Type ℓ} (delay : ℕ → LlmError → ℕ) (call : ℕ → Outcome A) (b : ℕ) where
  Retries-slept :
      ((attempt : ℕ) (e : LlmError) → delay attempt e ≤ b)
      → (attempt n : ℕ) (ds : List ℕ) → Retries delay call attempt n ds
      → All (λ d. d ≤ b) ds × (attempt + length ds ≡ n)
  Retries-slept le attempt n ds (here _) = (tt, omega arith)
  Retries-slept le attempt n ds (again _ _ ds' e failed transient r) =
      let rest = Retries-slept le (attempt + 1) n ds' r in
      ((le (attempt + 1) e, rest.0), omega (arith, rest.1))

abbrev slept_of {ℓ} : {A : Type ℓ} → Option (Outcome A × List ℕ) → List ℕ
slept_of none = []
slept_of (some r) = r.1

short_delay-le :
    (delay attempt : ℕ) (e : LlmError) → short_delay delay attempt e ≤ retry_after_delay_cap
unfolding short_delay
short_delay-le delay attempt e = omega arith

-- `retry_transient` sleeps at most `max_retries` times, and never longer than the cap of five minutes,
-- whatever the provider asks for.
pub retry_transient_sleeps {ℓ} :
    {A : Type ℓ} (max_retries delay : ℕ) (call : ℕ → Outcome A) (o : Outcome A) (slept : List ℕ)
    → retry_transient max_retries delay call ≡ some (o, slept)
    → All (λ d. d ≤ 300000) slept × (length slept ≤ max_retries)
retry_transient_sleeps max_retries delay call o slept answered =
    let a = retry_transient_exact max_retries delay call in
    let same : slept ≡ a.slept = ap slept_of (sym answered ∙ a.answered) in
    let r =
      Retries-slept (short_delay delay) call 300000 (short_delay-le delay) 0 a.last a.slept
        a.retried in
    rw same (r.0, omega (arith, r.1, a.bounded))

-- The failure of a response is worth repeating just if no mark of an exhausted quota or of an
-- overflown context stands in its text and its status is 429 or from 500 up: an exhausted quota that
-- comes as a 429 is not repeated.
pub classified_transient :
    (status : ℕ) (quota_mark overflow_mark : Bool) (retry_after : Option ℕ)
    → is_transient (classify_http_error status quota_mark overflow_mark retry_after)
      ≡ (not quota_mark && (not overflow_mark && (status == 429 || leb 500 status)))
unfolding classify_http_error error_kind
classified_transient status true overflow_mark retry_after = refl
classified_transient status false true retry_after = refl
classified_transient status false false retry_after = ground arith
