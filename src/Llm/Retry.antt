-- ===== src/Llm/Retry.antt =====
-- core/src/octoforge_core/llm/retry.py. A call is its outcome in each attempt, counted from 0; delays
-- are milliseconds. A loop answers what its call answers or raises, beside the delays it slept, in
-- order; it runs on fuel, and `none` says that the fuel was out. `random.uniform(0, ceiling)` is a
-- parameter, by the attempt and the ceiling.
use octo_forge.Base.{
  ℕ, zero, suc, ◌+◌, ◌-◌, ◌*◌, ◌^◌, min, Bool, true, false, not, Option, none, some, List, [], ◌∷◌,
  ◌||◌, ◌==◌, leb, if◌then◌else◌, map, Result, ok, err,
}
use mathlib.Core.Option
use octo_forge.Llm.Errors.{ErrorKind, LlmError, is_transient}

-- RETRY_AFTER_DELAY_CAP_SECONDS, SHORT_RETRY_MAX_RETRIES and SHORT_RETRY_DELAY_SECONDS
abbrev pub retry_after_delay_cap : ℕ
retry_after_delay_cap = 300000

abbrev pub short_retry_max_retries : ℕ
short_retry_max_retries = 1

abbrev pub short_retry_delay : ℕ
short_retry_delay = 500

-- `x or y` on a number that may be None: 0 is false as well
abbrev pub or_else : Option ℕ → ℕ → ℕ
or_else none d = d
or_else (some n) d = if n == 0 then d else n

-- `min(exc.retry_after or delay_seconds, RETRY_AFTER_DELAY_CAP_SECONDS)`
unfoldable pub short_delay : ℕ → ℕ → LlmError → ℕ
short_delay delay attempt e = min (or_else e.retry_after delay) retry_after_delay_cap

pub record RetryConfig : Type 0 where
  pub max_retries : ℕ
  pub base : ℕ
  pub max : ℕ

-- `min(max_seconds, base_seconds * 2 ** (attempt - 1))`
abbrev pub ceiling : RetryConfig → ℕ → ℕ
ceiling config attempt = min config.max (config.base * 2 ^ (attempt - 1))

-- `_delay`
unfoldable pub backoff : (ℕ → ℕ → ℕ) → RetryConfig → ℕ → LlmError → ℕ
backoff uniform config attempt e = elim e.retry_after [
  | some hint ↦ min (hint + uniform attempt (ceiling config attempt)) retry_after_delay_cap
  | none ↦ uniform attempt (ceiling config attempt)
]

abbrev pub is_empty {ℓ} : {A : Type ℓ} → List A → Bool
is_empty [] = true
is_empty (x ∷ xs) = false

abbrev pub Outcome {ℓ} : Type ℓ → Type ℓ
Outcome A = Result LlmError A

-- `not exc.transient or attempt >= max_retries`
abbrev pub gives_up : ℕ → ℕ → LlmError → Bool
gives_up max_retries attempt e = not (is_transient e) || leb max_retries attempt

abbrev pub slept_first {ℓ} :
    {A : Type ℓ} → ℕ → Option (Outcome A × List ℕ) → Option (Outcome A × List ℕ)
slept_first d rest = Option.map (λ r. (r.0, d ∷ r.1)) rest

module _ {ℓ} {A : Type ℓ} (delay : ℕ → LlmError → ℕ) (max_retries : ℕ) (call : ℕ → Outcome A) where
  -- the `while True` of `retry_transient` and of `complete`
  unfoldable pub attempts : ℕ → ℕ → Option (Outcome A × List ℕ)
  attempts zero attempt = none
  attempts (suc fuel) attempt =
      let rest = attempts fuel (attempt + 1) in
      elim (call attempt) [
        | ok a ↦ some (ok a, [])
        | err e ↦
            if gives_up max_retries attempt e
            then some (err e, [])
            else slept_first (delay (attempt + 1) e) rest
      ]

-- with `max_retries + 1` rounds of fuel
unfoldable pub retry_transient {ℓ} :
    {A : Type ℓ} → ℕ → ℕ → (ℕ → Outcome A) → Option (Outcome A × List ℕ)
retry_transient max_retries delay call =
    attempts (short_delay delay) max_retries call (max_retries + 1) 0

unfoldable pub complete {ℓ} :
    {A : Type ℓ} → (ℕ → ℕ → ℕ) → RetryConfig → (ℕ → Outcome A) → Option (Outcome A × List ℕ)
complete uniform config call =
    attempts (backoff uniform config) config.max_retries call (config.max_retries + 1) 0

-- what a stream passes on: an event of the inner stream, or the notice of a retry
pub data StreamEvent {ℓ} (E : Type ℓ) : Type ℓ where
  inner : E → StreamEvent E
  retry_scheduled : ℕ → ℕ → ErrorKind → StreamEvent E

-- A stream is the events it yields, and the failure that ends it, if one does.
abbrev pub Stream {ℓ} : Type ℓ → Type ℓ
Stream E = List E × Option LlmError

abbrev pub noticed {ℓ} :
    {E : Type ℓ}
    → ℕ
    → ℕ
    → ErrorKind
    → Option (Stream (StreamEvent E))
    → Option (Stream (StreamEvent E))
noticed attempt d kind rest = Option.map (λ r. (retry_scheduled attempt d kind ∷ r.0, r.1)) rest

module _ {ℓ} {E : Type ℓ} (delay : ℕ → LlmError → ℕ) (max_retries : ℕ) (call : ℕ → Stream E) where
  -- the `while True` of `stream`: `emitted` says that the inner stream yielded something
  unfoldable pub stream_attempts : ℕ → ℕ → Option (Stream (StreamEvent E))
  stream_attempts zero attempt = none
  stream_attempts (suc fuel) attempt =
      let rest = stream_attempts fuel (attempt + 1) in
      let events = (call attempt).0 in
      let emitted = not (is_empty events) in
      elim (call attempt).1 [
        | none ↦ some (map inner events, none)
        | some e ↦
            if emitted || gives_up max_retries attempt e
            then some (map inner events, some e)
            else noticed (attempt + 1) (delay (attempt + 1) e) e.kind rest
      ]

unfoldable pub stream {ℓ} :
    {E : Type ℓ} → (ℕ → ℕ → ℕ) → RetryConfig → (ℕ → Stream E) → Option (Stream (StreamEvent E))
stream uniform config call =
    stream_attempts (backoff uniform config) config.max_retries call (config.max_retries + 1) 0
