-- ===== src/Llm/Streams.antt =====
-- Which events a repeated stream shows (`stream` of core/src/octoforge_core/llm/retry.py).
use octo_forge.Base.{
  ℕ, zero, suc, ◌+◌, ◌≤◌, true, not, Option, none, some, List, [], ◌∷◌, ◌++◌, ◌||◌, ◌≡◌, refl, ap,
  if◌then◌else◌, arith, map, Bool-cases, inl, inr,
}
use octo_forge.Llm.Errors.{LlmError, is_transient}
use octo_forge.Llm.Retry.{
  Stream, StreamEvent, inner, retry_scheduled, RetryConfig, gives_up, is_empty, noticed,
  stream_attempts, stream, backoff,
}

-- From one attempt to another one, each attempt before the other yielded nothing and failed
-- transiently, and is announced by one notice.
pub data Notices {ℓ} {E : Type ℓ} (delay : ℕ → LlmError → ℕ) (call : ℕ → Stream E)
    : ℕ → ℕ → List (StreamEvent E) → Type ℓ where
  here : (n : ℕ) → Notices delay call n n []
  again :
      (attempt n : ℕ) (ds : List (StreamEvent E)) (e : LlmError)
      → call attempt ≡ ([], some e)
      → is_transient e ≡ true
      → Notices delay call (attempt + 1) n ds
      → Notices delay call attempt n
          (retry_scheduled (attempt + 1) (delay (attempt + 1) e) e.kind ∷ ds)

-- The loop stops at a stream that ends well, that yielded something, or whose failure it does not
-- repeat.
abbrev pub StopsAt {ℓ} : {E : Type ℓ} → ℕ → ℕ → List E → Option LlmError → Type 0
StopsAt max_retries n events none = Unit
StopsAt max_retries n events (some e) = (not (is_empty events) || gives_up max_retries n e) ≡ true

-- The stream that starts with `attempt`: the notices, and then a last attempt, whole.
pub record Streams {ℓ} {E : Type ℓ} (delay : ℕ → LlmError → ℕ) (max_retries : ℕ)
    (call : ℕ → Stream E) (attempt : ℕ) (answer : Option (Stream (StreamEvent E))) : Type ℓ where
  pub last : ℕ
  pub notices : List (StreamEvent E)
  pub answered : answer ≡ some (notices ++ map inner (call last).0, (call last).1)
  pub retried : Notices delay call attempt last notices
  pub stops : StopsAt max_retries last (call last).0 (call last).1
  pub bounded : last ≤ max_retries

empty_events {ℓ} : {E : Type ℓ} (events : List E) → is_empty events ≡ true → events ≡ []
empty_events [] h = refl
empty_events (x ∷ xs) h = ground arith

module _ {ℓ} {E : Type ℓ} (delay : ℕ → LlmError → ℕ) (max_retries : ℕ) (call : ℕ → Stream E) where
  pub stream_attempts-Streams :
      (fuel attempt : ℕ)
      → fuel + attempt ≡ max_retries + 1
      → attempt ≤ max_retries
      → Streams delay max_retries call attempt (stream_attempts delay max_retries call fuel attempt)
  unfolding stream_attempts
  stream_attempts-Streams zero attempt enough within = ground arith
  stream_attempts-Streams (suc fuel) attempt enough within =
      go (λ more. stream_attempts-Streams fuel (attempt + 1) (omega arith) more) (call attempt).0
        (call attempt).1 refl
    where
      go :
          (attempt + 1 ≤ max_retries
            → Streams delay max_retries call
                (attempt + 1)
                (stream_attempts delay max_retries call fuel (attempt + 1)))
          → (events : List E) (o : Option LlmError) → call attempt ≡ (events, o)
          → Streams delay max_retries call attempt
              (elim o as (λ _. Option (Stream (StreamEvent E))) [
                | none ↦ some (map inner events, none)
                | some e ↦
                    if not (is_empty events) || gives_up max_retries attempt e
                    then some (map inner events, some e)
                    else noticed
                        (attempt + 1)
                        (delay (attempt + 1) e)
                        e.kind
                        (stream_attempts delay max_retries call fuel (attempt + 1))
              ])
      go rest events none eq = record {
        last = attempt;
        notices = [];
        answered = rw eq refl;
        retried = here attempt;
        stops = rw eq tt;
        bounded = within;
      }
      go rest events (some e) eq =
          elim (Bool-cases (not (is_empty events) || gives_up max_retries attempt e)) [
            | inl stop ↦ rw stop (record {
              last = attempt;
              notices = [];
              answered = rw eq refl;
              retried = here attempt;
              stops = rw (eq) stop;
              bounded = within;
            })
            | inr on ↦ rw on (
                let r = rest (ground arith) in
                record {
                  last = r.last;
                  notices =
                      retry_scheduled (attempt + 1) (delay (attempt + 1) e) e.kind ∷ r.notices;
                  answered = ap (noticed (attempt + 1) (delay (attempt + 1) e) e.kind) r.answered;
                  retried =
                      again attempt r.last r.notices e
                        (rw (eq, empty_events events (ground arith)) refl) (ground arith) r.retried;
                  stops = r.stops;
                  bounded = r.bounded;
                })
          ]

-- A repeated stream yields one notice for each attempt that failed transiently before its first
-- event, and then all the events of one attempt, and ends as that attempt ends: no event of another
-- attempt comes before them. That attempt ended well, or had yielded something, or failed for good, or
-- is the one numbered `max_retries`.
pub stream_exact {ℓ} :
    {E : Type ℓ} (uniform : ℕ → ℕ → ℕ) (config : RetryConfig) (call : ℕ → Stream E)
    → Streams (backoff uniform config) config.max_retries call 0 (stream uniform config call)
unfolding stream
stream_exact uniform config call =
    stream_attempts-Streams (backoff uniform config) config.max_retries call
      (config.max_retries + 1) 0 (omega arith) (omega arith)
