-- ===== src/Llm/Samples.antt =====
-- The properties of the repeated calls at concrete failures.
use octo_forge.Base.{ℕ, zero, suc, ◌≤◌, Option, none, some, [], ◌∷◌, ok, err, arith}
use octo_forge.Llm.Errors.{LlmError, rate_limit}
use octo_forge.Llm.Retry.{Outcome, Stream, RetryConfig, backoff, stream}
use octo_forge.Llm.Streams.{Streams, stream_exact}

abbrev throttled : Option ℕ → LlmError
throttled hint = record { kind = rate_limit; retry_after = hint }

-- fails once
abbrev second_time : ℕ → Outcome ℕ
second_time zero = err (throttled (some 400000))
second_time (suc n) = ok 7

abbrev config : RetryConfig
config = record { max_retries = 2; base = 500; max = 8000 }

abbrev widest : ℕ → ℕ → ℕ
widest attempt c = c

widest-le : (attempt c : ℕ) → widest attempt c ≤ c
widest-le attempt c = omega arith

-- breaks before its first event, and then gives two
abbrev second_stream : ℕ → Stream ℕ
second_stream zero = ([], some (throttled none))
second_stream (suc n) = (1 ∷ 2 ∷ [], none)

stream_exact_example :
    Streams (backoff widest config) 2 second_stream 0 (stream widest config second_stream)
stream_exact_example = stream_exact widest config second_stream
