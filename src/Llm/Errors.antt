-- ===== src/Llm/Errors.antt =====
-- core/src/octoforge_core/llm/errors.py: the kinds of failure, and how a response's status and the
-- code and message of its body select one. Which marks stand in the text, `any(marker in text ..)`,
-- is the argument: whether a quota mark does, and whether a mark of the context's overflow does.
use octo_forge.Base.{ℕ, Bool, true, false, Option, ◌==◌, ◌||◌, leb, if◌then◌else◌}

pub data ErrorKind : Type 0 where
  rate_limit auth quota context_overflow provider_internal transport client : ErrorKind

-- an LLMError: its kind and its Retry-After, in milliseconds
pub record LlmError : Type 0 where
  pub kind : ErrorKind
  pub retry_after : Option ℕ

-- `kind in TRANSIENT_KINDS`
abbrev pub is_transient_kind : ErrorKind → Bool
is_transient_kind rate_limit = true
is_transient_kind provider_internal = true
is_transient_kind transport = true
is_transient_kind _ = false

abbrev pub is_transient : LlmError → Bool
is_transient e = is_transient_kind e.kind

unfoldable pub error_kind : ℕ → Bool → Bool → ErrorKind
error_kind status quota_mark overflow_mark =
    if quota_mark
    then quota
    else if overflow_mark
    then context_overflow
    else if status == 429
    then rate_limit
    else if status == 401 || status == 403
    then auth
    else if status == 402
    then quota
    else if leb 500 status
    then provider_internal
    else client

unfoldable pub classify_http_error : ℕ → Bool → Bool → Option ℕ → LlmError
classify_http_error status quota_mark overflow_mark retry_after = record {
  kind = error_kind status quota_mark overflow_mark;
  retry_after = retry_after;
}
