-- ===== src/Llm.antt =====
-- The client of the language models (core/src/octoforge_core/llm): the typed failures (`Errors`), the
-- decorator that repeats a failed call (`Retry`), and what it promises of its calls (`Attempts`) and
-- of its streams (`Streams`).
pub mod Errors
pub mod Retry
pub mod Attempts
pub mod Streams
mod Samples
