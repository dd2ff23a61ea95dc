-- ===== src/Agent/Events.antt =====
-- The events of core/src/octoforge_core/agent/events.py, which a run yields, and those of llm/events.py,
-- which the stream of the language model yields. Delays and attempts of a retry are numbers.
use octo_forge.Base.{ℕ, String, Bool, true, false, Option}
use octo_forge.Domain.{ToolCall, ChatMessage}
use octo_forge.Agent.Router.{Usage}

pub data StreamEvent : Type 0 where
  text_delta : String → StreamEvent
  reasoning_delta : StreamEvent
  tool_call_ready : ToolCall → StreamEvent
  tool_call_started : ℕ → String → String → StreamEvent
  tool_call_broken : ℕ → String → String → String → String → StreamEvent
  stream_finished : ChatMessage → Option Usage → StreamEvent
  retry_scheduled : ℕ → ℕ → String → StreamEvent

pub data LoopEvent : Type 0 where
  iteration_started : ℕ → LoopEvent
  text_streamed : String → LoopEvent
  reasoning_streamed : LoopEvent
  retrying : ℕ → ℕ → String → LoopEvent
  tool_call_requested : ToolCall → LoopEvent
  tool_call_completed : ToolCall → String → LoopEvent
  tool_call_failed : ToolCall → String → LoopEvent
  assistant_message : ChatMessage → Bool → Option Usage → LoopEvent
  finished : ChatMessage → Option Usage → LoopEvent
  cancelled : LoopEvent
  failed : String → LoopEvent

-- the events that end a run
abbrev pub is_terminal : LoopEvent → Bool
is_terminal (finished message usage) = true
is_terminal cancelled = true
is_terminal (failed error) = true
is_terminal _ = false
