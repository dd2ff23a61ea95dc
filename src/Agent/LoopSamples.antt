-- ===== src/Agent/LoopSamples.antt =====
-- The properties of the agent's loop at a run of three iterations.
use octo_forge.Context.Segment.{last_of}
use octo_forge.Agent.Answering.{IsAnswer, run-IsAnswer}
use octo_forge.Base.{refl, ℕ, zero, suc, false, none, some, List, [], ◌∷◌, if◌then◌else◌, String}
use octo_forge.Json.{no_members}
use octo_forge.Domain.{ToolCall, ChatMessage, assistant, own}
use octo_forge.Agent.Events.{text_delta, tool_call_ready, stream_finished}
use octo_forge.Agent.Loop.{
  iterations, iterate, pump_stream, handle_stream_event, event, stopped, Turn, stops, raises, run,
}
use octo_forge.Agent.Transcript.{IsEnded, run-IsEnded}
use octo_forge.Agent.Replies.{Leaves, run-IsTranscript}

abbrev looking : ToolCall
looking = record { id = "c1"; name = "look"; arguments = no_members }

abbrev asking : ToolCall
asking = record { id = "c2"; name = "ask"; arguments = no_members }

abbrev speaking : String → List ToolCall → ChatMessage
speaking content calls = record {
  role = assistant;
  content = content;
  tool_calls = calls;
  tool_call_id = none;
  task_id = none;
  kind = own;
  attachments = [];
  id = none;
  exchange_id = none;
}

-- two overlapping calls, the second of which lands first; then a stop in the middle of an answer
abbrev turns : ℕ → Turn
turns zero = record {
  cancelled_before = false;
  arrivals =
      event (tool_call_ready looking) false []
      ∷ event (tool_call_ready asking) false []
      ∷ event (stream_finished (speaking "" (looking ∷ asking ∷ [])) none) false
          (record { call = asking; content = "no"; error = none } ∷ [])
      ∷ [];
  landed_at_abort = [];
  landed_in_wait = record { call = looking; content = "error: dark"; error = some "dark" } ∷ [];
  broke_in_wait = false;
  cancelled_behind = false;
}
turns (suc n) = record {
  cancelled_before = false;
  arrivals = event (text_delta "It is") false [] ∷ stopped ∷ [];
  landed_at_abort = [];
  landed_in_wait = [];
  broke_in_wait = false;
  cancelled_behind = false;
}

run-IsEnded_example : IsEnded (if (run 3 turns).raised then raises else stops) (run 3 turns).events
run-IsEnded_example = run-IsEnded 3 turns

run-IsTranscript_example :
    Leaves (if (run 3 turns).raised then raises else stops) (run 3 turns).messages
run-IsTranscript_example = run-IsTranscript 3 turns

abbrev answering : ℕ → Turn
answering n = record {
  cancelled_before = false;
  arrivals =
      event (text_delta "Dark") false []
      ∷ event (stream_finished (speaking "Dark" []) none) false []
      ∷ [];
  landed_at_abort = [];
  landed_in_wait = [];
  broke_in_wait = false;
  cancelled_behind = false;
}

run-IsAnswer_example :
    IsAnswer (last_of (run 3 answering).events) (last_of (run 3 answering).messages)
unfolding run iterations iterate pump_stream handle_stream_event
run-IsAnswer_example = run-IsAnswer 3 answering refl
