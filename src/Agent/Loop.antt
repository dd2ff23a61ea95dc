-- ===== src/Agent/Loop.antt =====
-- `AgentLoop` of core/src/octoforge_core/agent/loop.py and its `_ToolRunTracker`. What happens around a
-- run is a `Turn` for each iteration: what the stream yields and when the user's stop is seen, and which
-- results of tools have landed at each point. Any such turn is allowed. The history is the one that
-- the run appends to.
use octo_forge.Base.{
  ℕ, zero, suc, ◌+◌, String, Bool, true, false, Option, none, some, List, [], ◌∷◌, ◌++◌, str_eq,
  if◌then◌else◌, map, str_append,
}
use octo_forge.Json.{no_members}
use octo_forge.Domain.{assistant, tool, own, ToolCall, ChatMessage}
use octo_forge.Agent.Router.{Usage}
use octo_forge.Agent.Events.{
  StreamEvent, text_delta, reasoning_delta, tool_call_ready, tool_call_started, tool_call_broken,
  stream_finished, retry_scheduled, LoopEvent, iteration_started, text_streamed, reasoning_streamed,
  retrying, tool_call_requested, tool_call_completed, tool_call_failed, assistant_message, finished,
  cancelled, failed,
}

abbrev pub max_iterations_message : String
max_iterations_message = "Agent loop reached the iteration limit"

abbrev pub empty_stream_message : String
empty_stream_message = "LLM stream ended without a final message"

abbrev pub stream_idle_timeout_message : String
stream_idle_timeout_message = "LLM stream idle timeout"

abbrev pub error_output_prefix : String
error_output_prefix = "error: "

abbrev pub cancelled_output : String
cancelled_output = "cancelled"

-- `_ToolRunResult`
pub record ToolRunResult : Type 0 where
  pub call : ToolCall
  pub content : String
  pub error : Option String

-- the tracker of one iteration: the results that were drained, the newest first, and the calls
pub record Tracker : Type 0 where
  pub results : List ToolRunResult
  pub order : List ToolCall
  pub seen : Bool

abbrev pub new_tracker : Tracker
new_tracker = record { results = []; order = []; seen = false }

abbrev pub spawn : ToolCall → Tracker → Tracker
spawn call t = record { results = t.results; order = t.order ++ call ∷ []; seen = true }

-- the result that `mark_broken` puts into the queue
abbrev pub broken_call : String → String → ToolCall
broken_call id name = record { id = id; name = name; arguments = no_members }

abbrev pub broken_result : String → String → String → ToolRunResult
broken_result id name error = record {
  call = broken_call id name;
  content = str_append error_output_prefix error;
  error = some error;
}

-- `drain` of a queue
abbrev pub completion : ToolRunResult → LoopEvent
completion r = elim r.error [
  | some error ↦ tool_call_failed r.call error
  | none ↦ tool_call_completed r.call r.content
]

abbrev pub drained : List ToolRunResult → Tracker → Tracker
drained [] t = t
drained (r ∷ queue) t =
    drained queue (record { results = r ∷ t.results; order = t.order; seen = t.seen })

-- `_result_content`: a missing result means cancellation
abbrev pub content_of : String → List ToolRunResult → String
content_of id [] = cancelled_output
content_of id (r ∷ results) = if str_eq r.call.id id then r.content else content_of id results

abbrev pub tool_message : Tracker → ToolCall → ChatMessage
tool_message t call = record {
  role = tool;
  content = content_of call.id t.results;
  tool_calls = [];
  tool_call_id = some call.id;
  task_id = none;
  kind = own;
  attachments = [];
  id = none;
  exchange_id = none;
}

unfoldable pub tool_messages : Tracker → List ToolCall → List ChatMessage
tool_messages t calls = map (tool_message t) calls

-- What `_next_event` meets: an event, with the cancel flag that is read behind it and the results that
-- have landed; the cancel; the idle timeout; or an exception of the stream. The end of the list is the
-- end of the stream.
pub data Arrival : Type 0 where
  event : StreamEvent → Bool → List ToolRunResult → Arrival
  stopped : Arrival
  idle : Arrival
  broke : Arrival

-- how `_pump_stream` ends
pub data Ending : Type 0 where
  ended interrupted timed_out died : Ending

-- `_AssistantStreamState`, with the tracker
pub record StreamState : Type 0 where
  pub content : String
  pub final_message : Option ChatMessage
  pub usage : Option Usage
  pub tracker : Tracker

abbrev pub new_state : StreamState
new_state = record { content = ""; final_message = none; usage = none; tracker = new_tracker }

-- `_handle_stream_event` and the assignments behind it: the state and the events
unfoldable pub handle_stream_event :
    StreamEvent → List ToolRunResult → StreamState → StreamState × List LoopEvent
handle_stream_event (text_delta text) landed s = (
  record s { content = str_append s.content text; tracker = drained landed s.tracker },
  text_streamed text ∷ map completion landed,
)
handle_stream_event reasoning_delta landed s =
    (record s { tracker = drained landed s.tracker }, reasoning_streamed ∷ map completion landed)
handle_stream_event (tool_call_started index id name) landed s =
    (record s { tracker = drained landed s.tracker }, map completion landed)
handle_stream_event (tool_call_ready call) landed s = (
  record s { tracker = drained landed (spawn call s.tracker) },
  tool_call_requested call ∷ map completion landed,
)
handle_stream_event (tool_call_broken index id name error raw) landed s =
    let queue = landed ++ broken_result id name error ∷ [] in
    (
      record s { tracker = drained queue (spawn (broken_call id name) s.tracker) },
      map completion queue,
    )
handle_stream_event (stream_finished message usage) landed s = (
  record s { final_message = some message; usage = usage; tracker = drained landed s.tracker },
  map completion landed,
)
handle_stream_event (retry_scheduled attempt delay reason) landed s = (
  record s { tracker = drained landed s.tracker },
  retrying attempt delay reason ∷ map completion landed,
)

abbrev pub behind :
    List LoopEvent → Ending × StreamState × List LoopEvent → Ending × StreamState × List LoopEvent
behind events r = (r.0, r.1, events ++ r.2)

-- `_pump_stream`
unfoldable pub pump_stream : List Arrival → StreamState → Ending × StreamState × List LoopEvent
pump_stream [] s = (ended, s, [])
pump_stream (stopped ∷ rest) s = (interrupted, s, [])
pump_stream (idle ∷ rest) s = (timed_out, s, [])
pump_stream (broke ∷ rest) s = (died, s, [])
pump_stream (event e is_cancelled landed ∷ rest) s =
    let handled = handle_stream_event e landed s in
    let more = pump_stream rest handled.0 in
    if is_cancelled then (interrupted, s, []) else behind handled.1 more

-- What happens around one iteration: the cancel flag at its start, the stream, the results that an
-- abort still finds, those that land while the loop waits for the tools, whether an exception leaves the
-- wait (the task of the run is cancelled), and the flag behind the wait.
pub record Turn : Type 0 where
  pub cancelled_before : Bool
  pub arrivals : List Arrival
  pub landed_at_abort : List ToolRunResult
  pub landed_in_wait : List ToolRunResult
  pub broke_in_wait : Bool
  pub cancelled_behind : Bool

-- how an iteration leaves the run
pub data Outcome : Type 0 where
  goes_on stops raises : Outcome

abbrev pub partial_message : StreamState → ChatMessage
partial_message s = record {
  role = assistant;
  content = s.content;
  tool_calls = s.tracker.order;
  tool_call_id = none;
  task_id = none;
  kind = own;
  attachments = [];
  id = none;
  exchange_id = none;
}

-- the calls that are spawned behind a stream without incremental tool-call events, with their events
abbrev pub requested : Bool → List ToolCall → List LoopEvent
requested true calls = []
requested false calls = map tool_call_requested calls

-- `_stream_tool_calls` behind the spawning: the replies, and the events of the wait
abbrev pub awaited : Turn → Tracker → Tracker
awaited turn t =
    let waited = drained turn.landed_in_wait t in
    if turn.cancelled_behind then drained turn.landed_at_abort waited else waited

-- The rest of an iteration with a final message: `Finished`, or the runs of its calls and their replies.
-- The message stands in the history before the wait for the runs begins.
abbrev pub act_on :
    Turn
    → ChatMessage
    → Option Usage
    → Tracker
    → List ToolCall
    → Outcome × List ChatMessage × List LoopEvent
act_on turn message usage t [] =
    (stops, message ∷ [], assistant_message message false usage ∷ finished message usage ∷ [])
act_on turn message usage t (c ∷ calls) =
    let events =
      assistant_message message false usage
      ∷ (requested t.seen (c ∷ calls) ++ map completion turn.landed_in_wait) in
    if turn.broke_in_wait
    then (raises, message ∷ [], events)
    else (goes_on, message ∷ tool_messages (awaited turn t) (c ∷ calls), events)

-- `_finalize_assistant` and what `_run` does behind it: how the iteration ends, the messages that it
-- appends to the history, and its events
abbrev pub finalize :
    Turn → Ending → StreamState → Option ChatMessage → Outcome × List ChatMessage × List LoopEvent
finalize turn died s message = (raises, [], [])
finalize turn timed_out s message = (stops, [], failed stream_idle_timeout_message ∷ [])
finalize turn interrupted s message =
    let t = drained turn.landed_at_abort s.tracker in
    (
      stops,
      partial_message s ∷ tool_messages t s.tracker.order,
      assistant_message (partial_message s) true none ∷ cancelled ∷ [],
    )
finalize turn ended s none = (stops, [], failed empty_stream_message ∷ [])
finalize turn ended s (some message) = act_on turn message s.usage s.tracker message.tool_calls

-- One iteration of `_run` behind its `IterationStarted`.
unfoldable pub iterate : Turn → Outcome × List ChatMessage × List LoopEvent
iterate turn =
    if turn.cancelled_before
    then (stops, [], cancelled ∷ [])
    else (let pumped = pump_stream turn.arrivals new_state in
        let rest = finalize turn pumped.0 pumped.1 pumped.1.final_message in
        (rest.0, rest.1, pumped.2 ++ rest.2))

-- what a run yields and appends, and whether an exception leaves it
pub record Run : Type 0 where
  pub events : List LoopEvent
  pub messages : List ChatMessage
  pub raised : Bool

abbrev pub continued : ℕ → Outcome × List ChatMessage × List LoopEvent → Run → Run
continued index r rest = elim r.0 [
  | goes_on ↦ record {
    events = iteration_started index ∷ (r.2 ++ rest.events);
    messages = r.1 ++ rest.messages;
    raised = rest.raised;
  }
  | stops ↦ record { events = iteration_started index ∷ r.2; messages = r.1; raised = false }
  | raises ↦ record { events = iteration_started index ∷ r.2; messages = r.1; raised = true }
]

-- `for index in range(self._max_iterations)`, with `left` iterations left
unfoldable pub iterations : (ℕ → Turn) → ℕ → ℕ → Run
iterations turns index zero = record {
  events = failed max_iterations_message ∷ [];
  messages = [];
  raised = false;
}
iterations turns index (suc left) =
    continued index (iterate (turns index)) (iterations turns (index + 1) left)

-- `_run`
unfoldable pub run : ℕ → (ℕ → Turn) → Run
run max_iterations turns = iterations turns 0 max_iterations
