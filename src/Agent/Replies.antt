-- ===== src/Agent/Replies.antt =====
-- The messages that a run of core/src/octoforge_core/agent/loop.py appends to the history.
use mathlib.Core.List.{append_assoc, append-nil}
use octo_forge.Base.{
  ℕ, zero, suc, ◌+◌, Option, none, some, List, [], ◌∷◌, ◌++◌, ◌≡◌, refl, sym, subst, if◌then◌else◌,
  Bool-cases, inl, inr,
}
use octo_forge.Domain.{tool, ToolCall, ChatMessage}
use octo_forge.Agent.Router.{Usage}
use octo_forge.Agent.Events.{LoopEvent}
use octo_forge.Agent.Loop.{
  Tracker, drained, tool_message, tool_messages, Ending, ended, interrupted, timed_out, died,
  StreamState, new_state, pump_stream, Turn, Outcome, goes_on, stops, raises, act_on, awaited,
  partial_message, finalize, iterate, Run, continued, iterations, run,
}

-- one reply for each call, in their order
pub data Replied : List ToolCall → List ChatMessage → Type 0 where
  no_calls : Replied [] []
  reply :
      (c : ToolCall) (m : ChatMessage) (calls : List ToolCall) (replies : List ChatMessage)
      → m.role ≡ tool
      → m.tool_call_id ≡ some c.id
      → Replied calls replies
      → Replied (c ∷ calls) (m ∷ replies)

-- messages of the model, each with exactly the replies to its calls behind it
pub data IsTranscript : List ChatMessage → Type 0 where
  nothing_said : IsTranscript []
  said :
      (m : ChatMessage) (replies rest : List ChatMessage)
      → Replied m.tool_calls replies
      → IsTranscript rest
      → IsTranscript (m ∷ (replies ++ rest))

tool_messages-Replied :
    (t : Tracker) (calls : List ToolCall) → Replied calls (tool_messages t calls)
unfolding tool_messages
tool_messages-Replied t [] = no_calls
tool_messages-Replied t (c ∷ calls) =
    reply c (tool_message t c) calls (tool_messages t calls) refl refl
      (tool_messages-Replied t calls)

one_said :
    (m : ChatMessage) (replies : List ChatMessage)
    → Replied m.tool_calls replies
    → IsTranscript (m ∷ replies)
one_said m replies h =
    subst (λ l. IsTranscript (m ∷ l)) (append-nil replies) (said m replies [] h nothing_said)

append-IsTranscript :
    (xs ys : List ChatMessage) → IsTranscript xs → IsTranscript ys → IsTranscript (xs ++ ys)
append-IsTranscript xs ys nothing_said k = k
append-IsTranscript xs ys (said m replies rest h more) k =
    subst (λ l. IsTranscript (m ∷ l)) (sym (append_assoc replies rest ys))
      (said m replies (rest ++ ys) h (append-IsTranscript rest ys more k))

-- A transcript, or one with a last message behind it that has no replies yet.
pub data IsCut : List ChatMessage → Type 0 where
  whole : (ms : List ChatMessage) → IsTranscript ms → IsCut ms
  unreplied : (ms : List ChatMessage) (m : ChatMessage) → IsTranscript ms → IsCut (ms ++ m ∷ [])

-- what an iteration or a run leaves in the history, by how it ends
abbrev pub Leaves : Outcome → List ChatMessage → Type 0
Leaves raises ms = IsCut ms
Leaves _ ms = IsTranscript ms

append-IsCut : (xs ys : List ChatMessage) → IsTranscript xs → IsCut ys → IsCut (xs ++ ys)
append-IsCut xs ys h (whole _ k) = whole (xs ++ ys) (append-IsTranscript xs ys h k)
append-IsCut xs ys h (unreplied ms m k) =
    subst IsCut (append_assoc xs ms (m ∷ []))
      (unreplied (xs ++ ms) m (append-IsTranscript xs ms h k))

append-Leaves :
    (o : Outcome) (xs ys : List ChatMessage) → IsTranscript xs → Leaves o ys → Leaves o (xs ++ ys)
append-Leaves goes_on xs ys h k = append-IsTranscript xs ys h k
append-Leaves stops xs ys h k = append-IsTranscript xs ys h k
append-Leaves raises xs ys h k = append-IsCut xs ys h k

act_on-Leaves :
    (turn : Turn) (message : ChatMessage) (usage : Option Usage) (t : Tracker)
    (calls : List ToolCall)
    → message.tool_calls ≡ calls
    → Leaves (act_on turn message usage t calls).0 (act_on turn message usage t calls).1
act_on-Leaves turn message usage t [] e =
    one_said message [] (subst (λ calls. Replied calls []) (sym e) no_calls)
act_on-Leaves turn message usage t (c ∷ calls) e = elim (Bool-cases turn.broke_in_wait) [
  | inl left ↦ rw left (unreplied [] message nothing_said)
  | inr on ↦ rw on (
      one_said message (tool_messages (awaited turn t) (c ∷ calls)) (
        subst (λ l. Replied l (tool_messages (awaited turn t) (c ∷ calls))) (sym e)
          (tool_messages-Replied (awaited turn t) (c ∷ calls))))
]

finalize-Leaves :
    (turn : Turn) (ending : Ending) (s : StreamState) (message : Option ChatMessage)
    → Leaves (finalize turn ending s message).0 (finalize turn ending s message).1
finalize-Leaves turn died s message = whole [] nothing_said
finalize-Leaves turn timed_out s message = nothing_said
finalize-Leaves turn interrupted s message =
    one_said (partial_message s)
      (tool_messages (drained turn.landed_at_abort s.tracker) s.tracker.order)
      (tool_messages-Replied (drained turn.landed_at_abort s.tracker) s.tracker.order)
finalize-Leaves turn ended s none = nothing_said
finalize-Leaves turn ended s (some message) =
    act_on-Leaves turn message s.usage s.tracker message.tool_calls refl

iterate-Leaves : (turn : Turn) → Leaves (iterate turn).0 (iterate turn).1
unfolding iterate
iterate-Leaves turn = elim (Bool-cases turn.cancelled_before) [
  | inl stop ↦ rw stop nothing_said
  | inr on ↦
      let pumped = pump_stream turn.arrivals new_state in
      rw on (finalize-Leaves turn pumped.0 pumped.1 pumped.1.final_message)
]

continued-Leaves :
    (index : ℕ) (r : Outcome × List ChatMessage × List LoopEvent) (rest : Run)
    → Leaves r.0 r.1
    → Leaves (if rest.raised then raises else stops) rest.messages
    → Leaves
        (if (continued index r rest).raised then raises else stops)
        (continued index r rest).messages
continued-Leaves index (goes_on, messages, events) rest h k =
    append-Leaves (if rest.raised then raises else stops) messages rest.messages h k
continued-Leaves index (stops, messages, events) rest h k = h
continued-Leaves index (raises, messages, events) rest h k = h

iterations-Leaves :
    (turns : ℕ → Turn) (index left : ℕ)
    → Leaves
        (if (iterations turns index left).raised then raises else stops)
        (iterations turns index left).messages
unfolding iterations
iterations-Leaves turns index zero = nothing_said
iterations-Leaves turns index (suc left) =
    continued-Leaves index (iterate (turns index)) (iterations turns (index + 1) left)
      (iterate-Leaves (turns index)) (iterations-Leaves turns (index + 1) left)

-- What a run appends to the history is always a transcript that the model can be asked to continue: each
-- message of the model has exactly one reply to each of its tool calls right behind it, in the order of
-- the calls, however the tools overlap, and wherever the user stops the run or the stream times out.
-- Only where an exception leaves the run, as when its task is cancelled while it waits for the tools,
-- a last message may stand behind the transcript whose calls have no replies.
pub run-IsTranscript :
    (max_iterations : ℕ) (turns : ℕ → Turn)
    → Leaves
        (if (run max_iterations turns).raised then raises else stops)
        (run max_iterations turns).messages
unfolding run
run-IsTranscript max_iterations turns = iterations-Leaves turns 0 max_iterations
