-- ===== src/Agent/Transcript.antt =====
-- What a run of core/src/octoforge_core/agent/loop.py yields and leaves in the history.
use octo_forge.Base.{
  ℕ, zero, suc, ◌+◌, String, Bool, true, false, Option, none, some, List, [], ◌∷◌, ◌++◌, map,
  if◌then◌else◌, opt_test, count_where, count-append, ◌≡◌, refl, arith, Bool-cases, inl, inr,
}
use octo_forge.Domain.{ToolCall, ChatMessage}
use octo_forge.Agent.Events.{
  StreamEvent, text_delta, reasoning_delta, tool_call_ready, tool_call_started, tool_call_broken,
  stream_finished, retry_scheduled, LoopEvent, iteration_started, is_terminal,
}
use octo_forge.Agent.Loop.{
  ToolRunResult, broken_result, completion, Arrival, event, stopped, idle, broke, Ending, ended,
  interrupted, timed_out, died, StreamState, new_state, handle_stream_event, pump_stream, Turn,
  Outcome, goes_on, stops, raises, requested, act_on, finalize, iterate, Run, continued, iterations,
  run,
}
use octo_forge.Context.Segment.{last_of}

-- the terminal events among some events
abbrev pub ends : List LoopEvent → ℕ
ends = count_where is_terminal

one_ends : (r : ToolRunResult) → is_terminal (completion r) ≡ false
one_ends r = go r.error
  where
    go :
        (error : Option String)
        → is_terminal (elim error [
          | some e ↦ LoopEvent.tool_call_failed r.call e
          | none ↦ LoopEvent.tool_call_completed r.call r.content
        ])
          ≡ false
    go none = refl
    go (some e) = refl

ends-completion : (queue : List ToolRunResult) → ends (map completion queue) ≡ 0
ends-completion [] = refl
ends-completion (r ∷ queue) = rw (one_ends r) (omega (arith, ends-completion queue))

ends-handle_stream_event :
    (e : StreamEvent) (landed : List ToolRunResult) (s : StreamState)
    → ends (handle_stream_event e landed s).1 ≡ 0
unfolding handle_stream_event
ends-handle_stream_event (text_delta text) landed s = omega (arith, ends-completion landed)
ends-handle_stream_event reasoning_delta landed s = omega (arith, ends-completion landed)
ends-handle_stream_event (tool_call_ready call) landed s = omega (arith, ends-completion landed)
ends-handle_stream_event (tool_call_started index id name) landed s = ends-completion landed
ends-handle_stream_event (tool_call_broken index id name error raw) landed s =
    ends-completion (landed ++ broken_result id name error ∷ [])
ends-handle_stream_event (stream_finished message usage) landed s = ends-completion landed
ends-handle_stream_event (retry_scheduled attempt delay reason) landed s =
    omega (arith, ends-completion landed)

ends-pump_stream : (arrivals : List Arrival) (s : StreamState) → ends (pump_stream arrivals s).2 ≡ 0
unfolding pump_stream
ends-pump_stream [] s = refl
ends-pump_stream (stopped ∷ rest) s = refl
ends-pump_stream (idle ∷ rest) s = refl
ends-pump_stream (broke ∷ rest) s = refl
ends-pump_stream (event e true landed ∷ rest) s = refl
ends-pump_stream (event e false landed ∷ rest) s = omega (
  arith,
  count-append is_terminal (handle_stream_event e landed s).1
      (pump_stream rest (handle_stream_event e landed s).0).2,
  ends-handle_stream_event e landed s,
  ends-pump_stream rest (handle_stream_event e landed s).0,
)

ends-requested : (seen : Bool) (calls : List ToolCall) → ends (requested seen calls) ≡ 0
ends-requested true calls = refl
ends-requested false [] = refl
ends-requested false (c ∷ calls) = omega (arith, ends-requested false calls)

-- one terminal event, the last one, just if the iteration stops the run
abbrev pub IsEnded : Outcome → List LoopEvent → Type 0
IsEnded stops events = (ends events ≡ 1) × (opt_test is_terminal (last_of events) ≡ true)
IsEnded _ events = ends events ≡ 0

last_of-cons :
    (x : LoopEvent) (zs : List LoopEvent)
    → opt_test is_terminal (last_of zs) ≡ true
    → opt_test is_terminal (last_of (x ∷ zs)) ≡ true
last_of-cons x [] h = absurd (ground (arith, h))
last_of-cons x (z ∷ zs) h = h

last_of-append :
    (xs ys : List LoopEvent)
    → opt_test is_terminal (last_of ys) ≡ true
    → opt_test is_terminal (last_of (xs ++ ys)) ≡ true
last_of-append [] ys h = h
last_of-append (x ∷ xs) ys h = last_of-cons x (xs ++ ys) (last_of-append xs ys h)

append-IsEnded :
    (o : Outcome) (xs ys : List LoopEvent) → ends xs ≡ 0 → IsEnded o ys → IsEnded o (xs ++ ys)
append-IsEnded stops xs ys none_ h =
    (omega (arith, count-append is_terminal xs ys, none_, h.0), last_of-append xs ys h.1)
append-IsEnded goes_on xs ys none_ h = omega (arith, count-append is_terminal xs ys, none_, h)
append-IsEnded raises xs ys none_ h = omega (arith, count-append is_terminal xs ys, none_, h)

finalize-IsEnded :
    (turn : Turn) (ending : Ending) (s : StreamState) (message : Option ChatMessage)
    → IsEnded (finalize turn ending s message).0 (finalize turn ending s message).2
finalize-IsEnded turn died s message = refl
finalize-IsEnded turn timed_out s message = (refl, refl)
finalize-IsEnded turn interrupted s message = (refl, refl)
finalize-IsEnded turn ended s none = (refl, refl)
finalize-IsEnded turn ended s (some message) = go message.tool_calls
  where
    go :
        (calls : List ToolCall)
        → IsEnded
            (act_on turn message s.usage s.tracker calls).0
            (act_on turn message s.usage s.tracker calls).2
    go [] = (refl, refl)
    go (c ∷ calls) =
        let none_ : ends
              (requested s.tracker.seen (c ∷ calls) ++ map completion turn.landed_in_wait)
            ≡ 0 =
          omega (
            arith,
            count-append is_terminal (requested s.tracker.seen (c ∷ calls))
                (map completion turn.landed_in_wait),
            ends-requested s.tracker.seen (c ∷ calls),
            ends-completion turn.landed_in_wait,
          ) in
        elim (Bool-cases turn.broke_in_wait) [
          | inl left ↦ rw left (omega (arith, none_))
          | inr on ↦ rw on (omega (arith, none_))
        ]

iterate-IsEnded : (turn : Turn) → IsEnded (iterate turn).0 (iterate turn).2
unfolding iterate
iterate-IsEnded turn = elim (Bool-cases turn.cancelled_before) [
  | inl stop ↦ rw stop (refl, refl)
  | inr on ↦
      let pumped = pump_stream turn.arrivals new_state in
      let rest = finalize turn pumped.0 pumped.1 pumped.1.final_message in
      rw on (
        append-IsEnded rest.0 pumped.2 rest.2 (ends-pump_stream turn.arrivals new_state)
          (finalize-IsEnded turn pumped.0 pumped.1 pumped.1.final_message))
]

continued-IsEnded :
    (index : ℕ) (r : Outcome × List ChatMessage × List LoopEvent) (rest : Run)
    → IsEnded r.0 r.2
    → IsEnded (if rest.raised then raises else stops) rest.events
    → IsEnded
        (if (continued index r rest).raised then raises else stops)
        (continued index r rest).events
continued-IsEnded index (goes_on, messages, events) rest h k =
    append-IsEnded (if rest.raised then raises else stops) (iteration_started index ∷ events)
      rest.events (omega (arith, h)) k
continued-IsEnded index (stops, messages, events) rest h k =
    append-IsEnded stops (iteration_started index ∷ []) events refl h
continued-IsEnded index (raises, messages, events) rest h k =
    append-IsEnded raises (iteration_started index ∷ []) events refl h

iterations-IsEnded :
    (turns : ℕ → Turn) (index left : ℕ)
    → IsEnded
        (if (iterations turns index left).raised then raises else stops)
        (iterations turns index left).events
unfolding iterations
iterations-IsEnded turns index zero = (refl, refl)
iterations-IsEnded turns index (suc left) =
    continued-IsEnded index (iterate (turns index)) (iterations turns (index + 1) left)
      (iterate-IsEnded (turns index)) (iterations-IsEnded turns (index + 1) left)

-- Whatever the model, the tools and the user do, a run yields exactly one terminal event, `Finished`,
-- `Cancelled` or `Failed`, and yields it last; only a run that an exception leaves, from the stream or
-- from the wait for the tools, yields none.
pub run-IsEnded :
    (max_iterations : ℕ) (turns : ℕ → Turn)
    → IsEnded
        (if (run max_iterations turns).raised then raises else stops)
        (run max_iterations turns).events
unfolding run
run-IsEnded max_iterations turns = iterations-IsEnded turns 0 max_iterations
