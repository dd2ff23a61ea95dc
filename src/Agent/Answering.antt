-- ===== src/Agent/Answering.antt =====
-- The answer of a run of core/src/octoforge_core/agent/loop.py.
use mathlib.Core.List.{append_assoc}
use octo_forge.Base.{
  ℕ, zero, suc, ◌+◌, false, Option, none, some, List, [], ◌∷◌, ◌++◌, ◌≡◌, refl, sym, subst, arith,
  Bool-cases, inl, inr,
}
use octo_forge.Domain.{ToolCall, ChatMessage}
use octo_forge.Agent.Router.{Usage}
use octo_forge.Agent.Events.{LoopEvent, iteration_started, finished, cancelled, assistant_message}
use octo_forge.Agent.Loop.{
  Ending, ended, interrupted, timed_out, died, StreamState, new_state, pump_stream, Turn, Outcome,
  goes_on, stops, raises, act_on, finalize, iterate, Run, continued, iterations, run,
}
use octo_forge.Context.Segment.{last_of}

module _ {ℓ} {A : Type ℓ} where
  last_of-append : (xs : List A) (y : A) (ys : List A) → last_of (xs ++ y ∷ ys) ≡ last_of (y ∷ ys)
  last_of-append [] y ys = refl
  last_of-append (x ∷ []) y ys = refl
  last_of-append (x ∷ (z ∷ xs)) y ys = last_of-append (z ∷ xs) y ys

-- What events say of a last message: if they end with an answer, it is the message and open for no call.
abbrev pub IsAnswer : Option LoopEvent → Option ChatMessage → Type 0
IsAnswer (some (finished m usage)) last = (last ≡ some m) × (m.tool_calls ≡ [])
IsAnswer _ last = Unit

-- behind any earlier events and messages
abbrev AnswersBehind : List LoopEvent → List ChatMessage → Type 0
AnswersBehind events messages =
    (xs : List LoopEvent) (ms : List ChatMessage)
    → IsAnswer (last_of (xs ++ events)) (last_of (ms ++ messages))

-- events that end with one that is no answer
no_answer :
    (y : LoopEvent) (ys : List LoopEvent) (messages : List ChatMessage)
    → ((last : Option ChatMessage) → IsAnswer (last_of (y ∷ ys)) last)
    → AnswersBehind (y ∷ ys) messages
no_answer y ys messages h xs ms =
    subst (λ e. IsAnswer e (last_of (ms ++ messages))) (sym (last_of-append xs y ys))
      (h (last_of (ms ++ messages)))

act_on-answers :
    (turn : Turn) (message : ChatMessage) (usage : Option Usage) (s : StreamState)
    (calls : List ToolCall)
    → message.tool_calls ≡ calls
    → (act_on turn message usage s.tracker calls).0 ≡ stops
    → AnswersBehind
        (act_on turn message usage s.tracker calls).2
        (act_on turn message usage s.tracker calls).1
act_on-answers turn message usage s [] e h = λ xs ms.
    subst (λ x. IsAnswer x (last_of (ms ++ message ∷ [])))
      (sym
        (last_of-append xs (assistant_message message false usage) (finished message usage ∷ [])))
      (last_of-append ms message [], e)
act_on-answers turn message usage s (c ∷ calls) e h = absurd (elim (Bool-cases turn.broke_in_wait) [
  | inl left ↦ ground (arith, left, h)
  | inr on ↦ ground (arith, on, h)
])

finalize-answers :
    (turn : Turn) (ending : Ending) (s : StreamState) (message : Option ChatMessage)
    → (finalize turn ending s message).0 ≡ stops
    → AnswersBehind (finalize turn ending s message).2 (finalize turn ending s message).1
finalize-answers turn died s message h = absurd (ground (arith, h))
finalize-answers turn timed_out s message h = no_answer _ [] _ (λ last. tt)
finalize-answers turn interrupted s message h = no_answer _ (cancelled ∷ []) _ (λ last. tt)
finalize-answers turn ended s none h = no_answer _ [] _ (λ last. tt)
finalize-answers turn ended s (some message) h =
    act_on-answers turn message s.usage s message.tool_calls refl h

iterate-answers :
    (turn : Turn) → (iterate turn).0 ≡ stops → AnswersBehind (iterate turn).2 (iterate turn).1
unfolding iterate
iterate-answers turn h = elim (Bool-cases turn.cancelled_before) [
  | inl stop ↦ rw stop (no_answer cancelled [] [] (λ last. tt))
  | inr on ↦
      let pumped = pump_stream turn.arrivals new_state in
      let rest = finalize turn pumped.0 pumped.1 pumped.1.final_message in
      rw on (λ xs ms.
        subst (λ l. IsAnswer (last_of l) (last_of (ms ++ rest.1))) (append_assoc xs pumped.2 rest.2)
          (finalize-answers turn pumped.0 pumped.1 pumped.1.final_message (rw on at h)
            (xs ++ pumped.2) ms))
]

continued-answers :
    (index : ℕ) (r : Outcome × List ChatMessage × List LoopEvent) (rest : Run)
    → (r.0 ≡ stops → AnswersBehind r.2 r.1)
    → (rest.raised ≡ false → AnswersBehind rest.events rest.messages)
    → (continued index r rest).raised ≡ false
    → AnswersBehind (continued index r rest).events (continued index r rest).messages
continued-answers index (goes_on, messages, events) rest h k quiet xs ms =
    subst (λ l. IsAnswer (last_of l) (last_of (ms ++ (messages ++ rest.messages))))
      (append_assoc xs (iteration_started index ∷ events) rest.events)
      (subst
        (λ l.
          IsAnswer (last_of ((xs ++ iteration_started index ∷ events) ++ rest.events)) (last_of l))
        (append_assoc ms messages rest.messages)
        (k quiet (xs ++ iteration_started index ∷ events) (ms ++ messages)))
continued-answers index (stops, messages, events) rest h k quiet xs ms =
    subst (λ l. IsAnswer (last_of l) (last_of (ms ++ messages)))
      (append_assoc xs (iteration_started index ∷ []) events)
      (h refl (xs ++ iteration_started index ∷ []) ms)
continued-answers index (raises, messages, events) rest h k quiet xs ms =
    absurd (ground (arith, quiet))

iterations-answers :
    (turns : ℕ → Turn) (index left : ℕ)
    → (iterations turns index left).raised ≡ false
    → AnswersBehind (iterations turns index left).events (iterations turns index left).messages
unfolding iterations
iterations-answers turns index zero quiet = no_answer _ [] [] (λ last. tt)
iterations-answers turns index (suc left) quiet =
    continued-answers index (iterate (turns index)) (iterations turns (index + 1) left)
      (iterate-answers (turns index)) (iterations-answers turns (index + 1) left) quiet

-- A run that ends with `Finished` has appended the answer as its last message, and the answer leaves no
-- tool call open. The run is assumed not to have been left by an exception.
pub run-IsAnswer :
    (max_iterations : ℕ) (turns : ℕ → Turn)
    → (run max_iterations turns).raised ≡ false
    → IsAnswer
        (last_of (run max_iterations turns).events)
        (last_of (run max_iterations turns).messages)
unfolding run
run-IsAnswer max_iterations turns quiet = iterations-answers turns 0 max_iterations quiet [] []
