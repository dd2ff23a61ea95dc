-- ===== src/Agent/Fanout.antt =====
-- How `ConversationRunner` of core/src/octoforge_core/agent/runner.py hands its events to the queues of
-- its subscribers: `_broadcast`, `_evict_and_put` and
-- `_close_stream`. A queue is the list of what waits in it, oldest
-- first, and `none` is the marker that ends a stream.
use octo_forge.Base.{
  ℕ, zero, suc, ◌+◌, String, Bool, true, false, not, Option, none, some, List, [], ◌∷◌, ◌++◌, ◌&&◌,
  leb, if◌then◌else◌, length, drop, any, opt_test,
}
use octo_forge.Agent.Events.{LoopEvent, finished, cancelled, failed}
pub mod Offers
pub mod Broadcasts

-- the events of agent/events.py: those of a loop, and the markers of the actor
pub data RunnerEvent : Type 0 where
  of_loop : LoopEvent → RunnerEvent
  process_started : String → String → Option String → RunnerEvent
  process_completed : String → String → String → RunnerEvent

-- `isinstance(event, _CRITICAL_EVENTS)`
unfoldable pub is_critical : RunnerEvent → Bool
is_critical (process_started id title source) = true
is_critical (process_completed id title status) = true
is_critical (of_loop (finished message usage)) = true
is_critical (of_loop (failed error)) = true
is_critical (of_loop cancelled) = true
is_critical (of_loop _) = false

pub record ConversationEvent : Type 0 where
  pub dialog_id : String
  pub seq : ℕ
  pub payload : RunnerEvent
  pub exchange_id : Option String

abbrev pub Waiting : Type 0
Waiting = List (Option ConversationEvent)

-- `queue.put_nowait(item)`, if it does not raise QueueFull
unfoldable pub put_nowait : ℕ → Waiting → Option ConversationEvent → Option Waiting
put_nowait maxsize queue item =
    if leb maxsize (length queue) then none else some (queue ++ item ∷ [])

-- `put_nowait` under `suppress(asyncio.QueueFull)`
abbrev pub put_or_keep : Option Waiting → Waiting → Waiting
put_or_keep none queue = queue
put_or_keep (some more) queue = more

-- the last loop of `_evict_and_put`
unfoldable pub refill : ℕ → Waiting → Waiting → Waiting
unfolding put_nowait
refill maxsize queue [] = queue
refill maxsize queue (item ∷ drained) =
    refill maxsize (put_or_keep (put_nowait maxsize queue item) queue) drained

-- an entry that may be the victim
unfoldable pub is_droppable : Option ConversationEvent → Bool
unfolding is_critical
is_droppable item = opt_test (λ e. not (is_critical e.payload)) item

-- `del drained[victim]`, the victim being the first entry that is droppable
unfoldable pub drop_victim : Waiting → Waiting
unfolding is_droppable
drop_victim [] = []
drop_victim (item ∷ drained) = if is_droppable item then drained else item ∷ drop_victim drained

-- `_evict_and_put`
unfoldable pub evict_and_put : ℕ → Waiting → ConversationEvent → Bool × Waiting
unfolding refill drop_victim is_droppable
evict_and_put maxsize queue envelope =
    if any is_droppable queue
    then (true, refill maxsize [] (drop_victim queue ++ some envelope ∷ []))
    else (false, refill maxsize [] queue)

abbrev pub evicted : Bool × Waiting → Bool × Bool × Waiting
evicted (accepted, rest) = (accepted, true, rest)

-- what `_broadcast` does to one queue: whether it accepted, whether something was dropped, and the
-- queue afterwards
unfoldable pub offer_full : ℕ → Waiting → ConversationEvent → Option Waiting → Bool × Bool × Waiting
unfolding evict_and_put is_critical
offer_full maxsize queue envelope (some more) = (true, false, more)
offer_full maxsize queue envelope none =
    if is_critical envelope.payload
    then evicted (evict_and_put maxsize queue envelope)
    else (false, true, queue)

unfoldable pub offer : ℕ → Waiting → ConversationEvent → Bool × Bool × Waiting
unfolding offer_full put_nowait
offer maxsize queue envelope =
    offer_full maxsize queue envelope (put_nowait maxsize queue (some envelope))

-- the fields of the runner that `_broadcast` uses
pub record Fanout : Type 0 where
  pub dialog_id : String
  pub seq : ℕ
  pub dropped_events : ℕ
  pub subscribers : List Waiting

abbrev pub as_count : Bool → ℕ
as_count true = 1
as_count false = 0

-- the loop of `_broadcast`: how many queues accepted, how many events were dropped, and the queues
unfoldable pub offer_all : ℕ → ConversationEvent → List Waiting → ℕ × ℕ × List Waiting
unfolding offer
offer_all maxsize envelope [] = (0, 0, [])
offer_all maxsize envelope (queue ∷ queues) =
    let (accepted, dropped, rest) = offer maxsize queue envelope in
    let (accepted_by, dropped_by, rests) = offer_all maxsize envelope queues in
    (as_count accepted + accepted_by, as_count dropped + dropped_by, rest ∷ rests)

-- `_broadcast`
unfoldable pub broadcast : ℕ → Fanout → RunnerEvent → Option String → ℕ × Fanout
unfolding offer_all
broadcast maxsize r event exchange_id =
    let envelope : ConversationEvent = record {
      dialog_id = r.dialog_id;
      seq = r.seq + 1;
      payload = event;
      exchange_id = exchange_id;
    } in
    let (accepted, dropped, queues) = offer_all maxsize envelope r.subscribers in
    (
      accepted,
      record r {
        seq = r.seq + 1;
        dropped_events = r.dropped_events + dropped;
        subscribers = queues;
      },
    )

-- the loop of `_close_stream`, in at most as many rounds as it is given: `none` if they are not enough
unfoldable pub close_rounds : ℕ → ℕ → Waiting → Option Waiting
unfolding put_nowait
close_rounds zero maxsize queue = none
close_rounds (suc rounds) maxsize queue = elim (put_nowait maxsize queue none) [
  | some closed ↦ some closed
  | none ↦ close_rounds rounds maxsize (drop 1 queue)
]

-- `_close_stream`: a second round finds room, unless there is none at all
unfoldable pub close_stream : ℕ → Waiting → Option Waiting
unfolding close_rounds
close_stream maxsize queue = close_rounds 2 maxsize queue
