-- ===== src/Agent/Fanout/Broadcasts.antt =====
-- What `_broadcast` and `_close_stream` of core/src/octoforge_core/agent/runner.py do to the subscribers.
use octo_forge.Base.{
  ℕ, ◌+◌, ◌≤◌, ◌<◌, String, Bool, true, false, Option, none, some, List, [], ◌∷◌, ◌++◌, leb, ◌==◌,
  if◌then◌else◌, length, drop, any, any-append, opt_test, count_where, ◌≡◌, refl, sym, ap, ◌∙◌,
  arith, inl, inr, ◌⊎◌, Bool-cases, leb→le, All,
}
use mathlib.Core.List.{append_assoc, append-nil}
use octo_forge.Agent.Fanout.{
  ConversationEvent, Waiting, put_nowait, offer, offer_all, RunnerEvent, Fanout, broadcast,
  close_stream,
}
use octo_forge.Agent.Fanout.Offers.{kept, IsOffered, offer-IsOffered}

-- the queue after one event after another was offered to it
abbrev pub offers : ℕ → Waiting → List ConversationEvent → Waiting
offers maxsize queue [] = queue
offers maxsize queue (envelope ∷ events) = offers maxsize (offer maxsize queue envelope).2 events

-- What must not be lost and has been accepted is never dropped for a later event: after any events, the
-- critical events and the end marker of a queue within its size are at the front of those it then has.
pub offers_keep :
    (maxsize : ℕ) (queue : Waiting) (events : List ConversationEvent)
    → length queue ≤ maxsize
    → (more : Waiting) × (kept (offers maxsize queue events) ≡ kept queue ++ more)
offers_keep maxsize queue [] h = ([], sym (append-nil (kept queue)))
offers_keep maxsize queue (envelope ∷ events) h =
    let one = offer-IsOffered maxsize queue envelope h in
    let (more, rest) = offers_keep maxsize (offer maxsize queue envelope).2 events one.within in
    let (first, e) =
      grown (offer maxsize queue envelope).0 (kept (offer maxsize queue envelope).2) one.keeps in
    (first ++ more, rest ∙ ap (λ l. l ++ more) e ∙ append_assoc (kept queue) first more)
  where
    grown :
        (accepted : Bool) (after : Waiting)
        → after ≡ (if accepted then kept queue ++ kept (some envelope ∷ []) else kept queue)
        → (first : Waiting) × (after ≡ kept queue ++ first)
    grown true after e = (kept (some envelope ∷ []), e)
    grown false after e = ([], e ∙ sym (append-nil (kept queue)))

-- the queue has the event with this number
abbrev pub holds : ℕ → Waiting → Bool
holds seq queue = any (λ item. opt_test (λ e. e.seq == seq) item) queue

offer-holds :
    (maxsize : ℕ) (queue : Waiting) (envelope : ConversationEvent)
    → length queue ≤ maxsize
    → holds envelope.seq queue ≡ false
    → holds envelope.seq (offer maxsize queue envelope).2 ≡ (offer maxsize queue envelope).0
offer-holds maxsize queue envelope h new =
    go (offer maxsize queue envelope).0 (offer maxsize queue envelope).2
      (offer-IsOffered maxsize queue envelope h)
  where
    go :
        (accepted : Bool) (after : Waiting)
        → IsOffered maxsize queue envelope accepted after
        → holds envelope.seq after ≡ accepted
    go false after o = ap (holds envelope.seq) (o.refuses refl) ∙ new
    go true after o =
        let (rest, e, from) = o.accepts refl in
        ap (holds envelope.seq) e
        ∙ any-append (λ item. opt_test (λ x. x.seq == envelope.seq) item) rest (some envelope ∷ [])
        ∙ ground arith

offer_all-holds :
    (maxsize : ℕ) (envelope : ConversationEvent) (queues : List Waiting)
    → All (λ q. (length q ≤ maxsize) × (holds envelope.seq q ≡ false)) queues
    → (offer_all maxsize envelope queues).0
      ≡ count_where (holds envelope.seq) (offer_all maxsize envelope queues).2
unfolding offer_all
offer_all-holds maxsize envelope [] h = refl
offer_all-holds maxsize envelope (queue ∷ queues) h = ground (
  arith,
  offer-holds maxsize queue envelope h.0.0 h.0.1,
  offer_all-holds maxsize envelope queues h.1,
)

-- The count that a broadcast answers with, by which a delivery is stamped, is the number of the queues
-- that have the event afterwards, provided that the queues are within their size and none has an event
-- with the next number yet.
pub broadcast_counts :
    (maxsize : ℕ) (r : Fanout) (event : RunnerEvent) (exchange_id : Option String)
    → All (λ q. (length q ≤ maxsize) × (holds (r.seq + 1) q ≡ false)) r.subscribers
    → (broadcast maxsize r event exchange_id).0
      ≡ count_where (holds (r.seq + 1)) (broadcast maxsize r event exchange_id).1.subscribers
unfolding broadcast
broadcast_counts maxsize r event exchange_id h =
    offer_all-holds maxsize
      (record {
        dialog_id = r.dialog_id;
        seq = r.seq + 1;
        payload = event;
        exchange_id = exchange_id;
      })
      r.subscribers h

length-tail : (queue : Waiting) → 0 < length queue → length (drop 1 queue) + 1 ≡ length queue
length-tail [] h = absurd (omega arith)
length-tail (item ∷ queue) h = omega arith

-- Closing a stream ends: in a queue within its size, which is not zero, the end marker comes last, and
-- at most the oldest entry has gone for it, whatever that entry was.
pub close_stream_lands :
    (maxsize : ℕ) (queue : Waiting)
    → 0 < maxsize
    → length queue ≤ maxsize
    → (rest : Waiting) × (close_stream maxsize queue ≡ some (rest ++ none ∷ []))
      × ((rest ≡ queue) ⊎ ((rest ≡ drop 1 queue) × (length queue ≡ maxsize)))
unfolding close_stream put_nowait
close_stream_lands maxsize queue pos h = elim (Bool-cases (leb maxsize (length queue))) [
  | inr room ↦ (queue, ground (arith, room), inl refl)
  | inl full ↦
      let shorter : length (drop 1 queue) + 1 ≡ length queue =
        length-tail queue (omega (arith, pos, leb→le _ _ full)) in
      (
        drop 1 queue,
        ground (arith, full, shorter, h),
        inr (refl, omega (arith, h, leb→le _ _ full)),
      )
]
