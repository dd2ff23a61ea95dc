-- ===== src/Agent/Fanout/Offers.antt =====
-- What a queue of core/src/octoforge_core/agent/runner.py keeps when an event is offered to it.
use octo_forge.Base.{
  ℕ, ◌+◌, ◌≤◌, ◌<◌, Bool, true, false, not, some, [], ◌∷◌, ◌++◌, leb, if◌then◌else◌, length,
  length-append, any, select_where, select-append, ◌≡◌, refl, sym, ap, ◌∙◌, arith, inl, inr, ◌⊎◌,
  Bool-cases, leb→le,
}
use mathlib.Core.List.{append_assoc, append-nil}
use octo_forge.Agent.Fanout.{
  is_critical, ConversationEvent, Waiting, put_nowait, refill, is_droppable, drop_victim,
  evict_and_put, offer_full, offer,
}

-- what must not be lost: critical events, and the marker that ends the stream
abbrev pub kept : Waiting → Waiting
kept queue = select_where (λ item. not (is_droppable item)) queue

refill-fits :
    (maxsize : ℕ) (queue drained : Waiting)
    → length queue + length drained ≤ maxsize
    → refill maxsize queue drained ≡ queue ++ drained
unfolding refill put_nowait
refill-fits maxsize queue [] h = sym (append-nil queue)
refill-fits maxsize queue (item ∷ drained) h = elim (Bool-cases (leb maxsize (length queue))) [
  | inl full ↦ absurd (omega (arith, leb→le _ _ full, h))
  | inr room ↦ rw room (
      refill-fits maxsize (queue ++ item ∷ []) drained
        (omega (arith, length-append queue (item ∷ []), h))
      ∙ append_assoc queue (item ∷ []) drained)
]

length-drop_victim :
    (queue : Waiting)
    → any is_droppable queue ≡ true
    → length (drop_victim queue) + 1 ≡ length queue
unfolding drop_victim
length-drop_victim [] h = absurd (ground (arith, h))
length-drop_victim (item ∷ queue) h = ground (arith, length-drop_victim queue)

kept-drop_victim : (queue : Waiting) → kept (drop_victim queue) ≡ kept queue
unfolding drop_victim
kept-drop_victim [] = refl
kept-drop_victim (item ∷ queue) = ground (arith, kept-drop_victim queue)

-- How a queue is after an event was offered to it.
pub record IsOffered (maxsize : ℕ) (queue : Waiting) (envelope : ConversationEvent)
    (accepted : Bool) (after : Waiting) : Type 0 where
  pub within : length after ≤ maxsize
  pub keeps :
      kept after ≡ (if accepted then kept queue ++ kept (some envelope ∷ []) else kept queue)
  pub refuses : accepted ≡ false → after ≡ queue
  pub accepts :
      accepted ≡ true
      → (rest : Waiting) × (after ≡ rest ++ some envelope ∷ [])
        × ((rest ≡ queue) ⊎ (rest ≡ drop_victim queue))
  pub lands : is_critical envelope.payload ≡ true → any is_droppable queue ≡ true → accepted ≡ true
  pub has_room : length queue < maxsize → accepted ≡ true

unchanged :
    (maxsize : ℕ) (queue : Waiting) (envelope : ConversationEvent)
    → length queue ≤ maxsize
    → maxsize ≤ length queue
    → (is_critical envelope.payload ≡ true → any is_droppable queue ≡ true → false ≡ true)
    → IsOffered maxsize queue envelope false queue
unchanged maxsize queue envelope h full firm = record {
  within = h;
  keeps = refl;
  refuses = λ e. refl;
  accepts = λ e. absurd (ground (arith, e));
  lands = firm;
  has_room = λ lt. absurd (omega (arith, lt, full));
}

replaced_victim :
    (maxsize : ℕ) (queue : Waiting) (envelope : ConversationEvent)
    → length queue ≤ maxsize
    → any is_droppable queue ≡ true
    → IsOffered maxsize queue envelope true
        (refill maxsize [] (drop_victim queue ++ some envelope ∷ []))
replaced_victim maxsize queue envelope h victim =
    let size : length (drop_victim queue ++ some envelope ∷ []) ≡ length queue =
      length-append (drop_victim queue) (some envelope ∷ []) ∙ length-drop_victim queue victim in
    rw (refill-fits maxsize [] (drop_victim queue ++ some envelope ∷ []) (omega (arith, size, h)))
      (record {
        within = omega (arith, size, h);
        keeps =
            select-append (λ item. not (is_droppable item)) (drop_victim queue) (some envelope ∷ [])
            ∙ ap (λ l. l ++ kept (some envelope ∷ [])) (kept-drop_victim queue);
        refuses = λ e. absurd (ground (arith, e));
        accepts = λ e. (drop_victim queue, refl, inr refl);
        lands = λ a b. refl;
        has_room = λ a. refl;
      })

pub offer-IsOffered :
    (maxsize : ℕ) (queue : Waiting) (envelope : ConversationEvent)
    → length queue ≤ maxsize
    → IsOffered maxsize queue envelope
        (offer maxsize queue envelope).0
        (offer maxsize queue envelope).2
unfolding offer offer_full put_nowait evict_and_put
offer-IsOffered maxsize queue envelope h = elim (Bool-cases (leb maxsize (length queue))) [
  | inr room ↦ rw room (record {
    within = ground (arith, length-append queue (some envelope ∷ []), room, h);
    keeps = select-append (λ item. not (is_droppable item)) queue (some envelope ∷ []);
    refuses = λ e. ground (arith, e);
    accepts = λ e. (queue, refl, inl refl);
    lands = λ a b. refl;
    has_room = λ a. refl;
  })
  | inl full ↦ rw full (elim (Bool-cases (is_critical envelope.payload)) [
    | inr chatter ↦ rw chatter (
        unchanged maxsize queue envelope h (leb→le _ _ full)
          (λ c. absurd (ground (arith, c, chatter))))
    | inl critical ↦ rw critical (elim (Bool-cases (any is_droppable queue)) [
      | inl victim ↦ rw victim (replaced_victim maxsize queue envelope h victim)
      | inr firm ↦ rw firm (
          rw (refill-fits maxsize [] queue (omega (arith, h))) (
            unchanged maxsize queue envelope h (leb→le _ _ full)
              (λ c d. absurd (ground (arith, d, firm)))))
    ])
  ])
]
