-- ===== src/Agent/FanoutSamples.antt =====
-- The properties of the subscribers' queues at concrete ones.
use octo_forge.Base.{ℕ, none, some, [], ◌∷◌, ◌++◌, ◌≡◌, arith}
use octo_forge.Agent.Events.{reasoning_streamed, cancelled}
use octo_forge.Agent.Fanout.{of_loop, ConversationEvent, Waiting, Fanout}
use octo_forge.Agent.Fanout.Offers.{kept}
use octo_forge.Agent.Fanout.Broadcasts.{offers, offers_keep}

abbrev chatter : ℕ → ConversationEvent
chatter seq = record {
  dialog_id = "d";
  seq = seq;
  payload = of_loop reasoning_streamed;
  exchange_id = none;
}

abbrev end : ℕ → ConversationEvent
end seq = record { dialog_id = "d"; seq = seq; payload = of_loop cancelled; exchange_id = none }

abbrev queue : Waiting
queue = some (end 1) ∷ some (chatter 2) ∷ []

offers_keep_example :
    (more : Waiting) × (kept (offers 2 queue (end 3 ∷ chatter 4 ∷ [])) ≡ kept queue ++ more)
offers_keep_example = offers_keep 2 queue (end 3 ∷ chatter 4 ∷ []) (omega arith)

abbrev fanout : Fanout
fanout = record { dialog_id = "d"; seq = 2; dropped_events = 0; subscribers = queue ∷ [] }
