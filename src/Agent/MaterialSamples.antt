-- ===== src/Agent/MaterialSamples.antt =====
-- The properties of forwarded material at a concrete dialog.
use octo_forge.Base.{
  ◌/◌, arith, ◌+◌, ◌*◌, ◌≤◌, ◌<◌, String, none, some, List, [], ◌∷◌, ◌≡◌, arith, length, str_length,
  All,
}
use octo_forge.Domain.{user, material, ChatMessage}
use octo_forge.Dialogs.Exchanges.{collecting, Exchange}
use octo_forge.Agent.Routing.{IsSafe}
use octo_forge.Agent.Preview.{bounded_preview, bounded_preview-length}
use octo_forge.Agent.Material.{Desk, route_message}
use octo_forge.Agent.Material.Placement.{ids, route_message-IsSafe}

abbrev forward : ChatMessage
forward = record {
  role = user;
  content = "news";
  tool_calls = [];
  tool_call_id = none;
  task_id = none;
  kind = material;
  attachments = [];
  id = none;
  exchange_id = some "c";
}

abbrev collection : Exchange
collection = record {
  id = "c";
  dialog_id = "d";
  status = collecting;
  title = "forwards";
  created_at = 1;
  updated_at = 1;
  pending_question = none;
}

abbrev desk : Desk
desk = record { exchanges = collection ∷ []; narrative = forward ∷ []; messages = [] }

abbrev pieces : List String
pieces = "first one" ∷ "second one" ∷ []

bounded_preview-length_example :
    (str_length (bounded_preview pieces 14) ≤ 14 + 1)
    × (All (λ p. 14 / length pieces < str_length p) pieces
        → str_length (bounded_preview pieces 14) ≡ length pieces * (14 / length pieces) + 1)
bounded_preview-length_example =
    bounded_preview-length "first one" ("second one" ∷ []) 14 (omega arith)

route_message-IsSafe_example :
    IsSafe
      (ids (collection ∷ []))
      (route_message (some "x") 9 30 (forward ∷ []) (collection ∷ []) none)
route_message-IsSafe_example =
    route_message-IsSafe (some "x") 9 30 (forward ∷ []) (collection ∷ []) none

abbrev joined : Desk
joined = record {
  exchanges = record collection { updated_at = 9 } ∷ [];
  narrative = forward ∷ forward ∷ [];
  messages = [];
}
