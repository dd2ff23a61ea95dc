-- ===== src/Dialogs/LogSamples.antt =====
-- The properties of the message log at concrete tables.
use octo_forge.Dialogs.Registry.{new_dialog}
use octo_forge.Base.{ℕ, zero, suc, String, none, some, [], ◌∷◌, ◌≡◌, refl, ok, err}
use octo_forge.Json.{no_members, member, text}
use octo_forge.Domain.{Dialog, ChatMessage, user, assistant, own, material, image}
use octo_forge.Dialogs.Messages.{MessageRow, Messages, new_row, to_chat_message}
use octo_forge.Dialogs.Log.{Race, append, find_by_client_id, unique_violation}
use octo_forge.Dialogs.Columns.{message_round_trip, stored_as}
use octo_forge.Dialogs.Appending.{alone}
use octo_forge.Dialogs.Races.{append_rejects}

abbrev question : ChatMessage
question = record {
  role = user;
  content = "what is this?";
  tool_calls = [];
  tool_call_id = none;
  task_id = none;
  kind = material;
  attachments = record { kind = image; ref = "f1" } ∷ [];
  id = none;
  exchange_id = some "x";
}

abbrev calling : ChatMessage
calling = record {
  role = assistant;
  content = "";
  tool_calls =
      record { id = "c1"; name = "look"; arguments = member "at" (text "f1") no_members } ∷ [];
  tool_call_id = none;
  task_id = none;
  kind = own;
  attachments = [];
  id = none;
  exchange_id = some "x";
}

abbrev asked : String → String → ℕ → MessageRow
asked id d seq = record {
  id = id;
  dialog_id = d;
  seq = seq;
  role = "user";
  content = "hi";
  tool_calls = none;
  tool_call_id = none;
  client_message_id = some "k1";
  prompt_tokens = none;
  completion_tokens = none;
  task_id = none;
  exchange_id = none;
  kind = none;
  attachments = none;
  created_at = 3;
}

message_round_trip_example :
    to_chat_message (new_row "m9" "d" 4 calling none none 7) ≡ ok (stored_as "m9" calling)
message_round_trip_example = message_round_trip "m9" "d" 4 calling none none 7

abbrev log : Messages
log = asked "m1" "d" 1 ∷ asked "m2" "e" 1 ∷ []

abbrev ids : ℕ → String
ids n = "m9"

abbrev hi : ChatMessage
hi = record {
  role = user;
  content = "hi";
  tool_calls = [];
  tool_call_id = none;
  task_id = none;
  kind = own;
  attachments = [];
  id = some "m1";
  exchange_id = none;
}

-- the second attempt is undisturbed; at the first one another writer's row came between
abbrev race : Race
race = record {
  row_id = ids;
  seen = λ _. log;
  stored = λ k. elim k [ suc zero ↦ log | _ ↦ asked "m3" "d" 2 ∷ log ];
  now = λ _. 7;
}

append_rejects_example :
    append (alone ids log 7) "d" question none (some "k1") ≡ err unique_violation
unfolding find_by_client_id
append_rejects_example = append_rejects (alone ids log 7) "d" question none "k1" (λ _. refl)

abbrev paul : Dialog
paul = new_dialog "d1" "paul" "web" 3
