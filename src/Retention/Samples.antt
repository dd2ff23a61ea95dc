-- ===== src/Retention/Samples.antt =====
-- The properties of the sweep at concrete tables.
use octo_forge.Base.{ℕ, String, none, some, [], ◌∷◌, ◌≡◌, refl, ok, arith}
use octo_forge.Domain.{ChatMessage, user, own}
use octo_forge.Dialogs.Exchanges.{answered, opened}
use octo_forge.Dialogs.Messages.{
  to_chat_message, tool_calls_from_json, tool_calls_to_json, attachments_from_json,
  attachments_to_json, kind_to_column, MessageRow, new_row,
}
use octo_forge.Dialogs.Log.{list_after, list, append}
use octo_forge.Dialogs.Columns.{stored_as}
use octo_forge.Dialogs.Appending.{alone, append_adds}
use octo_forge.Dialogs.Unique.{IsLog}
use octo_forge.Context.Store.{max_seq_to, DialogueSummary, list_hot_slice}
use octo_forge.Retention.Sweep.{RetentionPolicy, Tables, sweep}
use octo_forge.Retention.Kept.{Same, sweep-Same}
use octo_forge.Retention.Seqs.{LogTables, appended, Reached, empty, after, IsAhead, Reached-IsAhead}
use octo_forge.Retention.Visible.{append_visible}

abbrev said : String → ℕ → MessageRow
said id seq = record {
  id = id;
  dialog_id = "d";
  seq = seq;
  role = "user";
  content = "hi";
  tool_calls = none;
  tool_call_id = none;
  client_message_id = none;
  prompt_tokens = none;
  completion_tokens = none;
  task_id = none;
  exchange_id = none;
  kind = none;
  attachments = none;
  created_at = seq;
}

abbrev summary : DialogueSummary
summary = record {
  id = "s1";
  dialog_id = "d";
  seq_from = 1;
  seq_to = 2;
  topics = [];
  content = "They greeted.";
  created_at = 7;
}

abbrev policy : RetentionPolicy
policy = record {
  messages_days = some 1;
  exchanges_days = some 1;
  tasks_days = none;
  usage_days = some 2;
}

abbrev tables : Tables
tables = record {
  messages = said "m1" 1 ∷ said "m2" 2 ∷ said "m3" 3 ∷ [];
  summaries = summary ∷ [];
  exchanges =
      record {
        id = "x1";
        dialog_id = "d";
        status = answered;
        title = "t";
        created_at = 1;
        updated_at = 1;
        pending_question = none;
      }
      ∷ record {
        id = "x2";
        dialog_id = "d";
        status = opened;
        title = "t";
        created_at = 1;
        updated_at = 1;
        pending_question = none;
      }
      ∷ [];
  tasks = [];
  usage = [];
}

sweep-Same_example : Same 200000000000 tables (sweep policy 250000000000 tables).1
sweep-Same_example = sweep-Same policy 250000000000 200000000000 tables (omega arith) (omega arith)

abbrev hello : ChatMessage
hello = record {
  role = user;
  content = "hello";
  tool_calls = [];
  tool_call_id = none;
  task_id = none;
  kind = own;
  attachments = [];
  id = none;
  exchange_id = none;
}

abbrev ids : ℕ → String
ids n = "m1"

abbrev first_row : MessageRow
first_row = new_row "m1" "d" 1 hello none none 5

abbrev begun : LogTables
begun = record { messages = first_row ∷ []; summaries = [] }

begun_appended : append (alone ids [] 5) "d" hello none none ≡ ok ("m1", first_row ∷ [])
unfolding list
begun_appended = (append_adds ids [] 5 "d" hello none none [] refl tt refl).0

begun-Reached : Reached begun
begun-Reached =
    after (record { messages = []; summaries = [] }) begun empty
      (appended (record { messages = []; summaries = [] }) ids 5 "d" hello none none
        ("m1", first_row ∷ []) begun_appended)

Reached-IsAhead_example : IsLog begun.messages × ((d : String) → IsAhead d begun)
Reached-IsAhead_example = Reached-IsAhead begun begun-Reached

abbrev later : ℕ → String
later n = "m2"

second_appended :
    append (alone later (first_row ∷ []) 9) "d" hello none none
    ≡ ok ("m2", first_row ∷ new_row "m2" "d" 2 hello none none 9 ∷ [])
unfolding list to_chat_message new_row tool_calls_from_json tool_calls_to_json attachments_from_json
    attachments_to_json kind_to_column
second_appended =
    (append_adds later (first_row ∷ []) 9 "d" hello none none (stored_as "m1" hello ∷ []) refl tt
      refl).0

append_visible_example :
    list_hot_slice "d" (first_row ∷ new_row "m2" "d" 2 hello none none 9 ∷ []) []
    ≡ ok (stored_as "m1" hello ∷ stored_as "m2" hello ∷ [])
unfolding list_hot_slice list_after list to_chat_message new_row max_seq_to tool_calls_from_json
    tool_calls_to_json attachments_from_json attachments_to_json kind_to_column
append_visible_example =
    append_visible begun later 9 "d" hello none none
      ("m2", first_row ∷ new_row "m2" "d" 2 hello none none 9 ∷ []) (stored_as "m1" hello ∷ [])
      begun-Reached refl second_appended
