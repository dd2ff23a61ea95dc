-- ===== src/Context/Samples.antt =====
-- The properties of the compaction at a concrete dialog.
use octo_forge.Base.{
  str_length, ℕ, ◌≤◌, String, false, none, some, List, [], ◌∷◌, ◌≡◌, refl, ok, length, arith,
}
use octo_forge.Domain.{Dialog, ChatMessage, system, user, assistant, own}
use octo_forge.Dialogs.Messages.{
  MessageRow, Messages, to_chat_message, tool_calls_from_json, attachments_from_json,
}
use octo_forge.Dialogs.Log.{list_after}
use octo_forge.Context.Store.{
  DialogueSummary, ArchivedMessage, list_for_dialog, replace_for_dialog, max_seq_to, highest,
  list_hot_slice, to_archived, tail_after,
}
use octo_forge.Context.Segment.{interrupted_note, collect, select_compact_segment}
use octo_forge.Context.Cuts.{IsCut, select-IsCut}
use octo_forge.Context.Compactor.{CompactorConfig, Summarizer, Reads, compact, assemble}
use octo_forge.Context.Compaction.{Moved, compact-Moved}
use octo_forge.Context.Assembly.{covered, assemble_no_gap}

abbrev archived : List ArchivedMessage
archived =
    record { seq = 1; role = user; content = "tell me"; created_at = 1 }
    ∷ record { seq = 2; role = assistant; content = "well,"; created_at = 2 }
    ∷ record { seq = 3; role = system; content = interrupted_note; created_at = 3 }
    ∷ record { seq = 4; role = user; content = "go on"; created_at = 4 }
    ∷ []

select-IsCut_example : IsCut archived (select_compact_segment archived 12)
select-IsCut_example = select-IsCut archived 12 (omega arith)

abbrev dialog_of : Dialog
dialog_of = record { id = "d"; user_id = "u"; channel = "c"; created_at = 0; updated_at = 0 }

abbrev said : String → ℕ → MessageRow
said id seq = record {
  id = id;
  dialog_id = "d";
  seq = seq;
  role = "user";
  content = "hi";
  tool_calls = none;
  tool_call_id = none;
  client_message_id = none;
  prompt_tokens = none;
  completion_tokens = none;
  task_id = none;
  exchange_id = none;
  kind = none;
  attachments = none;
  created_at = seq;
}

abbrev log : Messages
log = said "m1" 1 ∷ said "m2" 2 ∷ said "m3" 3 ∷ []

abbrev heard : String → ChatMessage
heard id = record {
  role = user;
  content = "hi";
  tool_calls = [];
  tool_call_id = none;
  task_id = none;
  kind = own;
  attachments = [];
  id = some id;
  exchange_id = none;
}

abbrev config : CompactorConfig
config = record {
  hot_max_chars = 5;
  compact_target_chars = 4;
  model_context_tokens = 0;
  context_buffer_tokens = 0;
}

abbrev summarizer : Summarizer
summarizer previous segment =
    ok (record { topics = "greeting" ∷ []; content = "They greeted."; usage = some (9, 2) })

abbrev written : DialogueSummary
written = record {
  id = "s1";
  dialog_id = "d";
  seq_from = 1;
  seq_to = 2;
  topics = "greeting" ∷ [];
  content = "They greeted.";
  created_at = 7;
}

compact-Moved_example : Moved "d" log [] (written ∷ []) (heard "m1" ∷ heard "m2" ∷ heard "m3" ∷ [])
unfolding compact list_hot_slice list_after max_seq_to to_chat_message tool_calls_from_json
    attachments_from_json tail_after to_archived select_compact_segment collect str_length
    replace_for_dialog list_for_dialog
compact-Moved_example =
    compact-Moved summarizer config false dialog_of "s1" 7 log [] [] (written ∷ [], [])
      (heard "m1" ∷ heard "m2" ∷ heard "m3" ∷ []) (refl, (refl, (refl, tt))) refl refl

abbrev reads : Reads
reads = record {
  summaries = [];
  counted_messages = log;
  counted_summaries = written ∷ [];
  summaries_again = written ∷ [];
  later_messages = log;
}

abbrev hot : List ChatMessage
hot = heard "m3" ∷ []

assemble_no_gap_example :
    (max_seq_to "d" (written ∷ [])
      ≤ highest
          (covered (assemble config dialog_of (heard "m1" ∷ heard "m2" ∷ hot) reads).0.topics))
    × ((assemble config dialog_of (heard "m1" ∷ heard "m2" ∷ hot) reads).0.messages ≡ hot)
    × ((assemble config dialog_of (heard "m1" ∷ heard "m2" ∷ hot) reads).0.snapshot_len
        ≡ length (heard "m1" ∷ heard "m2" ∷ hot))
unfolding list_hot_slice list_after max_seq_to to_chat_message tool_calls_from_json
    attachments_from_json
assemble_no_gap_example =
    assemble_no_gap config dialog_of (heard "m1" ∷ heard "m2" ∷ []) hot reads refl (omega arith)
