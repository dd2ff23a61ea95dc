-- ===== src/Dialogs/Columns.antt =====
-- What is stored in the columns of a message (core/src/octoforge_core/dialogs/store.py) is read back.
use octo_forge.Base.{ℕ, String, Option, some, List, [], ◌∷◌, ok, ◌≡◌, refl}
use octo_forge.Domain.{
  MessageRole, system, user, assistant, tool, role_value, role_of, MessageKind, own, material,
  attachment_value, attachment_of, Attachment, AttachmentKind, image, audio, ToolCall, ChatMessage,
}
use octo_forge.Dialogs.Messages.{
  Spent, call_elements, tool_calls_to_json, tool_calls_from_json, read_calls, attachment_elements,
  attachments_to_json, attachments_from_json, read_attachments, kind_to_column, kind_from_column,
  to_chat_message, new_row,
}

role_of-role_value : (r : MessageRole) → role_of (role_value r) ≡ ok r
role_of-role_value system = refl
role_of-role_value user = refl
role_of-role_value assistant = refl
role_of-role_value tool = refl

read_calls-call_elements : (calls : List ToolCall) → read_calls (call_elements calls) ≡ ok calls
read_calls-call_elements [] = refl
read_calls-call_elements (c ∷ calls) = rw (read_calls-call_elements calls) refl

tool_calls_round_trip :
    (calls : List ToolCall) → tool_calls_from_json (tool_calls_to_json calls) ≡ ok calls
unfolding tool_calls_from_json tool_calls_to_json
tool_calls_round_trip [] = refl
tool_calls_round_trip (c ∷ calls) = read_calls-call_elements (c ∷ calls)

attachment_of-attachment_value : (k : AttachmentKind) → attachment_of (attachment_value k) ≡ ok k
attachment_of-attachment_value image = refl
attachment_of-attachment_value audio = refl

read_attachments-attachment_elements :
    (items : List Attachment) → read_attachments (attachment_elements items) ≡ ok items
read_attachments-attachment_elements [] = refl
read_attachments-attachment_elements (a ∷ items) =
    rw (read_attachments-attachment_elements items) rw (attachment_of-attachment_value a.kind) refl

attachments_round_trip :
    (items : List Attachment) → attachments_from_json (attachments_to_json items) ≡ ok items
unfolding attachments_from_json attachments_to_json
attachments_round_trip [] = refl
attachments_round_trip (a ∷ items) = read_attachments-attachment_elements (a ∷ items)

kind_round_trip : (k : MessageKind) → kind_from_column (kind_to_column k) ≡ ok k
unfolding kind_to_column
kind_round_trip own = refl
kind_round_trip material = refl

-- the message under the id of its row
abbrev pub stored_as : String → ChatMessage → ChatMessage
stored_as row_id m = record {
  role = m.role;
  content = m.content;
  tool_calls = m.tool_calls;
  tool_call_id = m.tool_call_id;
  task_id = m.task_id;
  kind = m.kind;
  attachments = m.attachments;
  id = some row_id;
  exchange_id = m.exchange_id;
}

-- A message that is written to the log is read back as it was, under the id of its row: its role, its
-- kind, and all its tool calls and attachments come back from their columns.
pub message_round_trip :
    (row_id d : String) (seq : ℕ) (message : ChatMessage) (usage : Option Spent)
    (client : Option String) (now : ℕ)
    → to_chat_message (new_row row_id d seq message usage client now)
      ≡ ok (stored_as row_id message)
unfolding to_chat_message new_row
message_round_trip row_id d seq message usage client now =
    rw (role_of-role_value message.role) rw (tool_calls_round_trip message.tool_calls) rw
      (kind_round_trip message.kind) rw (attachments_round_trip message.attachments) refl
