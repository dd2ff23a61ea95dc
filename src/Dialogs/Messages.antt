-- ===== src/Dialogs/Messages.antt =====
-- `SqlAlchemyMessageRepository` of core/src/octoforge_core/dialogs/store.py, over the table `messages`.
-- Ids of new rows and the clock's answer are arguments. A column of JSON is the value stored in it.
use octo_forge.Base.{
  ℕ, max, String, Option, none, some, List, [], ◌∷◌, str_eq, if◌then◌else◌, Result, ok, err, ◌>>=◌,
}
use mathlib.Core.Option
use octo_forge.Json.{
  Value, text, array, object, Elements, element, no_elements, Members, member, no_members,
  get_field,
}
use octo_forge.Domain.{
  ReadError, unreadable, role_value, role_of, MessageKind, own, material, kind_of, attachment_value,
  attachment_of, Attachment, ToolCall, ChatMessage,
}

pub record MessageRow : Type 0 where
  pub id : String
  pub dialog_id : String
  pub seq : ℕ
  pub role : String
  pub content : String
  pub tool_calls : Option Value
  pub tool_call_id : Option String
  pub client_message_id : Option String
  pub prompt_tokens : Option ℕ
  pub completion_tokens : Option ℕ
  pub task_id : Option String
  pub exchange_id : Option String
  pub kind : Option String
  pub attachments : Option Value
  pub created_at : ℕ

abbrev pub Messages : Type 0
Messages = List MessageRow

abbrev pub message_id : MessageRow → String
message_id r = r.id

-- what is stored of an answer's token accounting
pub record Spent : Type 0 where
  pub prompt_tokens : ℕ
  pub completion_tokens : ℕ

-- `[{"id": .., "name": .., "arguments": ..} for call in tool_calls]`
abbrev pub call_elements : List ToolCall → Elements
call_elements [] = no_elements
call_elements (c ∷ calls) =
    element
      (object (
        member "id" (text c.id)
          (member "name" (text c.name) (member "arguments" (object c.arguments) no_members))))
      (call_elements calls)

unfoldable pub tool_calls_to_json : List ToolCall → Option Value
tool_calls_to_json [] = none
tool_calls_to_json (c ∷ calls) = some (array (call_elements (c ∷ calls)))

-- `str(item[key])`: what the columns hold under the keys is a text.
abbrev pub item_text : String → Members → Result ReadError String
item_text key item = elim (get_field key item) [ some (text s) ↦ ok s | _ ↦ err unreadable ]

-- `dict(item[key])`
abbrev pub item_dict : String → Members → Result ReadError Members
item_dict key item = elim (get_field key item) [ some (object d) ↦ ok d | _ ↦ err unreadable ]

abbrev pub read_call : Value → Result ReadError ToolCall
read_call (object item) = do
  id ← item_text "id" item
  name ← item_text "name" item
  arguments ← item_dict "arguments" item
  ok (record { id = id; name = name; arguments = arguments })
read_call _ = err unreadable

abbrev pub read_calls : Elements → Result ReadError (List ToolCall)
read_calls no_elements = ok []
read_calls (element v rest) = do call ← read_call v; calls ← read_calls rest; ok (call ∷ calls)

-- The columns hold a list or NULL.
unfoldable pub tool_calls_from_json : Option Value → Result ReadError (List ToolCall)
tool_calls_from_json none = ok []
tool_calls_from_json (some (array items)) = read_calls items
tool_calls_from_json (some _) = err unreadable

abbrev pub attachment_elements : List Attachment → Elements
attachment_elements [] = no_elements
attachment_elements (a ∷ items) =
    element
      (object
        (member "kind" (text (attachment_value a.kind)) (member "ref" (text a.ref) no_members)))
      (attachment_elements items)

unfoldable pub attachments_to_json : List Attachment → Option Value
attachments_to_json [] = none
attachments_to_json (a ∷ items) = some (array (attachment_elements (a ∷ items)))

abbrev pub read_attachment : Value → Result ReadError Attachment
read_attachment (object item) = do
  value ← item_text "kind" item
  kind ← attachment_of value
  ref ← item_text "ref" item
  ok (record { kind = kind; ref = ref })
read_attachment _ = err unreadable

abbrev pub read_attachments : Elements → Result ReadError (List Attachment)
read_attachments no_elements = ok []
read_attachments (element v rest) = do
  item ← read_attachment v
  items ← read_attachments rest
  ok (item ∷ items)

unfoldable pub attachments_from_json : Option Value → Result ReadError (List Attachment)
attachments_from_json none = ok []
attachments_from_json (some (array items)) = read_attachments items
attachments_from_json (some _) = err unreadable

unfoldable pub kind_to_column : MessageKind → Option String
kind_to_column own = none
kind_to_column material = some "material"

-- `MessageKind(row.kind) if row.kind else MessageKind.OWN`: an empty text is false too
abbrev pub kind_from_column : Option String → Result ReadError MessageKind
kind_from_column none = ok own
kind_from_column (some s) = if str_eq s "" then ok own else kind_of s

-- `_to_chat_message`
unfoldable pub to_chat_message : MessageRow → Result ReadError ChatMessage
to_chat_message row = do
  role ← role_of row.role
  tool_calls ← tool_calls_from_json row.tool_calls
  kind ← kind_from_column row.kind
  attachments ← attachments_from_json row.attachments
  ok (record {
    role = role;
    content = row.content;
    tool_calls = tool_calls;
    tool_call_id = row.tool_call_id;
    task_id = row.task_id;
    kind = kind;
    attachments = attachments;
    id = some row.id;
    exchange_id = row.exchange_id;
  })

-- the values of the INSERT
unfoldable pub new_row :
    String → String → ℕ → ChatMessage → Option Spent → Option String → ℕ → MessageRow
new_row id dialog_id seq message usage client_message_id now = record {
  id = id;
  dialog_id = dialog_id;
  seq = seq;
  role = role_value message.role;
  content = message.content;
  tool_calls = tool_calls_to_json message.tool_calls;
  tool_call_id = message.tool_call_id;
  client_message_id = client_message_id;
  prompt_tokens = Option.map (λ u. u.prompt_tokens) usage;
  completion_tokens = Option.map (λ u. u.completion_tokens) usage;
  task_id = message.task_id;
  exchange_id = message.exchange_id;
  kind = kind_to_column message.kind;
  attachments = attachments_to_json message.attachments;
  created_at = now;
}

-- `coalesce(max(seq), 0)` over the dialog
abbrev pub max_seq : String → Messages → ℕ
max_seq dialog_id [] = 0
max_seq dialog_id (r ∷ rows) =
    max (if str_eq r.dialog_id dialog_id then r.seq else 0) (max_seq dialog_id rows)
