-- ===== src/Domain.antt =====
-- core/src/octoforge_core/domain.py: the messages of a dialog. Each enumeration has the text that
-- `.value` gives, which is what the database stores.
use octo_forge.Base.{ℕ, String, Option, List, str_eq, if◌then◌else◌, Result, ok, err}
use octo_forge.Json.{Members}

-- what reading a stored value raises: a ValueError, KeyError or TypeError
pub data ReadError : Type 0 where
  unreadable : ReadError

pub data MessageRole : Type 0 where
  system user assistant tool : MessageRole

abbrev pub role_value : MessageRole → String
role_value system = "system"
role_value user = "user"
role_value assistant = "assistant"
role_value tool = "tool"

-- `MessageRole(value)`
abbrev pub role_of : String → Result ReadError MessageRole
role_of s =
    if str_eq s "system"
    then ok system
    else if str_eq s "user"
    then ok user
    else if str_eq s "assistant"
    then ok assistant
    else if str_eq s "tool"
    then ok tool
    else err unreadable

pub data MessageKind : Type 0 where
  own material : MessageKind

-- `MessageKind(value)`
abbrev pub kind_of : String → Result ReadError MessageKind
kind_of s =
    if str_eq s "own" then ok own else if str_eq s "material" then ok material else err unreadable

pub data AttachmentKind : Type 0 where
  image audio : AttachmentKind

abbrev pub attachment_value : AttachmentKind → String
attachment_value image = "image"
attachment_value audio = "audio"

-- `AttachmentKind(value)`
abbrev pub attachment_of : String → Result ReadError AttachmentKind
attachment_of s =
    if str_eq s "image" then ok image else if str_eq s "audio" then ok audio else err unreadable

pub record Attachment : Type 0 where
  pub kind : AttachmentKind
  pub ref : String

pub record ToolCall : Type 0 where
  pub id : String
  pub name : String
  pub arguments : Members

pub record ChatMessage : Type 0 where
  pub role : MessageRole
  pub content : String
  pub tool_calls : List ToolCall
  pub tool_call_id : Option String
  pub task_id : Option String
  pub kind : MessageKind
  pub attachments : List Attachment
  pub id : Option String
  pub exchange_id : Option String

pub record Dialog : Type 0 where
  pub id : String
  pub user_id : String
  pub channel : String
  pub created_at : ℕ
  pub updated_at : ℕ
