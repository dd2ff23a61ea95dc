-- ===== src/Agent/Material.antt =====
-- Forwarded material in core/src/octoforge_core/agent/runner.py: where a forward goes, which exchange a
-- message belongs to, and what becomes of a settled collection. The actor of a dialog serializes these
-- decisions; nothing else is taken to write the dialog's rows in between. `has_run` says whether a
-- process of the runner answers an exchange, and `reply` is what the router's model replies.
-- The ledger of usage is left out, and a run that is to start is answered by its exchange.
use octo_forge.Base.{
  ℕ, ◌+◌, ◌-◌, ◌/◌, String, Bool, true, false, not, Option, none, some, List, [], ◌∷◌, ◌++◌, ◌&&◌,
  ◌||◌, str_eq, ltb, opt_test, is_none, any, if◌then◌else◌, map, select_where, first_where, take,
  str_append,
}
use octo_forge.Domain.{MessageKind, own, material, AttachmentKind, image, audio, ChatMessage}
use octo_forge.Dialogs.Messages.{Messages}
use octo_forge.Dialogs.Log.{set_exchange}
use octo_forge.Dialogs.Exchanges.{
  ExchangeStatus, collecting, opened, cancelled, is_collecting, Exchange, Exchanges,
  find_collecting, create, get, list_live, touch, set_status,
}
use octo_forge.Agent.Router.{
  RouteAction, new, continue, command, RouteDecision, ExchangeInfo, Completion, fallback, route,
}
use octo_forge.Agent.Preview.{bounded_preview}
pub mod Digest
pub mod Rows
pub mod Rehoming
pub mod Promotion
pub mod Placement

-- what these operations read and write of a dialog
pub record Desk : Type 0 where
  pub exchanges : Exchanges
  pub narrative : List ChatMessage
  pub messages : Messages

-- one second
abbrev pub second : ℕ
second = 1000000

-- `MATERIAL_DIGEST_MESSAGES` and `MATERIAL_DIGEST_CHARS`
abbrev pub material_digest_messages : ℕ
material_digest_messages = 20

abbrev pub material_digest_chars : ℕ
material_digest_chars = 4000

abbrev pub is_material : MessageKind → Bool
is_material own = false
is_material material = true

abbrev pub is_image : AttachmentKind → Bool
is_image image = true
is_image audio = false

-- `message.exchange_id == id`
abbrev pub is_in : String → ChatMessage → Bool
is_in id m = opt_test (λ e. str_eq e id) m.exchange_id

-- `_untitled`
unfoldable pub untitled : ChatMessage → String
untitled message =
    if any (λ a. is_image a.kind) message.attachments
    then "Присланные изображения"
    else "Пересланные сообщения"

-- `MATERIAL_TITLE_TEMPLATE.format(origin=origin) if origin else _untitled(message)`
unfoldable pub collection_title : ChatMessage → Option String → String
unfolding untitled
collection_title message none = untitled message
collection_title message (some origin) =
    if str_eq origin "" then untitled message else str_append "Переслано от " origin

-- `max(answering, key=lambda item: item.updated_at)`, the first of those that are equal
unfoldable pub latest_of : Exchange → List Exchange → Exchange
latest_of e [] = e
latest_of e (x ∷ rows) = latest_of (if ltb e.updated_at x.updated_at then x else e) rows

-- `_collecting_exchange` once it has looked for the collection
unfoldable pub existing_or_new :
    Option Exchange
    → String
    → String
    → ℕ
    → ChatMessage
    → Option String
    → Exchanges
    → Option (Exchange × Exchanges)
unfolding collection_title
existing_or_new (some existing) dialog_id id now message origin rows = some (existing, rows)
existing_or_new none dialog_id id now message origin rows =
    create id dialog_id (collection_title message origin) (some collecting) now now rows

-- `_collecting_exchange`, under a new id
unfoldable pub collecting_exchange :
    String → String → ℕ → ChatMessage → Option String → Exchanges → Option (Exchange × Exchanges)
unfolding existing_or_new
collecting_exchange dialog_id id now message origin rows =
    existing_or_new (find_collecting dialog_id rows) dialog_id id now message origin rows

-- `_material_home`, for the exchanges that are being answered
unfoldable pub home_of :
    List Exchange
    → String
    → String
    → ℕ
    → ChatMessage
    → Option String
    → Exchanges
    → Option (Exchange × Exchanges)
unfolding latest_of collecting_exchange
home_of [] dialog_id id now message origin rows =
    collecting_exchange dialog_id id now message origin rows
home_of (e ∷ answering) dialog_id id now message origin rows = some (latest_of e answering, rows)

-- `_material_home`
unfoldable pub material_home :
    (String → Bool)
    → String
    → String
    → ℕ
    → ChatMessage
    → Option String
    → Exchanges
    → Option (Exchange × Exchanges)
unfolding home_of
material_home has_run dialog_id id now message origin rows =
    home_of (select_where (λ e. has_run e.id) (list_live dialog_id rows)) dialog_id id now message
      origin rows

-- `_messages.set_exchange` for a message that has a row
abbrev pub placed_in : Option String → String → Messages → Messages
placed_in none exchange_id rows = rows
placed_in (some message_id) exchange_id rows = set_exchange message_id exchange_id rows

-- `_collect_material` once it has the exchange
unfoldable pub collected : Option (Exchange × Exchanges) → ℕ → ChatMessage → Desk → Option Desk
collected none now message desk = none
collected (some (home, rows)) now message desk = some (record {
  exchanges = touch home.id now rows;
  narrative = desk.narrative ++ record message { exchange_id = some home.id } ∷ [];
  messages = placed_in message.id home.id desk.messages;
})

-- `_collect_material`; `none` when the id of the collection is taken
unfoldable pub collect_material :
    (String → Bool) → String → String → ℕ → ChatMessage → Option String → Desk → Option Desk
unfolding collected material_home
collect_material has_run dialog_id id now message origin desk =
    collected (material_home has_run dialog_id id now message origin desk.exchanges) now message
      desk

abbrev pub shown : ℕ → (Exchange → Option String) → Exchange → ExchangeInfo
shown now preview e = record {
  id = e.id;
  title = e.title;
  status = e.status;
  pending_question = e.pending_question;
  age_seconds = (now - e.updated_at) / second;
  preview = if is_collecting e.status then preview e else none;
}

-- `_sole_fresh_collection`
unfoldable pub sole_fresh_collection : ℕ → ℕ → List Exchange → Option Exchange
sole_fresh_collection now quiet (e ∷ []) =
    if is_collecting e.status && ltb now (e.updated_at + quiet) then some e else none
sole_fresh_collection now quiet _ = none

abbrev pub continue_in : String → RouteDecision
continue_in id = record (fallback []) { action = continue; exchange_id = some id }

-- `_route` where no transport-level reply names an exchange
unfoldable pub route_unaddressed :
    ℕ → ℕ → (Exchange → Option String) → List Exchange → Option Completion → RouteDecision
unfolding sole_fresh_collection
route_unaddressed now quiet preview live reply = elim (sole_fresh_collection now quiet live) [
  | some collection ↦ continue_in collection.id
  | none ↦ route (map (shown now preview) live) reply
]

-- `_material_pieces`
unfoldable pub material_pieces : List ChatMessage → String → List String
material_pieces narrative id =
    take material_digest_messages
      (map (λ m. m.content) (select_where (λ m. is_in id m && is_material m.kind) narrative))

-- `_bounded_preview(pieces, MATERIAL_DIGEST_CHARS) if pieces else None`
unfoldable pub preview_of : List String → Option String
preview_of [] = none
preview_of (piece ∷ pieces) = some (bounded_preview (piece ∷ pieces) material_digest_chars)

-- `_material_preview`
unfoldable pub material_preview : List ChatMessage → String → Option String
unfolding material_pieces preview_of
material_preview narrative id = preview_of (material_pieces narrative id)

-- `_route`
unfoldable pub route_message :
    Option String → ℕ → ℕ → List ChatMessage → List Exchange → Option Completion → RouteDecision
unfolding route_unaddressed material_preview
route_message none now quiet narrative live reply =
    route_unaddressed now quiet (λ e. material_preview narrative e.id) live reply
route_message (some id) now quiet narrative live reply =
    if any (λ e. str_eq id e.id) live
    then continue_in id
    else route_unaddressed now quiet (λ e. material_preview narrative e.id) live reply

-- the exchanges that `_material_target` offers to the router
abbrev pub is_target : String → Exchange → Bool
is_target collection_id e = not (str_eq e.id collection_id) && not (is_collecting e.status)

-- the target that a decision names
unfoldable pub target_of : List Exchange → RouteAction → Option String → Option Exchange
target_of live continue (some id) = first_where (λ e. str_eq e.id id) live
target_of live _ _ = none

-- `_material_target`
unfoldable pub material_target :
    String → String → ℕ → Option Completion → Exchanges → Option Exchange
unfolding target_of
material_target dialog_id collection_id now reply rows =
    let live = select_where (is_target collection_id) (list_live dialog_id rows) in
    let decision = route (map (shown now (λ e. none)) live) reply in
    target_of live decision.action decision.exchange_id

-- the loop of `_reparent_material` over the narrative
unfoldable pub reparented : String → String → List ChatMessage → List ChatMessage
reparented from to [] = []
reparented from to (m ∷ narrative) =
    (if is_in from m then record m { exchange_id = some to } else m) ∷ reparented from to narrative

-- and over the rows of the messages
unfoldable pub reparented_rows : String → String → List ChatMessage → Messages → Messages
reparented_rows from to [] rows = rows
reparented_rows from to (m ∷ narrative) rows =
    reparented_rows from to narrative (if is_in from m then placed_in m.id to rows else rows)

abbrev pub changed_or : Option Exchanges → Exchanges → Exchanges
changed_or none rows = rows
changed_or (some changed) rows = changed

-- `set_status` of an exchange that has been read
abbrev pub status_set : String → ExchangeStatus → ℕ → Exchanges → Exchanges
status_set id status now rows = changed_or (set_status id status none now rows) rows

-- `_reparent_material`, with the exchange that is to get a run, if any
unfoldable pub reparent_material :
    (String → Bool) → ℕ → String → String → Desk → Desk × Option String
unfolding reparented reparented_rows
reparent_material has_run now from to desk =
    let rows = touch to now (status_set from cancelled now desk.exchanges) in
    (
      record {
        exchanges = (if has_run to then rows else status_set to opened now rows);
        narrative = reparented from to desk.narrative;
        messages = reparented_rows from to desk.narrative desk.messages;
      },
      if has_run to then none else some to,
    )

-- the end of `_handle_promote`
unfoldable pub promoted :
    (String → Bool) → ℕ → String → Option Exchange → Desk → Desk × Option String
unfolding reparent_material
promoted has_run now id (some target) desk = reparent_material has_run now id target.id desk
promoted has_run now id none desk =
    (record desk { exchanges = status_set id opened now desk.exchanges }, some id)

-- `_handle_promote` once it has read the exchange
unfoldable pub promote_found :
    (String → Bool)
    → String
    → ℕ
    → ℕ
    → Option Completion
    → Option Exchange
    → Desk
    → Desk × Option String
unfolding promoted material_target
promote_found has_run dialog_id now quiet reply none desk = (desk, none)
promote_found has_run dialog_id now quiet reply (some e) desk =
    if not (is_collecting e.status)
    then (desk, none)
    else if ltb now (e.updated_at + quiet)
    then (desk, none)
    else promoted has_run now e.id (material_target dialog_id e.id now reply desk.exchanges) desk

-- `_handle_promote`
unfoldable pub handle_promote :
    (String → Bool) → String → ℕ → ℕ → Option Completion → String → Desk → Desk × Option String
unfolding promote_found
handle_promote has_run dialog_id now quiet reply id desk =
    promote_found has_run dialog_id now quiet reply (get id desk.exchanges) desk
