-- ===== src/Dialogs/Registry.antt =====
-- `SqlAlchemyDialogRepository` of core/src/octoforge_core/dialogs/store.py, over the tables `dialogs` and
-- `messages`. The ids of new rows and the clock's answer are arguments. The read and the write of
-- `get_or_create` are two sessions, with a table each: another process may write between them.
use octo_forge.Base.{
  ℕ, String, Bool, Option, none, some, List, [], ◌∷◌, ◌++◌, ◌&&◌, ◌||◌, str_eq, if◌then◌else◌, any,
  Result, ok, err, select_where, first_where, delete_where, get_by,
}
use octo_forge.Domain.{Dialog}
use octo_forge.Dialogs.Messages.{Messages}
use octo_forge.Dialogs.Log.{IntegrityError, unique_violation, of_dialog}

-- a row of the table is the dialog that the repository answers
abbrev pub Dialogs : Type 0
Dialogs = List Dialog

abbrev pub dialog_key : Dialog → String
dialog_key d = d.id

-- `_find_row`
abbrev pub is_between : String → String → Dialog → Bool
is_between user_id channel d = str_eq d.user_id user_id && str_eq d.channel channel

unfoldable pub find_row : String → String → Dialogs → Option Dialog
find_row user_id channel rows = first_where (is_between user_id channel) rows

abbrev pub new_dialog : String → String → String → ℕ → Dialog
new_dialog id user_id channel now = record {
  id = id;
  user_id = user_id;
  channel = channel;
  created_at = now;
  updated_at = now;
}

-- the primary key and the unique pair of user and channel
abbrev pub clashes : Dialog → Dialog → Bool
clashes new d = str_eq d.id new.id || is_between new.user_id new.channel d

-- the write of `get_or_create`
abbrev pub insert_dialog : Dialog → Dialogs → Result IntegrityError (Dialog × Dialogs)
insert_dialog new rows =
    if any (clashes new) rows then err unique_violation else ok (new, rows ++ new ∷ [])

abbrev pub found_or : Option Dialog → Dialog → Dialogs → Result IntegrityError (Dialog × Dialogs)
found_or (some d) new stored = ok (d, stored)
found_or none new stored = insert_dialog new stored

-- `get_or_create`: what the first session reads, and the table that the second one writes to
unfoldable pub get_or_create :
    String → String → String → ℕ → Dialogs → Dialogs → Result IntegrityError (Dialog × Dialogs)
get_or_create user_id channel id now seen stored =
    found_or (find_row user_id channel seen) (new_dialog id user_id channel now) stored

-- `none` for DialogNotFoundError
unfoldable pub get : String → Dialogs → Option Dialog
get id rows = get_by dialog_key id rows

unfoldable pub list_by_channel : String → Dialogs → List Dialog
list_by_channel channel rows = select_where (λ d. str_eq d.channel channel) rows

-- The dialog and its log go in one transaction; `none` for DialogNotFoundError.
unfoldable pub delete : String → Dialogs → Messages → Option (Dialogs × Messages)
delete id rows messages = elim (get_by dialog_key id rows) [
  | none ↦ none
  | some d ↦ some (delete_where (λ r. str_eq r.id id) rows, delete_where (of_dialog id) messages)
]
