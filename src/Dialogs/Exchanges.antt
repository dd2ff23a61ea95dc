-- ===== src/Dialogs/Exchanges.antt =====
-- The exchanges of core/src/octoforge_core/dialogs/api.py, and `SqlAlchemyExchangeRepository` of
-- dialogs/store.py over the table `exchanges`, read beside the table `tasks`. Each method is one
-- transaction; `now` is what `utc_now()` answers in it, which every UPDATE also writes to
-- `updated_at` (`onupdate` of dialogs/models.py). The id of a new row is an argument.
use octo_forge.Base.{
  ℕ, ◌+◌, String, Bool, true, false, not, Option, none, some, List, [], ◌∷◌, ◌++◌, ◌&&◌, ◌||◌,
  str_eq, str_leb, str_take, if◌then◌else◌, is_none, opt_test, ◌==◌, ltb, any, map, select_where,
  first_where, update_where, delete_where, count_where, order_with, order_by, get_by,
}
use mathlib.Core.Option
use octo_forge.Tasks.Api.{Task, is_active}
use octo_forge.Tasks.Memory.{Tasks}

pub data ExchangeStatus : Type 0 where
  collecting opened in_progress awaiting_user answered cancelled failed : ExchangeStatus

-- `status in LIVE_EXCHANGE_STATUSES`; the status OPEN is `opened` here
abbrev pub is_live : ExchangeStatus → Bool
is_live collecting = true
is_live opened = true
is_live in_progress = true
is_live awaiting_user = true
is_live _ = false

abbrev pub is_open : ExchangeStatus → Bool
is_open opened = true
is_open _ = false

abbrev pub is_in_progress : ExchangeStatus → Bool
is_in_progress in_progress = true
is_in_progress _ = false

abbrev pub is_collecting : ExchangeStatus → Bool
is_collecting collecting = true
is_collecting _ = false

abbrev pub is_awaiting_user : ExchangeStatus → Bool
is_awaiting_user awaiting_user = true
is_awaiting_user _ = false

pub record Exchange : Type 0 where
  pub id : String
  pub dialog_id : String
  pub status : ExchangeStatus
  pub title : String
  pub created_at : ℕ
  pub updated_at : ℕ
  pub pending_question : Option String

abbrev pub Exchanges : Type 0
Exchanges = List Exchange

abbrev pub exchange_id : Exchange → String
exchange_id e = e.id

abbrev pub title_max_length : ℕ
title_max_length = 60

-- `TaskRow.exchange_id == id`
abbrev pub is_of : String → Task → Bool
is_of id t = opt_test (λ e. str_eq e id) t.exchange_id

-- `_has_live_task`: an EXISTS over the tasks
unfoldable pub has_live_task : Tasks → Exchange → Bool
has_live_task tasks e = any (λ t. is_of e.id t && is_active t.status) tasks

-- ORDER BY created_at DESC, id DESC
abbrev pub is_newer : Task → Task → Bool
is_newer t u = ltb u.created_at t.created_at || t.created_at == u.created_at && str_leb u.id t.id

abbrev pub first_id : List Task → Option String
first_id [] = none
first_id (t ∷ ts) = some t.id

-- `_newest_task_of`
unfoldable pub newest_task_of : Tasks → String → Option String
newest_task_of tasks id = first_id (order_with is_newer (select_where (is_of id) tasks))

-- The INSERT, with the two clock readings of its defaults; `none` when the id is taken.
unfoldable pub create :
    String
    → String
    → String
    → Option ExchangeStatus
    → ℕ
    → ℕ
    → Exchanges
    → Option (Exchange × Exchanges)
create id dialog_id title status created updated rows =
    let row : Exchange = record {
      id = id;
      dialog_id = dialog_id;
      status = elim status [ none ↦ opened | some s ↦ s ];
      title = str_take title_max_length title;
      created_at = created;
      updated_at = updated;
      pending_question = none;
    } in
    if is_none (get_by exchange_id id rows) then some (row, rows ++ row ∷ []) else none

abbrev pub first_of {ℓ} : {A : Type ℓ} → List A → Option A
first_of [] = none
first_of (x ∷ xs) = some x

abbrev pub by_creation : List Exchange → List Exchange
by_creation = order_by (λ e. e.created_at)

unfoldable pub find_collecting : String → Exchanges → Option Exchange
find_collecting dialog_id rows =
    first_of (
      by_creation (select_where (λ e. str_eq e.dialog_id dialog_id && is_collecting e.status) rows))

-- `updated_at < now - quiet`, without the subtraction
unfoldable pub list_stale_collecting : ℕ → ℕ → Exchanges → List Exchange
list_stale_collecting now quiet rows =
    order_by (λ e. e.updated_at)
      (select_where (λ e. is_collecting e.status && ltb (e.updated_at + quiet) now) rows)

unfoldable pub touch : String → ℕ → Exchanges → Exchanges
touch id now = update_where (λ e. str_eq e.id id) (λ e. record e { updated_at = now })

unfoldable pub set_title : String → String → ℕ → Exchanges → Exchanges
set_title id title now =
    update_where (λ e. str_eq e.id id)
      (λ e. record e { title = str_take title_max_length title; updated_at = now })

-- `none` is ExchangeNotFoundError.
unfoldable pub get : String → Exchanges → Option Exchange
get id rows = get_by exchange_id id rows

unfoldable pub list_live : String → Exchanges → List Exchange
list_live dialog_id rows =
    by_creation (select_where (λ e. str_eq e.dialog_id dialog_id && is_live e.status) rows)

abbrev pub is_unowned_open : Tasks → Exchange → Bool
is_unowned_open tasks e = is_open e.status && not (has_live_task tasks e)

unfoldable pub list_unowned_open : Option String → Tasks → Exchanges → List Exchange
list_unowned_open dialog_id tasks rows = by_creation (
    select_where
      (λ e.
        is_unowned_open tasks e
        && elim dialog_id as (λ _. Bool) [ none ↦ true | some d ↦ str_eq e.dialog_id d ])
      rows)

-- SELECT DISTINCT
abbrev pub distinct : List String → List String
distinct [] = []
distinct (x ∷ xs) = let rest = distinct xs in if any (str_eq x) xs then rest else x ∷ rest

unfoldable pub list_stranded_dialog_ids : Tasks → Exchanges → List String
list_stranded_dialog_ids tasks rows = distinct (
    map (λ e. e.dialog_id)
      (select_where (λ e. is_in_progress e.status || is_unowned_open tasks e) rows))

abbrev pub is_running_in : String → Exchange → Bool
is_running_in dialog_id e = str_eq e.dialog_id dialog_id && is_in_progress e.status

abbrev pub reopened : ℕ → Exchange → Exchange
reopened now e = record e { status = opened; updated_at = now }

-- the row count, the stranded exchanges, and the table
unfoldable pub reopen_and_list_stranded :
    String → ℕ → Tasks → Exchanges → ℕ × (List Exchange × Exchanges)
reopen_and_list_stranded dialog_id now tasks rows =
    let after = update_where (is_running_in dialog_id) (reopened now) rows in
    (
      count_where (is_running_in dialog_id) rows,
      (
        by_creation
            (select_where (λ e. str_eq e.dialog_id dialog_id && is_unowned_open tasks e) after),
        after,
      ),
    )

abbrev pub with_status : ExchangeStatus → Option String → ℕ → Exchange → Exchange
with_status status question now e = record e {
  status = status;
  pending_question = question;
  updated_at = now;
}

-- `none` is ExchangeNotFoundError: nothing is written.
unfoldable pub set_status :
    String → ExchangeStatus → Option String → ℕ → Exchanges → Option Exchanges
set_status id status question now rows =
    if count_where (λ e. str_eq e.id id) rows == 0
    then none
    else some (update_where (λ e. str_eq e.id id) (with_status status question now) rows)

-- The WHERE clause of `settle_owned` for the row under the id.
abbrev pub can_settle : String → String → Bool → Tasks → Exchange → Bool
can_settle id task_id keep_if_awaiting tasks e =
    opt_test (λ t. str_eq t task_id) (newest_task_of tasks id)
    && (is_live e.status && (if keep_if_awaiting then not (is_awaiting_user e.status) else true))

-- UPDATE .. RETURNING: the settled exchange, `none` when nothing was written, and the table
unfoldable pub settle_owned :
    String → String → ExchangeStatus → Bool → ℕ → Tasks → Exchanges → Option Exchange × Exchanges
settle_owned id task_id status keep_if_awaiting now tasks rows =
    let wanted : Exchange → Bool =
      (λ e. str_eq e.id id && can_settle id task_id keep_if_awaiting tasks e) in
    (
      Option.map (with_status status none now) (first_where wanted rows),
      update_where wanted (with_status status none now) rows,
    )

unfoldable pub delete_for_dialog : String → Exchanges → Exchanges
delete_for_dialog dialog_id = delete_where (λ e. str_eq e.dialog_id dialog_id)
