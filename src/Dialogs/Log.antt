-- ===== src/Dialogs/Log.antt =====
-- `SqlAlchemyMessageRepository` of core/src/octoforge_core/dialogs/store.py, over the table `messages`:
-- the appends, with their races, and the reads. Attempt number k of an append reads the table `seen k`
-- in its subquery and inserts into the table `stored k`; the two differ when another writer's
-- transaction comes between. Ids of new rows and the clock's answer are arguments.
use octo_forge.Base.{
  ℕ, zero, suc, ◌+◌, ◌-◌, String, Bool, not, Option, none, some, List, [], ◌∷◌, ◌++◌, ◌&&◌, ◌||◌,
  str_eq, if◌then◌else◌, is_none, opt_test, ◌==◌, ltb, any, Result, ok, err, ◌>>=◌, select_where,
  first_where, update_where, order_by,
}
use octo_forge.Domain.{ReadError, ChatMessage}
use octo_forge.Dialogs.Messages.{MessageRow, Messages, Spent, to_chat_message, new_row, max_seq}

abbrev pub message_seq_retry_attempts : ℕ
message_seq_retry_attempts = 5

pub data IntegrityError : Type 0 where
  unique_violation : IntegrityError

-- `WHERE dialog_id = d`
abbrev pub of_dialog : String → MessageRow → Bool
of_dialog d r = str_eq r.dialog_id d

-- the row has the client's key; a NULL equals nothing
abbrev pub has_client : String → String → MessageRow → Bool
has_client d key r = of_dialog d r && opt_test (λ k. str_eq k key) r.client_message_id

-- The three unique constraints of the table.
abbrev pub conflicts : MessageRow → MessageRow → Bool
conflicts new r =
    str_eq r.id new.id
    || ((of_dialog new.dialog_id r && (r.seq == new.seq))
        || opt_test (λ key. has_client new.dialog_id key r) new.client_message_id)

-- INSERT of one row
unfoldable pub insert : MessageRow → Messages → Result IntegrityError Messages
insert new rows = if any (conflicts new) rows then err unique_violation else ok (rows ++ new ∷ [])

-- what the attempts of an append meet: the ids drawn, the tables, and the clock
pub record Race : Type 0 where
  pub row_id : ℕ → String
  pub seen : ℕ → Messages
  pub stored : ℕ → Messages
  pub now : ℕ → ℕ

-- the INSERT of attempt `k`, whose subquery reads the highest seq
abbrev pub attempt_row : Race → String → ChatMessage → Option Spent → Option String → ℕ → MessageRow
attempt_row race d message usage client k =
    new_row (race.row_id k) d (max_seq d (race.seen k) + 1) message usage client (race.now k)

-- what an attempt does after its INSERT: it returns, and after a violation it raises if it was the
-- last one, and goes on to the `rest` otherwise
abbrev pub append_outcome :
    String
    → Bool
    → Result IntegrityError (String × Messages)
    → Result IntegrityError Messages
    → Result IntegrityError (String × Messages)
append_outcome id is_last rest (ok rows) = ok (id, rows)
append_outcome id is_last rest (err e) = if is_last then err e else rest

-- `for attempt in range(MESSAGE_SEQ_RETRY_ATTEMPTS)`, with `left` attempts left
unfoldable pub append_attempts :
    Race
    → String
    → ChatMessage
    → Option Spent
    → Option String
    → ℕ
    → ℕ
    → Result IntegrityError (String × Messages)
append_attempts race d message usage client k zero = err unique_violation
append_attempts race d message usage client k (suc left) =
    append_outcome (race.row_id k) (k == message_seq_retry_attempts - 1)
      (append_attempts race d message usage client (k + 1) left)
      (insert (attempt_row race d message usage client k) (race.stored k))

-- the id of the new row, and the table after it
unfoldable pub append :
    Race
    → String
    → ChatMessage
    → Option Spent
    → Option String
    → Result IntegrityError (String × Messages)
append race d message usage client =
    append_attempts race d message usage client 0 message_seq_retry_attempts

-- `_insert_attempt` with the two statements of a pair, in one transaction: the second subquery reads
-- the first row, beside what the first subquery read
unfoldable pub insert_pair :
    Race → (ℕ → String) → String → ChatMessage → ChatMessage → ℕ → Result IntegrityError Messages
insert_pair race second_id d first second k = do
  let one = attempt_row race d first none none k
  let two =
      new_row (second_id k) d (max_seq d (race.seen k ++ one ∷ []) + 1) second none none
        (race.now k)
  rows ← insert one (race.stored k)
  insert two rows

abbrev pub pair_outcome :
    Bool
    → Result IntegrityError Messages
    → Result IntegrityError Messages
    → Result IntegrityError Messages
pair_outcome is_last rest (ok rows) = ok rows
pair_outcome is_last rest (err e) = if is_last then err e else rest

unfoldable pub append_pair_attempts :
    Race
    → (ℕ → String)
    → String
    → ChatMessage
    → ChatMessage
    → ℕ
    → ℕ
    → Result IntegrityError Messages
append_pair_attempts race second_id d first second k zero = err unique_violation
append_pair_attempts race second_id d first second k (suc left) =
    pair_outcome (k == message_seq_retry_attempts - 1)
      (append_pair_attempts race second_id d first second (k + 1) left)
      (insert_pair race second_id d first second k)

unfoldable pub append_pair :
    Race → (ℕ → String) → String → ChatMessage → ChatMessage → Result IntegrityError Messages
append_pair race second_id d first second =
    append_pair_attempts race second_id d first second 0 message_seq_retry_attempts

unfoldable pub find_by_client_id : String → String → Messages → Bool
find_by_client_id d key rows = not (is_none (first_where (has_client d key) rows))

-- `[_to_chat_message(row) for row in rows]`
abbrev pub read_all {ℓ κ μ} :
    {E : Type ℓ} {A : Type κ} {B : Type μ} → (A → Result E B) → List A → Result E (List B)
read_all f [] = ok []
read_all f (r ∷ rows) = do item ← f r; items ← read_all f rows; ok (item ∷ items)

-- the rows of the SELECTs by dialog, past a seq, in the order of their seq
abbrev pub rows_after : String → ℕ → Messages → Messages
rows_after d after_seq rows =
    order_by (λ r. r.seq) (select_where (λ r. of_dialog d r && ltb after_seq r.seq) rows)

unfoldable pub list_after : String → ℕ → Messages → Result ReadError (List ChatMessage)
list_after d after_seq rows = read_all to_chat_message (rows_after d after_seq rows)

unfoldable pub list : String → Messages → Result ReadError (List ChatMessage)
list d rows = read_all to_chat_message (order_by (λ r. r.seq) (select_where (of_dialog d) rows))

abbrev pub with_exchange : String → MessageRow → MessageRow
with_exchange exchange_id r = record r { exchange_id = some exchange_id }

unfoldable pub set_exchange : String → String → Messages → Messages
set_exchange message_id exchange_id rows =
    update_where (λ r. str_eq r.id message_id) (with_exchange exchange_id) rows
