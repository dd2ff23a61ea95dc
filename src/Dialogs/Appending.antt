-- ===== src/Dialogs/Appending.antt =====
-- The message log of a dialog (core/src/octoforge_core/dialogs/store.py): what the reads answer after
-- an append, and what an append does when other writers or another submit of the same message come
-- between. `Dialogs.Columns` has the round trips of the columns.
use octo_forge.Base.{
  ℕ, ◌+◌, ◌≤◌, ◌<◌, String, Bool, true, false, Option, none, some, List, [], ◌∷◌, ◌++◌, ◌&&◌, ◌||◌,
  str_eq, eq_iff, if◌then◌else◌, opt_test, ◌==◌, any, Result, ok, err, ◌>>=◌, select_where,
  order_by, All, All-weaken, ◌≡◌, ◌≢◌, refl, ap, subst, ◌∙◌, arith, Bool-cases, inl, inr,
  order-append, select-append,
}
use mathlib.Core.List.{append-nil}
use octo_forge.Domain.{ReadError, ChatMessage}
use octo_forge.Dialogs.Messages.{MessageRow, Messages, Spent, to_chat_message, new_row, max_seq}
use octo_forge.Dialogs.Log.{
  of_dialog, has_client, conflicts, insert, Race, attempt_row, append_attempts, append,
  find_by_client_id, read_all, list,
}
use octo_forge.Dialogs.Columns.{stored_as, message_round_trip}

-- Every seq of the dialog is at most the highest one.
pub max_seq-le :
    (d : String) (rows : Messages)
    → All (λ r. r.seq ≤ max_seq d rows) (select_where (of_dialog d) rows)
max_seq-le d [] = tt
max_seq-le d (r ∷ rows) = elim (Bool-cases (of_dialog d r)) [
  | inl mine ↦ rw mine (
    omega arith,
    All-weaken (λ x le. omega (arith, le)) (select_where (of_dialog d) rows) (max_seq-le d rows),
  )
  | inr other ↦
      rw other (
        All-weaken (λ x le. omega (arith, le)) (select_where (of_dialog d) rows)
          (max_seq-le d rows))
]

regroup {μ} :
    {B : Type μ} (o : Result ReadError B) (os : Result ReadError (List B))
    (last : Result ReadError B)
    → (o >>= λ a. (os >>= λ items. last >>= λ b. ok (items ++ b ∷ [])) >>= λ items. ok (a ∷ items))
      ≡ ((o >>= λ a. os >>= λ items. ok (a ∷ items)) >>= λ items.
          last >>= λ b. ok (items ++ b ∷ []))
regroup (err e) os last = refl
regroup (ok a) (err e) last = refl
regroup (ok a) (ok items) (err e) = refl
regroup (ok a) (ok items) (ok b) = refl

pub read_all-append {κ μ} :
    {A : Type κ} {B : Type μ} (f : A → Result ReadError B) (rows : List A) (x : A)
    → read_all f (rows ++ x ∷ []) ≡ (read_all f rows >>= λ items. f x >>= λ b. ok (items ++ b ∷ []))
read_all-append f [] x = elim (f x) [ ok b ↦ refl | err e ↦ refl ]
read_all-append f (r ∷ rows) x =
    ap (λ rest. f r >>= λ a. rest >>= λ items. ok (a ∷ items)) (read_all-append f rows x)
    ∙ regroup (f r) (read_all f rows) (f x)

-- An id is free when no row has it.
abbrev pub IsFresh : String → Messages → Type 0
IsFresh id rows = any (λ r. str_eq r.id id) rows ≡ false

-- No row of the dialog has the client's key.
abbrev pub IsUnsent : String → Option String → Messages → Type 0
IsUnsent d none rows = Unit
IsUnsent d (some key) rows = find_by_client_id d key rows ≡ false

free_client :
    (d key : String) (rows : Messages)
    → find_by_client_id d key rows ≡ false
    → any (has_client d key) rows ≡ false
unfolding find_by_client_id
free_client d key [] h = refl
free_client d key (r ∷ rows) h = ground (arith, free_client d key rows)

any-or {ℓ} :
    {A : Type ℓ} (p q : A → Bool) (rows : List A)
    → any p rows ≡ false
    → any q rows ≡ false
    → any (λ r. p r || q r) rows ≡ false
any-or p q [] h k = refl
any-or p q (r ∷ rows) h k = ground (arith, any-or p q rows)

free_seq :
    (d : String) (n : ℕ) (rows : Messages)
    → All (λ r. r.seq < n) (select_where (of_dialog d) rows)
    → any (λ r. of_dialog d r && (r.seq == n)) rows ≡ false
free_seq d n [] h = refl
free_seq d n (r ∷ rows) h = elim (Bool-cases (of_dialog d r)) [
  | inl mine ↦
      let k =
        subst
          (λ b.
            All (λ r. r.seq < n)
              (if b then r ∷ select_where (of_dialog d) rows else select_where (of_dialog d) rows))
          mine h in
      ground (arith, mine, k.0, free_seq d n rows k.1)
  | inr other ↦
      let k =
        subst
          (λ b.
            All (λ r. r.seq < n)
              (if b then r ∷ select_where (of_dialog d) rows else select_where (of_dialog d) rows))
          other h in
      ground (arith, other, free_seq d n rows k)
]

unsent_free :
    (d : String) (client : Option String) (rows : Messages)
    → IsUnsent d client rows
    → any (λ r. opt_test (λ key. has_client d key r) client) rows ≡ false
unsent_free d (some key) rows h = free_client d key rows h
unsent_free d none [] h = refl
unsent_free d none (r ∷ rows) h = unsent_free d none rows h

-- A row past the highest seq, with a free id and an unsent key, breaks no constraint.
any-conflicts :
    (new : MessageRow) (rows : Messages)
    → IsFresh new.id rows
    → All (λ r. r.seq < new.seq) (select_where (of_dialog new.dialog_id) rows)
    → IsUnsent new.dialog_id new.client_message_id rows
    → any (conflicts new) rows ≡ false
any-conflicts new rows fresh above unsent = any-or _ _ rows fresh (
    any-or _ _ rows (free_seq new.dialog_id new.seq rows above)
      (unsent_free new.dialog_id new.client_message_id rows unsent))

-- An INSERT of such a row appends it.
pub insert-free :
    (new : MessageRow) (rows : Messages)
    → IsFresh new.id rows
    → All (λ r. r.seq < new.seq) (select_where (of_dialog new.dialog_id) rows)
    → IsUnsent new.dialog_id new.client_message_id rows
    → insert new rows ≡ ok (rows ++ new ∷ [])
unfolding insert
insert-free new rows fresh above unsent = rw (any-conflicts new rows fresh above unsent) refl

-- what an append by the only writer meets
abbrev pub alone : (ℕ → String) → Messages → ℕ → Race
alone ids rows now = record { row_id = ids; seen = λ _. rows; stored = λ _. rows; now = λ _. now }

append-first :
    (race : Race) (d : String) (message : ChatMessage) (usage : Option Spent)
    (client : Option String) (rows : Messages)
    → insert (attempt_row race d message usage client 0) (race.stored 0) ≡ ok rows
    → append race d message usage client ≡ ok (race.row_id 0, rows)
unfolding append append_attempts
append-first race d message usage client rows h = rw h refl

-- An append by the only writer succeeds with its first attempt.
append-alone :
    (ids : ℕ → String) (rows : Messages) (now : ℕ) (d : String) (message : ChatMessage)
    (usage : Option Spent) (client : Option String)
    → IsFresh (ids 0) rows
    → IsUnsent d client rows
    → append (alone ids rows now) d message usage client
      ≡ ok (ids 0, rows ++ new_row (ids 0) d (max_seq d rows + 1) message usage client now ∷ [])
unfolding new_row
append-alone ids rows now d message usage client fresh unsent =
    append-first (alone ids rows now) d message usage client _ (
      insert-free (attempt_row (alone ids rows now) d message usage client 0) rows fresh
        (All-weaken (λ x le. omega (arith, le)) (select_where (of_dialog d) rows)
          (max_seq-le d rows))
        unsent)

-- what the log answers for a dialog after one more row
list-own :
    (d : String) (rows : Messages) (ms : List ChatMessage) (r : MessageRow) (m : ChatMessage)
    → of_dialog d r ≡ true
    → All (λ s. s.seq ≤ r.seq) (select_where (of_dialog d) rows)
    → list d rows ≡ ok ms
    → to_chat_message r ≡ ok m
    → list d (rows ++ r ∷ []) ≡ ok (ms ++ m ∷ [])
unfolding list
list-own d rows ms r m mine above listed read =
    rw (select-append (of_dialog d) rows (r ∷ [])) rw mine rw
      (order-append (λ r. r.seq) (select_where (of_dialog d) rows) r above) rw
      (read_all-append to_chat_message (order_by (λ r. r.seq) (select_where (of_dialog d) rows)) r)
      rw listed rw read refl

list-other :
    (d : String) (rows : Messages) (r : MessageRow)
    → of_dialog d r ≡ false
    → list d (rows ++ r ∷ []) ≡ list d rows
unfolding list
list-other d rows r other =
    rw (select-append (of_dialog d) rows (r ∷ [])) rw other rw
      (append-nil (select_where (of_dialog d) rows)) refl

-- An append by the only writer, with a free id and an unsent key, succeeds with its first attempt; the
-- log of the dialog is then what it was and the message behind it, under the id of its row, and the
-- log of every other dialog is what it was.
pub append_adds :
    (ids : ℕ → String) (rows : Messages) (now : ℕ) (d : String) (message : ChatMessage)
    (usage : Option Spent) (client : Option String) (ms : List ChatMessage)
    → IsFresh (ids 0) rows
    → IsUnsent d client rows
    → list d rows ≡ ok ms
    → (append (alone ids rows now) d message usage client
        ≡ ok (ids 0, rows ++ new_row (ids 0) d (max_seq d rows + 1) message usage client now ∷ []))
      × (list d (rows ++ new_row (ids 0) d (max_seq d rows + 1) message usage client now ∷ [])
          ≡ ok (ms ++ stored_as (ids 0) message ∷ []))
      × ((e : String)
          → d ≢ e
          → list e (rows ++ new_row (ids 0) d (max_seq d rows + 1) message usage client now ∷ [])
            ≡ list e rows)
unfolding new_row
append_adds ids rows now d message usage client ms fresh unsent listed = (
  append-alone ids rows now d message usage client fresh unsent,
  list-own d rows ms (new_row (ids 0) d (max_seq d rows + 1) message usage client now) _
      (ground (arith, eq_iff d d))
      (All-weaken (λ x le. omega (arith, le)) (select_where (of_dialog d) rows) (max_seq-le d rows))
      listed (message_round_trip (ids 0) d (max_seq d rows + 1) message usage client now),
  λ e ne.
      list-other e rows (new_row (ids 0) d (max_seq d rows + 1) message usage client now)
        (ground (arith, eq_iff d e)),
)
