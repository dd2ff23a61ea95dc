-- ===== src/Dialogs/Races.antt =====
-- The appends of core/src/octoforge_core/dialogs/store.py when other writers come between, and when a
-- client submits one message twice.
use octo_forge.Base.{
  ℕ, zero, suc, ◌+◌, ◌≤◌, ◌<◌, String, true, Option, some, [], ◌∷◌, ◌++◌, ◌==◌, any, Result, ok,
  err, ◌≡◌, ◌≢◌, refl, sym, ◌∙◌, arith, inl, inr, Bool-cases,
}
use octo_forge.Domain.{ChatMessage}
use octo_forge.Dialogs.Messages.{MessageRow, Messages, Spent, to_chat_message, new_row, max_seq}
use octo_forge.Dialogs.Log.{
  conflicts, insert, IntegrityError, unique_violation, Race, attempt_row, append_outcome,
  append_attempts, append, find_by_client_id,
}
use octo_forge.Dialogs.Columns.{stored_as}
use octo_forge.Dialogs.Appending.{IsFresh, IsUnsent}

-- what an append answers from attempt `k` on: the outcome of the first attempt that breaks no
-- constraint, or the violation of the fifth one
pub data Answered (race : Race) (d : String) (message : ChatMessage) (usage : Option Spent)
    (client : Option String) : ℕ → Result IntegrityError (String × Messages) → Type 0 where
  inserted :
      (k : ℕ) (rows : Messages)
      → insert (attempt_row race d message usage client k) (race.stored k) ≡ ok rows
      → Answered race d message usage client k (ok (race.row_id k, rows))
  raised :
      (k : ℕ) (e : IntegrityError)
      → k ≡ 4
      → insert (attempt_row race d message usage client k) (race.stored k) ≡ err e
      → Answered race d message usage client k (err e)
  retried :
      (k : ℕ) (e : IntegrityError) (answer : Result IntegrityError (String × Messages))
      → k < 4
      → insert (attempt_row race d message usage client k) (race.stored k) ≡ err e
      → Answered race d message usage client (k + 1) answer
      → Answered race d message usage client k answer

pub ok≢err {ℓ κ} : {E : Type ℓ} {A : Type κ} {a : A} {e : E} → ok a ≢ err e
ok≢err h = ground (arith, h)

module _ (race : Race) (d : String) (message : ChatMessage) (usage : Option Spent)
    (client : Option String) where
  attempts-Answered :
      (left k : ℕ)
      → left + k ≡ 5
      → k ≤ 4
      → Answered race d message usage client k (append_attempts race d message usage client k left)
  unfolding append_attempts
  attempts-Answered zero k enough within = absurd (omega arith)
  attempts-Answered (suc left) k enough within =
      go (λ more. attempts-Answered left (k + 1) (omega arith) more)
        (insert (attempt_row race d message usage client k) (race.stored k)) refl
    where
      go :
          (k + 1 ≤ 4
            → Answered race d message usage client
                (k + 1)
                (append_attempts race d message usage client (k + 1) left))
          → (o : Result IntegrityError Messages)
          → insert (attempt_row race d message usage client k) (race.stored k) ≡ o
          → Answered race d message usage client k (
              append_outcome
                (race.row_id k)
                (k == 4)
                (append_attempts race d message usage client (k + 1) left)
                o)
      go rest (ok rows) e = inserted k rows e
      go rest (err x) e = elim (Bool-cases (k == 4)) [
        | inl last ↦ rw last (raised k x (ground arith) e)
        | inr on ↦ rw on (retried k x _ (ground arith) e (rest (ground arith)))
      ]

  -- An append answers the outcome of its first attempt that breaks no unique constraint, under that
  -- attempt's id; when all five break one, it raises.
  pub append-Answered : Answered race d message usage client 0 (append race d message usage client)
  unfolding append
  append-Answered = attempts-Answered 5 0 (omega arith) (omega arith)

  -- An attempt that no other writer disturbed: its subquery read no less than the seqs of the table
  -- that it inserts into, its id is free and the client's key is unsent.
  pub record IsUndisturbed (k : ℕ) : Type 0 where
    pub current : max_seq d (race.stored k) ≤ max_seq d (race.seen k)
    pub fresh : IsFresh (race.row_id k) (race.stored k)
    pub unsent : IsUnsent d client (race.stored k)

  -- What a successful append has done in its attempt `k`: one row came to the table, under the id that
  -- is answered and the seq that follows the ones read, and it is read back as the message.
  pub record Stored (k : ℕ) (answer : String × Messages) : Type 0 where
    pub row : MessageRow
    pub answered : answer.0 ≡ race.row_id k
    pub placed : answer.1 ≡ race.stored k ++ row ∷ []
    pub owned : row.dialog_id ≡ d
    pub next_seq : row.seq ≡ max_seq d (race.seen k) + 1
    pub keyed : row.client_message_id ≡ client
    pub read_back : to_chat_message row ≡ ok (stored_as (race.row_id k) message)

-- The key of a client's submit.
sent_conflicts :
    (d key : String) (rows : Messages) (new : MessageRow)
    → new.dialog_id ≡ d
    → new.client_message_id ≡ some key
    → find_by_client_id d key rows ≡ true
    → any (conflicts new) rows ≡ true
unfolding find_by_client_id
sent_conflicts d key [] new here keyed h = absurd (ground (arith, h))
sent_conflicts d key (r ∷ rows) new here keyed h =
    rw here rw keyed ground (arith, sent_conflicts d key rows new here keyed)

insert-sent :
    (race : Race) (d : String) (message : ChatMessage) (usage : Option Spent) (key : String) (k : ℕ)
    → find_by_client_id d key (race.stored k) ≡ true
    → insert (attempt_row race d message usage (some key) k) (race.stored k) ≡ err unique_violation
unfolding insert new_row
insert-sent race d message usage key k h =
    rw
      (sent_conflicts d key (race.stored k) (attempt_row race d message usage (some key) k) refl
        refl h)
      refl

-- A message that is submitted a second time under the client's key raises, and nothing is stored, as
-- long as the first one stays in the dialog.
pub append_rejects :
    (race : Race) (d : String) (message : ChatMessage) (usage : Option Spent) (key : String)
    → ((k : ℕ) → find_by_client_id d key (race.stored k) ≡ true)
    → append race d message usage (some key) ≡ err unique_violation
append_rejects race d message usage key sent =
    go 0 _ (append-Answered race d message usage (some key))
  where
    go :
        (k : ℕ) (answer : Result IntegrityError (String × Messages))
        → Answered race d message usage (some key) k answer
        → answer ≡ err unique_violation
    go k answer (inserted _ rows e) =
        absurd (ok≢err (sym e ∙ insert-sent race d message usage key k (sent k)))
    go k answer (raised _ unique_violation last failed) = refl
    go k answer (retried _ e _ more failed rest) = go (k + 1) answer rest
