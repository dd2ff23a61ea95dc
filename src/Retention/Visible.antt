-- ===== src/Retention/Visible.antt =====
-- A message that is appended to a log after any history of appends, compactions and sweeps
-- (core/src/octoforge_core/dialogs/store.py, context/compactor.py and retention_sweep.py).
use octo_forge.Base.{
  ℕ, ◌+◌, ◌≤◌, ◌<◌, String, true, Option, List, [], ◌∷◌, ◌++◌, eq_iff, any, Result, ok, ◌>>=◌,
  select_where, All, All-weaken, ◌≡◌, refl, ap, ◌∙◌, arith, Bool-cases, inl, inr, select-append,
  order-append,
}
use octo_forge.Domain.{ReadError, ChatMessage}
use octo_forge.Dialogs.Messages.{MessageRow, Messages, Spent, max_seq, new_row, to_chat_message}
use octo_forge.Dialogs.Log.{append, read_all, rows_after, list_after}
use octo_forge.Dialogs.Columns.{stored_as, message_round_trip}
use octo_forge.Dialogs.Appending.{alone, read_all-append}
use octo_forge.Dialogs.Unique.{append_shape}
use octo_forge.Context.Store.{max_seq_to, list_hot_slice}
use octo_forge.Retention.Seqs.{LogTables, Reached, IsAhead, past, Reached-IsAhead}

past-le :
    (d : String) (b : ℕ) (rows : Messages)
    → All (λ r. r.seq ≤ max_seq d rows) (select_where (past d b) rows)
past-le d b [] = tt
past-le d b (r ∷ rows) = elim (Bool-cases (past d b r)) [
  | inl in_ ↦ rw in_ (
    ground (arith, in_),
    All-weaken (λ x le. omega (arith, le)) (select_where (past d b) rows) (past-le d b rows),
  )
  | inr out ↦
      rw out
        (All-weaken (λ x le. omega (arith, le)) (select_where (past d b) rows) (past-le d b rows))
]

past-below :
    (d : String) (b : ℕ) (rows : Messages) → any (past d b) rows ≡ true → b < max_seq d rows
past-below d b [] h = absurd (ground (arith, h))
past-below d b (r ∷ rows) h = ground (arith, past-below d b rows)

-- What the summaries cover ends before the next seq.
boundary-below :
    (d : String) (s : LogTables) → IsAhead d s → max_seq_to d s.summaries < max_seq d s.messages + 1
unfolding max_seq_to
boundary-below d s (inl none_) = rw none_ (omega arith)
boundary-below d s (inr ahead) =
    omega (arith, past-below d (max_seq_to d s.summaries) s.messages ahead)

rows_after-append :
    (d : String) (b : ℕ) (rows : Messages) (r : MessageRow)
    → past d b r ≡ true
    → max_seq d rows ≤ r.seq
    → rows_after d b (rows ++ r ∷ []) ≡ rows_after d b rows ++ r ∷ []
rows_after-append d b rows r in_ le = rw (select-append (past d b) rows (r ∷ [])) (
    rw in_ (
      order-append (λ x. x.seq) (select_where (past d b) rows) r
        (All-weaken (λ x below. omega (arith, below, le)) (select_where (past d b) rows)
          (past-le d b rows))))

joined :
    {x : Result ReadError (List ChatMessage)} {y : Result ReadError ChatMessage}
    {ms : List ChatMessage} {m : ChatMessage}
    → x ≡ ok ms
    → y ≡ ok m
    → (x >>= λ items. y >>= λ b. ok (items ++ b ∷ [])) ≡ ok (ms ++ m ∷ [])
joined p q = rw p (rw q refl)

-- After any history of appends, compactions and sweeps, each behind the other, a message whose append goes
-- through is read back at the end of its dialog's hot slice: its seq is never one that a summary covers
-- already. The slice is assumed to be readable, and the append to be the only writer.
pub append_visible :
    (s : LogTables) (ids : ℕ → String) (now : ℕ) (d : String) (message : ChatMessage)
    (usage : Option Spent) (client : Option String) (r : String × Messages) (hot : List ChatMessage)
    → Reached s
    → list_hot_slice d s.messages s.summaries ≡ ok hot
    → append (alone ids s.messages now) d message usage client ≡ ok r
    → list_hot_slice d r.1 s.summaries ≡ ok (hot ++ stored_as r.0 message ∷ [])
unfolding list_hot_slice list_after new_row
append_visible s ids now d message usage client r hot reached listed done =
    let b = max_seq_to d s.summaries in
    let row = new_row r.0 d (max_seq d s.messages + 1) message usage client now in
    let below = boundary-below d s ((Reached-IsAhead s reached).1 d) in
    ap (λ rows. read_all to_chat_message (rows_after d b rows))
      (append_shape ids s.messages now d message usage client r done)
    ∙ ap (read_all to_chat_message)
        (rows_after-append d b s.messages row (ground (arith, eq_iff d d, below)) (omega arith))
    ∙ read_all-append to_chat_message (rows_after d b s.messages) row
    ∙ joined listed (message_round_trip r.0 d (max_seq d s.messages + 1) message usage client now)
