-- ===== src/Retention/Seqs.antt =====
-- The seqs of a dialog across appends (core/src/octoforge_core/dialogs/store.py), compactions
-- (context/compactor.py) and sweeps (retention_sweep.py), as the steps of one history of the tables.
use octo_forge.Retention.Kept.{past-sweep}
use octo_forge.Base.{
  length-count, count-order, order_with, any-append, ℕ, ◌+◌, ◌≤◌, String, Bool, true, false, Option,
  none, some, List, [], ◌∷◌, ◌&&◌, ◌⊎◌, str_eq, eq_iff, ltb, leb, length, drop, length-drop, ok,
  any, select_where, delete_where, order_by, ◌≡◌, refl, sym, ap, ◌∙◌, subst, arith, Bool-cases, inl,
  inr,
}
use octo_forge.Domain.{Dialog, ChatMessage}
use octo_forge.Dialogs.Messages.{MessageRow, Messages, Spent, max_seq, new_row, to_chat_message}
use octo_forge.Dialogs.Log.{of_dialog, conflicts, append, list_after}
use octo_forge.Dialogs.Appending.{alone}
use octo_forge.Dialogs.Unique.{append_shape, IsLog, append-IsLog}
use octo_forge.Tariffs.Limits.{Ledger}
use octo_forge.Context.Store.{Summaries, summarizes, highest, max_seq_to, list_hot_slice}
use octo_forge.Context.Compactor.{Summarizer, CompactorConfig, compact}
use octo_forge.Context.Compaction.{Moved, compact-Moved}
use octo_forge.Context.Reading.{read_as, length-ReadAs}
use octo_forge.Retention.Sweep.{message_goes, swept, cutoff}

-- the tables of the log that these steps share
pub record LogTables : Type 0 where
  pub messages : Messages
  pub summaries : Summaries

-- One step of the tables: an append, a compaction of a slice that can be read, or a sweep of the
-- messages. A step that raises leaves the tables as they were.
pub data Step : LogTables → LogTables → Type 0 where
  appended :
      (s : LogTables) (ids : ℕ → String) (now : ℕ) (d : String) (message : ChatMessage)
      (usage : Option Spent) (client : Option String) (r : String × Messages)
      → append (alone ids s.messages now) d message usage client ≡ ok r
      → Step s (record { messages = r.1; summaries = s.summaries })
  compacted :
      (s : LogTables) (complete : Summarizer) (config : CompactorConfig) (metered : Bool)
      (dialog : Dialog) (id : String) (now : ℕ) (ledger : Ledger) (hot : List ChatMessage)
      (after : Summaries × Ledger)
      → list_hot_slice dialog.id s.messages s.summaries ≡ ok hot
      → compact complete config metered dialog id now s.messages s.summaries ledger ≡ ok after
      → Step s (record { messages = s.messages; summaries = after.0 })
  aged :
      (s : LogTables) (days : Option ℕ) (now : ℕ)
      → Step s (record {
        messages = swept (message_goes s.summaries) (cutoff now days) s.messages;
        summaries = s.summaries;
      })

-- The tables that a history of such steps makes of empty ones.
pub data Reached : LogTables → Type 0 where
  empty : Reached (record { messages = []; summaries = [] })
  after : (s t : LogTables) → Reached s → Step s t → Reached t

-- The row is of the dialog, past a seq.
abbrev pub past : String → ℕ → MessageRow → Bool
past d b r = of_dialog d r && ltb b r.seq

-- The dialog has no summary, or a message past what its summaries cover.
abbrev pub IsAhead : String → LogTables → Type 0
IsAhead d s =
    (select_where (summarizes d) s.summaries ≡ [])
    ⊎ (any (past d (max_seq_to d s.summaries)) s.messages ≡ true)

any-select :
    (p : MessageRow → Bool) (rows : Messages) → any p rows ≡ leb 1 (length (select_where p rows))
any-select p [] = ground arith
any-select p (r ∷ rows) = ground (arith, any-select p rows)

length-order :
    (before : MessageRow → MessageRow → Bool) (rows : Messages)
    → length (order_with before rows) ≡ length rows
length-order before rows = omega (
  arith,
  length-count (order_with before rows),
  count-order before (λ _. true) rows,
  length-count rows,
)

any-delete :
    (p q : MessageRow → Bool) (rows : Messages)
    → any p rows ≡ false
    → any p (delete_where q rows) ≡ false
any-delete p q [] h = refl
any-delete p q (r ∷ rows) h = ground (arith, any-delete p q rows)

delete-IsLog : (q : MessageRow → Bool) (rows : Messages) → IsLog rows → IsLog (delete_where q rows)
delete-IsLog q [] h = tt
delete-IsLog q (r ∷ rows) h = elim (Bool-cases (q r)) [
  | inl goes ↦ rw goes (delete-IsLog q rows h.1)
  | inr stays ↦ rw stays (any-delete (conflicts r) q rows h.0, delete-IsLog q rows h.1)
]

swept-IsLog :
    (goes : ℕ → MessageRow → Bool) (before : Option ℕ) (rows : Messages)
    → IsLog rows
    → IsLog (swept goes before rows)
swept-IsLog goes none rows h = h
swept-IsLog goes (some n) rows h = delete-IsLog (goes n) rows h

-- A slice that has a message left has a row past the boundary.
read_past :
    (d : String) (messages : Messages) (summaries : Summaries) (hot : List ChatMessage)
    → list_hot_slice d messages summaries ≡ ok hot
    → 1 ≤ length hot
    → any (past d (max_seq_to d summaries)) messages ≡ true
unfolding list_hot_slice list_after
read_past d messages summaries hot listed long =
    let rows = select_where (past d (max_seq_to d summaries)) messages in
    ground (
      arith,
      any-select (past d (max_seq_to d summaries)) messages,
      length-order (λ r s. leb r.seq s.seq) rows,
      length-ReadAs to_chat_message (order_by (λ r. r.seq) rows) hot
          (read_as to_chat_message (order_by (λ r. r.seq) rows) hot listed),
    )

boundary_of :
    (d : String) (s t : Summaries)
    → select_where (summarizes d) s ≡ select_where (summarizes d) t
    → max_seq_to d s ≡ max_seq_to d t
unfolding max_seq_to
boundary_of d s t same = ap highest same

-- A state with the same summaries of the dialog, and all its messages past them still there.
IsAhead-with :
    (d : String) (s t : LogTables)
    → select_where (summarizes d) t.summaries ≡ select_where (summarizes d) s.summaries
    → (any (past d (max_seq_to d s.summaries)) s.messages ≡ true
        → any (past d (max_seq_to d s.summaries)) t.messages ≡ true)
    → IsAhead d s
    → IsAhead d t
IsAhead-with d s t same more (inl none_) = inl (same ∙ none_)
IsAhead-with d s t same more (inr ahead) =
    inr (rw (boundary_of d t.summaries s.summaries same) (more ahead))

Moved-IsAhead :
    (d : String) (messages : Messages) (before after_ : Summaries) (hot : List ChatMessage)
    → Moved d messages before after_ hot
    → IsAhead d (record { messages = messages; summaries = before })
    → IsAhead d (record { messages = messages; summaries = after_ })
Moved-IsAhead d messages before after_ [] m h =
    subst (λ x. IsAhead d (record { messages = messages; summaries = x })) (sym (m.unchanged refl))
      h
Moved-IsAhead d messages before after_ (c ∷ hot) m h = inr (
    read_past d messages after_ (drop m.taken (c ∷ hot)) m.slice
      (omega (arith, m.keeps_last (omega arith), length-drop m.taken (c ∷ hot))))

Step-IsAhead :
    (d : String) (s t : LogTables) → Step s t → IsLog s.messages → IsAhead d s → IsAhead d t
Step-IsAhead d s t (appended _ ids now e message usage client r done) log h =
    IsAhead-with d s (record { messages = r.1; summaries = s.summaries }) refl
      (λ ahead. rw (append_shape ids s.messages now e message usage client r done) (
        rw
          (any-append (past d (max_seq_to d s.summaries)) s.messages
            (new_row r.0 e (max_seq e s.messages + 1) message usage client now ∷ []))
          (rw ahead refl)))
      h
Step-IsAhead d s t (compacted _ complete config metered dialog id now ledger hot after_ listed done)
      log h =
    let m =
      compact-Moved complete config metered dialog id now s.messages s.summaries ledger after_ hot
        log listed done in
    elim (Bool-cases (str_eq dialog.id d)) [
      | inl mine ↦
          let same : dialog.id ≡ d = (eq_iff dialog.id d).0 mine in
          subst (λ e. IsAhead e (record { messages = s.messages; summaries = after_.0 })) same
            (Moved-IsAhead dialog.id s.messages s.summaries after_.0 hot m
              (subst (λ e. IsAhead e s) (sym same) h))
      | inr other ↦
          IsAhead-with d s (record { messages = s.messages; summaries = after_.0 })
            (m.kept d (ground (arith, other, eq_iff dialog.id d))) (λ ahead. ahead) h
    ]
Step-IsAhead d s t (aged _ days now) log h =
    IsAhead-with d s _ refl
      (λ ahead. ground (
        arith,
        ahead,
        any-select (past d (max_seq_to d s.summaries)) s.messages,
        any-select (past d (max_seq_to d s.summaries))
            (swept (message_goes s.summaries) (cutoff now days) s.messages),
        ap length (past-sweep s.summaries (cutoff now days) d s.messages),
      ))
      h

Step-IsLog : (s t : LogTables) → Step s t → IsLog s.messages → IsLog t.messages
Step-IsLog s t (appended _ ids now d message usage client r done) log =
    append-IsLog (alone ids s.messages now) d message usage client r (λ k. log) done
Step-IsLog s t (compacted _ complete config metered dialog id now ledger hot after_ listed done)
      log =
    log
Step-IsLog s t (aged _ days now) log =
    swept-IsLog (message_goes s.summaries) (cutoff now days) s.messages log

-- Whatever appends, compactions and sweeps a log has gone through, each behind the other, no two of its
-- rows share an id, a seq of a dialog or a client's key, and each dialog that has a summary still has a
-- message past what its summaries cover. The slices that were compacted are assumed to be readable.
pub Reached-IsAhead : (s : LogTables) → Reached s → IsLog s.messages × ((d : String) → IsAhead d s)
Reached-IsAhead s empty = (tt, λ d. inl refl)
Reached-IsAhead s (after r _ before step) =
    let h = Reached-IsAhead r before in
    (Step-IsLog r s step h.0, λ d. Step-IsAhead d r s step h.0 (h.1 d))
