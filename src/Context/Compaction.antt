-- ===== src/Context/Compaction.antt =====
-- What one compaction of core/src/octoforge_core/context/compactor.py does to the hot slices of
-- dialogs/store.py.
use octo_forge.Base.{
  select_where, length-take-min, ℕ, zero, suc, ◌≤◌, ◌<◌, min, String, Bool, true, some, List, [],
  ◌∷◌, eq_iff, length, take, drop, get_elem?, get_elem?-take, get_elem?-within, Result, ok, err,
  ◌>>=◌, ◌≡◌, ◌≢◌, refl, sym, ap, ◌∙◌, subst, arith,
}
use octo_forge.Domain.{ReadError, MessageRole, role_of, Dialog, ChatMessage}
use octo_forge.Dialogs.Messages.{MessageRow, Messages, to_chat_message}
use octo_forge.Dialogs.Log.{read_all, rows_after, list_after}
use octo_forge.Dialogs.Unique.{IsLog}
use octo_forge.Tariffs.Limits.{Ledger}
use octo_forge.Context.Reading.{ReadAs, read_as, read_of, length-ReadAs, drop-ReadAs, read_from}
use octo_forge.Context.Store.{
  DialogueSummary, Summaries, ArchivedMessage, summarizes, list_for_dialog, replace_for_dialog,
  highest, max_seq_to, list_hot_slice, to_archived, tail_after,
}
use octo_forge.Context.Segment.{collect, last_of, select_compact_segment}
use octo_forge.Context.Cuts.{IsCut, select-IsCut, last_of-take}
use octo_forge.Context.Sizes.{select_takes}
use octo_forge.Context.Compactor.{
  metered_call, CompactorConfig, Reply, Summarizer, CompactionError, reading, merged, seq_of,
  last_seq, compact_segment, compact, segment_fetch_limit,
}
use octo_forge.Context.Boundary.{select-replaced, select-kept, rows_after-past, rows_after-behind}

-- A move of a dialog's boundary over the first `taken` messages of its hot slice: no other message
-- leaves the slice, the last one stays, and the other dialogs' slices are what they were.
pub record Moved (d : String) (messages : Messages) (before after : Summaries)
    (hot : List ChatMessage) : Type 0 where
  pub taken : ℕ
  pub keeps_last : 0 < length hot → taken < length hot
  pub advances : 3 ≤ length hot → 1 ≤ taken
  pub unchanged : length hot ≡ 0 → after ≡ before
  pub slice : list_hot_slice d messages after ≡ ok (drop taken hot)
  pub others :
      (e : String) → d ≢ e → list_hot_slice e messages after ≡ list_hot_slice e messages before
  pub kept :
      (e : String) → d ≢ e → select_where (summarizes e) after ≡ select_where (summarizes e) before
  pub forward : max_seq_to d before ≤ max_seq_to d after

module _ (d : String) (messages : Messages) (before : Summaries) (hot : List ChatMessage)
    (log : IsLog messages) (listed : list_hot_slice d messages before ≡ ok hot) where
  abbrev rows : Messages
  rows = rows_after d (max_seq_to d before) messages

  hot_read : ReadAs to_chat_message rows hot
  unfolding list_hot_slice list_after
  hot_read = read_as to_chat_message rows hot listed

  boundary-replaced :
      (s : DialogueSummary)
      → summarizes d s ≡ true
      → max_seq_to d (replace_for_dialog d s before) ≡ s.seq_to
  unfolding max_seq_to replace_for_dialog
  boundary-replaced s mine = rw (select-replaced d s before mine) (omega arith)

  boundary-kept :
      (s : DialogueSummary) (e : String)
      → summarizes d s ≡ true
      → d ≢ e
      → max_seq_to e (replace_for_dialog d s before) ≡ max_seq_to e before
  unfolding max_seq_to replace_for_dialog
  boundary-kept s e mine ne = ap highest (select-kept d e s before ne mine)

  kept_summaries :
      (s : DialogueSummary) (e : String)
      → summarizes d s ≡ true
      → d ≢ e
      → select_where (summarizes e) (replace_for_dialog d s before)
        ≡ select_where (summarizes e) before
  unfolding replace_for_dialog
  kept_summaries s e mine ne = select-kept d e s before ne mine

  -- A summary up to one of the rows of the slice.
  Moved-past :
      (s : DialogueSummary) (j : ℕ) (m : MessageRow)
      → summarizes d s ≡ true
      → get_elem? rows j ≡ some m
      → s.seq_to ≡ m.seq
      → suc j < length hot
      → Moved d messages before (replace_for_dialog d s before) hot
  unfolding list_hot_slice list_after
  Moved-past s j m mine here same lt =
      let boundary : max_seq_to d (replace_for_dialog d s before) ≡ m.seq =
        boundary-replaced s mine ∙ same in
      record {
        taken = suc j;
        keeps_last = λ _. lt;
        advances = λ _. omega arith;
        unchanged = λ none_. absurd (omega (arith, none_, lt));
        slice =
            ap (λ b. list_after d b messages) boundary
            ∙ ap (read_all to_chat_message)
                (rows_after-behind d (max_seq_to d before) j m messages log here)
            ∙ read_of to_chat_message (drop (suc j) rows) (drop (suc j) hot)
                (drop-ReadAs to_chat_message (suc j) rows hot hot_read);
        others = λ e ne. ap (λ b. list_after e b messages) (boundary-kept s e mine ne);
        kept = λ e ne. kept_summaries s e mine ne;
        forward =
            rw boundary (ground (arith, rows_after-past d (max_seq_to d before) j m messages here));
      }

abbrev summaries_of : Summaries → Result CompactionError (Summaries × Ledger) → Summaries
summaries_of kept (ok r) = r.0
summaries_of kept (err e) = kept

abbrev seq_or : ℕ → Result ReadError ArchivedMessage → ℕ
seq_or n (ok a) = a.seq
seq_or n (err e) = n

archived_seq : (x : MessageRow) (a : ArchivedMessage) → to_archived x ≡ ok a → x.seq ≡ a.seq
unfolding to_archived
archived_seq x a e = go (role_of x.role) ∙ ap (seq_or x.seq) e
  where
    go :
        (o : Result ReadError MessageRole)
        → x.seq
          ≡ seq_or x.seq (
              o >>= λ role.
              ok (record {
                seq = x.seq;
                role = role;
                content = x.content;
                created_at = x.created_at;
              }))
    go (ok role) = refl
    go (err z) = refl

module _ (d : String) (messages : Messages) (before : Summaries) (hot : List ChatMessage)
    (tail : List ArchivedMessage) (log : IsLog messages)
    (listed : list_hot_slice d messages before ≡ ok hot)
    (fetched : tail_after d (max_seq_to d before) (some segment_fetch_limit) messages
      ≡ ok tail) where
  tail_read :
      ReadAs to_archived
        (take segment_fetch_limit (rows_after d (max_seq_to d before) messages))
        tail
  unfolding tail_after
  tail_read = read_as to_archived _ tail fetched

  length-tail : length tail ≡ min segment_fetch_limit (length hot)
  length-tail =
      length-ReadAs to_archived _ tail tail_read
      ∙ length-take-min segment_fetch_limit (rows_after d (max_seq_to d before) messages)
      ∙ ap (min segment_fetch_limit)
          (sym (length-ReadAs to_chat_message _ hot (hot_read d messages before hot log listed)))

  -- a summary of a cut of the tail
  Moved-cut :
      (s : DialogueSummary) (first : ArchivedMessage) (rest : List ArchivedMessage)
      → IsCut tail (first ∷ rest)
      → summarizes d s ≡ true
      → s.seq_to ≡ last_seq first rest
      → Moved d messages before (replace_for_dialog d s before) hot
  Moved-cut s first rest cut mine upto = go cut.place cut.within cut.prefix
    where
      go :
          (k : ℕ)
          → k < length tail
          → (first ∷ rest) ≡ take k tail
          → Moved d messages before (replace_for_dialog d s before) hot
      go zero lt same = absurd (ground (arith, same))
      go (suc j) lt same =
          let last = get_elem?-within tail j (omega (arith, lt)) in
          let x = read_from to_archived _ tail tail_read j last.0 last.1 in
          Moved-past d messages before hot log listed s j x.0 mine
            (get_elem?-take segment_fetch_limit _ j x.0 x.1)
            (upto
              ∙ ap (seq_of first.seq)
                  (ap last_of same ∙ last_of-take j tail (omega (arith, lt)) ∙ last.1)
              ∙ sym (archived_seq x.0 last.0 x.2))
            (omega (arith, lt, length-tail))

takes_from :
    (tail : List ArchivedMessage) (target : ℕ) (first : ArchivedMessage)
    (rest : List ArchivedMessage)
    → select_compact_segment tail target ≡ first ∷ rest
    → 0 < length tail
unfolding select_compact_segment collect
takes_from [] target first rest e = absurd (ground (arith, e))
takes_from (m ∷ tail) target first rest e = omega arith

module _ (dialog : Dialog) (messages : Messages) (before : Summaries) (hot : List ChatMessage)
    (tail : List ArchivedMessage) (log : IsLog messages)
    (listed : list_hot_slice dialog.id messages before ≡ ok hot)
    (fetched : tail_after dialog.id
        (max_seq_to dialog.id before)
        (some segment_fetch_limit)
        messages
      ≡ ok tail)
    (complete : Summarizer) (metered : Bool) (id : String) (now target : ℕ) (ledger : Ledger)
    (after : Summaries × Ledger) where
  -- the steps of a compaction behind its read of the tail
  compacted_segment :
      (segment : List ArchivedMessage)
      → select_compact_segment tail target ≡ segment
      → compact_segment complete metered dialog id now segment before ledger ≡ ok after
      → Moved dialog.id messages before after.0 hot
  compacted_segment [] chosen done =
      subst (λ r. Moved dialog.id messages before r hot) (ap (summaries_of before) done)
        (record {
          taken = 0;
          keeps_last = λ lt. lt;
          advances = λ long. absurd (
              omega (
                arith,
                select_takes tail target (
                    omega (
                      arith,
                      long,
                      length-tail dialog.id messages before hot tail log listed fetched,
                    )),
                ap length chosen,
              ));
          unchanged = λ _. refl;
          slice = listed;
          others = λ e ne. refl;
          kept = λ e ne. refl;
          forward = omega arith;
        })
  compacted_segment (first ∷ rest) chosen done =
      go (complete (list_for_dialog dialog.id before) (first ∷ rest)) done
    where
      go :
          (o : Result CompactionError Reply)
          → (o >>= λ reply. ok (
            replace_for_dialog dialog.id
                (merged dialog id now first rest (list_for_dialog dialog.id before) reply)
                before,
            metered_call metered dialog now reply.usage ledger,
          ))
            ≡ ok after
          → Moved dialog.id messages before after.0 hot
      go (err z) e = absurd (ground (arith, e))
      go (ok reply) e =
          subst (λ r. Moved dialog.id messages before r hot) (ap (summaries_of before) e)
            (Moved-cut dialog.id messages before hot tail log listed fetched
              (merged dialog id now first rest (list_for_dialog dialog.id before) reply) first rest
              (subst (IsCut tail) chosen
                (select-IsCut tail target (takes_from tail target first rest chosen)))
              (ground (arith, eq_iff dialog.id dialog.id)) refl)

-- A compaction that goes through moves the boundary of its dialog over the oldest messages of the hot
-- slice and changes nothing else of what is read: the messages behind them stay in their order, the last one
-- is never taken, from three messages on at least one is, and the other dialogs' slices are what they
-- were. The log is assumed to keep its unique constraints and its stored roles to be readable.
pub compact-Moved :
    (complete : Summarizer) (config : CompactorConfig) (metered : Bool) (dialog : Dialog)
    (id : String) (now : ℕ) (messages : Messages) (before : Summaries) (ledger : Ledger)
    (after : Summaries × Ledger) (hot : List ChatMessage)
    → IsLog messages
    → list_hot_slice dialog.id messages before ≡ ok hot
    → compact complete config metered dialog id now messages before ledger ≡ ok after
    → Moved dialog.id messages before after.0 hot
unfolding compact
compact-Moved complete config metered dialog id now messages before ledger after hot log listed
      done =
    go (tail_after dialog.id (max_seq_to dialog.id before) (some segment_fetch_limit) messages) refl
      done
  where
    go :
        (o : Result ReadError (List ArchivedMessage))
        → tail_after dialog.id (max_seq_to dialog.id before) (some segment_fetch_limit) messages ≡ o
        → (reading o >>= λ tail.
            compact_segment complete metered dialog id now
              (select_compact_segment tail config.compact_target_chars)
              before
              ledger)
          ≡ ok after
        → Moved dialog.id messages before after.0 hot
    go (err z) fetched e = absurd (ground (arith, e))
    go (ok tail) fetched e =
        compacted_segment dialog messages before hot tail log listed fetched complete metered id now
          config.compact_target_chars ledger after
          (select_compact_segment tail config.compact_target_chars) refl e
