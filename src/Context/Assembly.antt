-- ===== src/Context/Assembly.antt =====
-- What a run's context holds: `assemble` of core/src/octoforge_core/context/compactor.py.
use octo_forge.Base.{
  drop-all, ℕ, ◌-◌, ◌≤◌, max, min, String, Bool, Option, none, some, List, [], ◌∷◌, ◌==◌, leb, ltb,
  ◌++◌, ◌+◌, ◌&&◌, ◌∙◌, ok, length-select, length-append, length, drop, length-drop, select_where,
  insert_with, order_with, ◌≡◌, refl, sym, ap, arith, Bool-cases, inl, inr,
}
use octo_forge.Domain.{Dialog, ChatMessage}
use octo_forge.Context.Store.{
  DialogueSummary, Summaries, summarizes, list_for_dialog, highest, max_seq_to, count_hot_tail,
  list_hot_slice,
}
use octo_forge.Dialogs.Messages.{Messages, to_chat_message}
use octo_forge.Dialogs.Log.{of_dialog, list_after}
use octo_forge.Context.Reading.{read_as, length-ReadAs}
use octo_forge.Context.Compactor.{
  CompactorConfig, Reads, tail_of, topics_block, summaries_used, assemble,
}

highest-insert :
    (before : DialogueSummary → DialogueSummary → Bool) (s : DialogueSummary) (rows : Summaries)
    → highest (insert_with before s rows) ≡ max s.seq_to (highest rows)
highest-insert before s [] = refl
highest-insert before s (r ∷ rows) = ground (arith, highest-insert before s rows)

highest-order :
    (before : DialogueSummary → DialogueSummary → Bool) (rows : Summaries)
    → highest (order_with before rows) ≡ highest rows
highest-order before [] = refl
highest-order before (r ∷ rows) =
    omega (arith, highest-insert before r (order_with before rows), highest-order before rows)

highest-list :
    (d : String) (rows : Summaries) → highest (list_for_dialog d rows) ≡ max_seq_to d rows
unfolding list_for_dialog max_seq_to
highest-list d rows =
    highest-order (λ s t. leb s.seq_from t.seq_from) (select_where (summarizes d) rows)

-- the summaries that a context carries
abbrev pub covered : Option Summaries → Summaries
covered none = []
covered (some summaries) = summaries

covered-topics : (summaries : Summaries) → covered (topics_block summaries) ≡ summaries
covered-topics [] = refl
covered-topics (s ∷ summaries) = refl

tail_of-length :
    {A : Type 0} (history : List A) (n : ℕ) → length (tail_of history n) ≡ min n (length history)
unfolding tail_of
tail_of-length history n =
    ground (arith, length-drop (length history - min n (length history)) history)

tail_of-drop :
    {A : Type 0} (history : List A) (n : ℕ) → tail_of history n ≡ drop (length history - n) history
unfolding tail_of
tail_of-drop history n =
    let same : length history - min n (length history) ≡ length history - n = omega arith in
    elim (Bool-cases (min n (length history) == 0)) [
      | inl nothing ↦
          rw nothing (sym (drop-all (length history - n) history (ground (arith, nothing))))
      | inr some_ ↦ rw some_ (ap (λ k. drop k history) same)
    ]

used-covers :
    (d : String) (reads : Reads)
    → (count_hot_tail d reads.counted_messages reads.counted_summaries).1
      ≤ max_seq_to d reads.summaries_again
    → (count_hot_tail d reads.counted_messages reads.counted_summaries).1
      ≤ highest (summaries_used d reads)
used-covers d reads forward =
    elim (Bool-cases (
      (count_hot_tail d reads.counted_messages reads.counted_summaries).1
      == highest (list_for_dialog d reads.summaries))) [
        | inl same ↦ rw same (ground (arith, same))
        | inr moved ↦ rw moved (omega (arith, forward, highest-list d reads.summaries_again))
      ]

length-insert :
    {A : Type 0} (before : A → A → Bool) (r : A) (rows : List A)
    → length (insert_with before r rows) ≡ length rows + 1
length-insert before r [] = refl
length-insert before r (s ∷ rows) = ground (arith, length-insert before r rows)

length-order :
    {A : Type 0} (before : A → A → Bool) (rows : List A)
    → length (order_with before rows) ≡ length rows
length-order before [] = refl
length-order before (r ∷ rows) =
    omega (arith, length-insert before r (order_with before rows), length-order before rows)

-- The hot slice of a dialog has as many messages as are counted.
hot_slice-length :
    (d : String) (messages : Messages) (summaries : Summaries) (hot : List ChatMessage)
    → list_hot_slice d messages summaries ≡ ok hot
    → (count_hot_tail d messages summaries).0 ≡ length hot
unfolding count_hot_tail list_hot_slice list_after
hot_slice-length d messages summaries hot h =
    sym (
      length-order (λ r s. leb r.seq s.seq)
        (select_where (λ r. of_dialog d r && ltb (max_seq_to d summaries) r.seq) messages)
      ∙ length-select (λ r. of_dialog d r && ltb (max_seq_to d summaries) r.seq) messages)
    ∙ sym (length-ReadAs to_chat_message _ hot (read_as to_chat_message _ hot h))

drop-front : {A : Type 0} (xs ys : List A) → drop (length xs) (xs ++ ys) ≡ ys
drop-front [] ys = refl
drop-front (x ∷ xs) ys = drop-front xs ys

drop-last :
    {A : Type 0} (xs ys : List A) (n : ℕ)
    → n ≡ length ys
    → drop (length (xs ++ ys) - n) (xs ++ ys) ≡ ys
drop-last xs ys n e =
    let front : length (xs ++ ys) - n ≡ length xs = omega (arith, length-append xs ys, e) in
    ap (λ k. drop k (xs ++ ys)) front ∙ drop-front xs ys

-- A run's context leaves no gap. Where the narrative ends with what the store reads of the dialog past
-- the boundary that it counts against, the messages of the context are exactly those, the first one
-- past the boundary among them, and its summaries cover everything up to that boundary, also when a
-- compaction commits between the reads. The boundary is assumed to have moved forward, if at all, by
-- the second read of the summaries.
pub assemble_no_gap :
    (config : CompactorConfig) (dialog : Dialog) (old hot : List ChatMessage) (reads : Reads)
    → list_hot_slice dialog.id reads.counted_messages reads.counted_summaries ≡ ok hot
    → max_seq_to dialog.id reads.counted_summaries ≤ max_seq_to dialog.id reads.summaries_again
    → (max_seq_to dialog.id reads.counted_summaries
        ≤ highest (covered (assemble config dialog (old ++ hot) reads).0.topics))
      × ((assemble config dialog (old ++ hot) reads).0.messages ≡ hot)
      × ((assemble config dialog (old ++ hot) reads).0.snapshot_len ≡ length (old ++ hot))
unfolding assemble count_hot_tail
assemble_no_gap config dialog old hot reads stored forward = (
  rw (covered-topics (summaries_used dialog.id reads)) (used-covers dialog.id reads forward),
  tail_of-drop (old ++ hot)
        (count_hot_tail dialog.id reads.counted_messages reads.counted_summaries).0
      ∙ drop-last old hot _
          (hot_slice-length dialog.id reads.counted_messages reads.counted_summaries hot stored),
  refl,
)
