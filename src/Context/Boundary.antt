-- ===== src/Context/Boundary.antt =====
-- A compaction of core/src/octoforge_core/context/compactor.py against the reads that start at its
-- boundary: the hot slice of dialogs/store.py and the tail of context/store.py.
use octo_forge.Base.{
  IsApart, IsAscending, leb, select-keeps, ℕ, suc, String, Bool, true, some, [], ◌∷◌, ◌++◌, ◌&&◌,
  eq_iff, ltb, drop, get_elem?, select_where, delete_where, order_by, All-get_elem?, ◌≡◌, ◌≢◌, refl,
  sym, ap, ◌∙◌, subst, arith, Bool-cases, inl, inr, select-select, order-select, select-All,
  order-All, order-IsAscending, select-behind,
}
use octo_forge.Dialogs.Messages.{MessageRow, Messages}
use octo_forge.Dialogs.Log.{of_dialog, rows_after}
use octo_forge.Dialogs.Unique.{IsLog, IsLog→IsApart}
use octo_forge.Context.Store.{DialogueSummary, Summaries, summarizes}

module _ (d : String) where
  pub select-replaced :
      (s : DialogueSummary) (rows : Summaries)
      → summarizes d s ≡ true
      → select_where (summarizes d) (delete_where (summarizes d) rows ++ s ∷ []) ≡ s ∷ []
  select-replaced s [] mine = rw mine refl
  select-replaced s (r ∷ rows) mine = ground (arith, select-replaced s rows mine)

  pub select-kept :
      (e : String) (s : DialogueSummary) (rows : Summaries)
      → d ≢ e
      → summarizes d s ≡ true
      → select_where (summarizes e) (delete_where (summarizes d) rows ++ s ∷ [])
        ≡ select_where (summarizes e) rows
  select-kept e s [] ne mine = ground (arith, eq_iff s.dialog_id d, eq_iff s.dialog_id e)
  select-kept e s (r ∷ rows) ne mine =
      ground (arith, eq_iff r.dialog_id d, eq_iff r.dialog_id e, select-kept e s rows ne mine)

  select-IsApart :
      (p : MessageRow → Bool) (rows : Messages)
      → IsApart (λ r. r.seq) rows
      → IsApart (λ r. r.seq) (select_where p rows)
  select-IsApart p [] h = tt
  select-IsApart p (r ∷ rows) h = elim (Bool-cases (p r)) [
    | inl kept ↦ rw kept (select-keeps (λ s. s.seq ≢ r.seq) p rows h.0, select-IsApart p rows h.1)
    | inr left ↦ rw left (select-IsApart p rows h.1)
  ]

  rows_after-IsAscending :
      (b : ℕ) (messages : Messages)
      → IsLog messages
      → IsAscending (λ r. r.seq) (rows_after d b messages)
  rows_after-IsAscending b messages log =
      order-IsAscending (λ r. r.seq) (select_where (λ r. of_dialog d r && ltb b r.seq) messages)
        (subst (IsApart (λ r. r.seq))
          (sym (
            select-select (of_dialog d) (λ r. ltb b r.seq) (λ r. of_dialog d r && ltb b r.seq)
              messages (λ r. refl)))
          (select-IsApart (λ r. ltb b r.seq) (select_where (of_dialog d) messages)
            (IsLog→IsApart d messages log)))

  -- A row that is read past a seq is of the dialog and past it.
  pub rows_after-past :
      (b j : ℕ) (m : MessageRow) (messages : Messages)
      → get_elem? (rows_after d b messages) j ≡ some m
      → (of_dialog d m && ltb b m.seq) ≡ true
  rows_after-past b j m messages here =
      All-get_elem? (λ r. (of_dialog d r && ltb b r.seq) ≡ true) (rows_after d b messages) j m
        (order-All (λ r. (of_dialog d r && ltb b r.seq) ≡ true) (λ r s. leb r.seq s.seq)
          (select_where (λ r. of_dialog d r && ltb b r.seq) messages)
          (select-All (λ r. of_dialog d r && ltb b r.seq) messages))
        here

  -- In a log, the rows past the seq of one of the rows are the rows behind it.
  pub rows_after-behind :
      (b j : ℕ) (m : MessageRow) (messages : Messages)
      → IsLog messages
      → get_elem? (rows_after d b messages) j ≡ some m
      → rows_after d m.seq messages ≡ drop (suc j) (rows_after d b messages)
  rows_after-behind b j m messages log here =
      let past = rows_after-past b j m messages here in
      ap (order_by (λ r. r.seq)) (
        select-select (λ r. of_dialog d r && ltb b r.seq) (λ r. ltb m.seq r.seq)
          (λ r. of_dialog d r && ltb m.seq r.seq) messages (λ r. ground (arith, past)))
      ∙ order-select (λ r. r.seq) (λ r. ltb m.seq r.seq)
          (select_where (λ r. of_dialog d r && ltb b r.seq) messages)
      ∙ select-behind (λ r. r.seq) (rows_after d b messages) j m
          (rows_after-IsAscending b messages log) here
