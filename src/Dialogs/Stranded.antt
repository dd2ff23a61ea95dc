-- ===== src/Dialogs/Stranded.antt =====
-- What the recovery of a dialog leaves behind: `reopen_and_list_stranded` and the list of stranded
-- dialogs, from which the recovery starts.
use octo_forge.Base.{
  ℕ, String, Bool, true, not, List, [], ◌∷◌, ◌≡◌, refl, sym, ap, ◌∙◌, ◌&&◌, ◌||◌, str_eq, eq_iff,
  arith, any, map, length, select_where, count_where, touched, count-update, count-select,
  count-order, length-count, ltb, Bool-cases, inl, inr,
}
use octo_forge.Tasks.Memory.{Tasks}
use octo_forge.Dialogs.Exchanges.{
  Exchange, Exchanges, is_open, is_in_progress, has_live_task, is_unowned_open, distinct,
  list_stranded_dialog_ids, is_running_in, reopened, reopen_and_list_stranded,
}

-- open, without a pending or running task
abbrev pub is_waiting : String → Tasks → Exchange → Bool
is_waiting dialog tasks e = str_eq e.dialog_id dialog && is_unowned_open tasks e

-- open, or in progress, without a pending or running task
abbrev pub is_stranded : String → Tasks → Exchange → Bool
is_stranded dialog tasks e =
    str_eq e.dialog_id dialog
    && ((is_open e.status || is_in_progress e.status) && not (has_live_task tasks e))

-- The stranded exchanges, as many as the table then has of that kind.
count-stranded :
    (dialog : String) (now : ℕ) (tasks : Tasks) (rows : Exchanges) (q : Exchange → Bool)
    → count_where q (reopen_and_list_stranded dialog now tasks rows).1.0
      ≡ count_where
          (λ e. is_waiting dialog tasks e && q e)
          (reopen_and_list_stranded dialog now tasks rows).1.1
unfolding reopen_and_list_stranded
count-stranded dialog now tasks rows q =
    count-order _ q _ ∙ count-select (λ e. str_eq e.dialog_id dialog && is_unowned_open tasks e) q _

-- The recovery of a dialog leaves none of its exchanges in progress, and changes no exchange of
-- another dialog, and none that is not in progress.
pub reopen_exact :
    (dialog : String) (now : ℕ) (tasks : Tasks) (rows : Exchanges)
    → (count_where (is_running_in dialog) (reopen_and_list_stranded dialog now tasks rows).1.1 ≡ 0)
      × ((q : Exchange → Bool)
          → count_where
              (λ e. not (str_eq e.dialog_id dialog) && q e)
              (reopen_and_list_stranded dialog now tasks rows).1.1
            ≡ count_where (λ e. not (str_eq e.dialog_id dialog) && q e) rows)
unfolding reopen_and_list_stranded
reopen_exact dialog now tasks rows = (
  count-update (is_running_in dialog) (is_running_in dialog) (reopened now) rows ∙ nothing rows,
  λ q.
      count-update (is_running_in dialog) (λ e. not (str_eq e.dialog_id dialog) && q e)
        (reopened now) rows
      ∙ others q rows,
)
  where
    nothing :
        (rows : Exchanges)
        → count_where
            (λ e. is_running_in dialog (touched (is_running_in dialog) (reopened now) e))
            rows
          ≡ 0
    nothing [] = refl
    nothing (r ∷ rows) = ground (arith, nothing rows)

    others :
        (q : Exchange → Bool) (rows : Exchanges)
        → count_where
            (λ e.
              not (str_eq (touched (is_running_in dialog) (reopened now) e).dialog_id dialog)
              && q (touched (is_running_in dialog) (reopened now) e))
            rows
          ≡ count_where (λ e. not (str_eq e.dialog_id dialog) && q e) rows
    others q [] = refl
    others q (r ∷ rows) = ground (arith, others q rows)

has_live_task-reopened :
    (now : ℕ) (tasks : Tasks) (e : Exchange)
    → has_live_task tasks (reopened now e) ≡ has_live_task tasks e
unfolding has_live_task
has_live_task-reopened now tasks e = refl

-- Of the dialog's exchanges, the recovery reports as stranded, in the state that it leaves them in,
-- exactly those that it had open or in progress without a pending or running task: by any test, each as
-- often. Its other answer counts the ones that were in progress, with or without such a task.
pub reopen_counts :
    (dialog : String) (now : ℕ) (tasks : Tasks) (rows : Exchanges) (q : Exchange → Bool)
    → (count_where q (reopen_and_list_stranded dialog now tasks rows).1.0
        ≡ count_where
            (λ e. is_stranded dialog tasks e && q (touched (is_running_in dialog) (reopened now) e))
            rows)
      × ((reopen_and_list_stranded dialog now tasks rows).0
          ≡ count_where (λ e. str_eq e.dialog_id dialog && is_in_progress e.status) rows)
unfolding reopen_and_list_stranded
reopen_counts dialog now tasks rows q = (
  count-stranded dialog now tasks rows q
      ∙ count-update (is_running_in dialog) (λ e. is_waiting dialog tasks e && q e) (reopened now)
          rows
      ∙ same rows,
  refl,
)
  where
    same :
        (rows : Exchanges)
        → count_where
            (λ e.
              is_waiting dialog tasks (touched (is_running_in dialog) (reopened now) e)
              && q (touched (is_running_in dialog) (reopened now) e))
            rows
          ≡ count_where
              (λ e.
                is_stranded dialog tasks e && q (touched (is_running_in dialog) (reopened now) e))
              rows
    same [] = refl
    same (r ∷ rows) = ground (arith, has_live_task-reopened now tasks r, same rows)

any-append_same :
    (id : String) (x : String) (xs : List String)
    → any (str_eq x) xs ≡ true
    → (str_eq id x || any (str_eq id) xs) ≡ any (str_eq id) xs
any-append_same id x [] h = ground arith
any-append_same id x (y ∷ xs) h =
    ground (arith, eq_iff id x, eq_iff id y, eq_iff x y, any-append_same id x xs)

any-distinct : (id : String) (xs : List String) → any (str_eq id) (distinct xs) ≡ any (str_eq id) xs
any-distinct id [] = refl
any-distinct id (x ∷ xs) = elim (Bool-cases (any (str_eq x) xs)) [
  | inl again ↦ rw again (any-distinct id xs ∙ sym (any-append_same id x xs again))
  | inr first ↦ rw first (ap (λ b. str_eq id x || b) (any-distinct id xs))
]

-- Right after the recovery of a dialog, the dialog is among the stranded ones just if the recovery
-- reported an exchange of it.
pub recovered_dialog :
    (dialog : String) (now : ℕ) (tasks : Tasks) (rows : Exchanges)
    → any
        (str_eq dialog)
        (list_stranded_dialog_ids tasks (reopen_and_list_stranded dialog now tasks rows).1.1)
      ≡ ltb 0 (length (reopen_and_list_stranded dialog now tasks rows).1.0)
unfolding list_stranded_dialog_ids
recovered_dialog dialog now tasks rows =
    any-distinct dialog _
    ∙ any-waiting (reopen_and_list_stranded dialog now tasks rows).1.1
        (reopen_exact dialog now tasks rows).0
    ∙ ap (ltb 0) (
        sym (
          length-count (reopen_and_list_stranded dialog now tasks rows).1.0
          ∙ count-stranded dialog now tasks rows (λ _. true)))
  where
    any-waiting :
        (rows : Exchanges)
        → count_where (is_running_in dialog) rows ≡ 0
        → any (str_eq dialog) (
            map
              (λ e. e.dialog_id)
              (select_where (λ e. is_in_progress e.status || is_unowned_open tasks e) rows))
          ≡ ltb 0 (count_where (λ e. is_waiting dialog tasks e && true) rows)
    any-waiting [] h = refl
    any-waiting (r ∷ rows) h =
        ground (arith, eq_iff dialog r.dialog_id, eq_iff r.dialog_id dialog, any-waiting rows)
