-- ===== src/Tasks/Recovery.antt =====
-- What restart recovery reads of the task store: the tasks whose executor died, and the finished
-- ones whose result never reached the user.
use octo_forge.Base.{
  String, Bool, not, Option, none, some, List, ◌≡◌, refl, sym, ap, ◌∙◌, ◌&&◌, str_eq, is_none, leb,
  arith, count_where, count-select, count-order, select_where, order_by,
}
use mathlib.Core.Path.{fun_ext}
use octo_forge.Tasks.Api.{Task, is_active, is_final}
use octo_forge.Tasks.Memory
use octo_forge.Tasks.Memory.{Tasks, in_dialog}
use octo_forge.Tasks.Sql
use octo_forge.Tasks.Sql.{to_recover, scoped}
use octo_forge.Tasks.Rules.{Same}

abbrev orphaned : Option String → Task → Bool
orphaned d t = is_active t.status && in_dialog d t

abbrev undelivered : Option String → Task → Bool
undelivered d t = is_final t.status && (is_none t.delivered_at && in_dialog d t)

count-scoped :
    (d : Option String) (q : Task → Bool) (rows : List Task)
    → count_where q (scoped d rows) ≡ count_where (λ t. in_dialog d t && q t) rows
count-scoped none q rows = refl
count-scoped (some d) q rows = count-select (λ t. str_eq t.dialog_id d) q rows

-- the rows of the one query, by a further test
count-query :
    (d : Option String) (q : Task → Bool) (s : Tasks)
    → count_where q (order_by (λ t. t.created_at) (scoped d (select_where to_recover s)))
      ≡ count_where (λ t. to_recover t && (in_dialog d t && q t)) s
count-query d q s =
    count-order (λ a b. leb a.created_at b.created_at) q (scoped d (select_where to_recover s))
    ∙ count-scoped d q (select_where to_recover s)
    ∙ count-select to_recover (λ t. in_dialog d t && q t) s

split_active :
    (d : Option String) (q : Task → Bool) (t : Task)
    → (to_recover t && (in_dialog d t && (is_active t.status && q t))) ≡ (orphaned d t && q t)
split_active d q t = ground arith

split_rest :
    (d : Option String) (q : Task → Bool) (t : Task)
    → (to_recover t && (in_dialog d t && (not (is_active t.status) && q t)))
      ≡ (undelivered d t && q t)
split_rest d q t = ground arith

-- The one recovery query of the SQL store, split by status, gives what the two separate listings of
-- the in-memory store give: at stores that hold the same tasks, and for every dialog or for all, each
-- of the two results has every task as often.
pub list_for_recovery_agrees :
    (d : Option String) {m s : Tasks}
    → Same m s
    → (q : Task → Bool)
    → (count_where q (Sql.list_for_recovery d s).0 ≡ count_where q (Memory.list_for_recovery d m).0)
      × (count_where q (Sql.list_for_recovery d s).1
          ≡ count_where q (Memory.list_for_recovery d m).1)
unfolding Sql.list_for_recovery Memory.list_for_recovery
list_for_recovery_agrees d {m} {s} same q = (
  count-select (λ t. is_active t.status) q _
      ∙ count-query d (λ t. is_active t.status && q t) s
      ∙ ap (λ p. count_where p s) (fun_ext (split_active d q))
      ∙ sym (same.counts (λ t. orphaned d t && q t))
      ∙ sym (count-select (orphaned d) q m),
  count-select (λ t. not (is_active t.status)) q _
      ∙ count-query d (λ t. not (is_active t.status) && q t) s
      ∙ ap (λ p. count_where p s) (fun_ext (split_rest d q))
      ∙ sym (same.counts (λ t. undelivered d t && q t))
      ∙ sym (count-select (undelivered d) q m),
)
