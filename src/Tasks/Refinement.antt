-- ===== src/Tasks/Refinement.antt =====
-- Histories of calls of the two task stores of core/src/octoforge_core/tasks/store.py.
use mathlib.Core.Path.{ap₂}
use octo_forge.Base.{
  String, Bool, Option, List, [], ◌∷◌, ◌&&◌, str_eq, leb, count_where, count-select, count-order,
  ◌≡◌, refl, sym, ◌∙◌,
}
use octo_forge.Tasks.Api.{Task}
use octo_forge.Tasks.Memory
use octo_forge.Tasks.Sql
use octo_forge.Tasks.Recovery.{list_for_recovery_agrees}
use octo_forge.Tasks.Memory.{Tasks}
use octo_forge.Tasks.Rules.{Same}
use octo_forge.Tasks.Agreement.{Call, Reply, memory_step, sql_step, IsFresh, step-Agree}

pub memory_run : List Call → Tasks → List Reply × Tasks
memory_run [] m = ([], m)
memory_run (c ∷ cs) m =
    let (r, m') = memory_step c m in let (rs, end) = memory_run cs m' in (r ∷ rs, end)

pub sql_run : List Call → Tasks → List Reply × Tasks
sql_run [] s = ([], s)
sql_run (c ∷ cs) s = let (r, s') = sql_step c s in let (rs, end) = sql_run cs s' in (r ∷ rs, end)

-- Every added task is new when it is added.
abbrev pub AllFresh : List Call → Tasks → Type 0
AllFresh [] m = Unit
AllFresh (c ∷ cs) m = IsFresh c m × AllFresh cs (memory_step c m).1

run-Agree :
    (cs : List Call) {m s : Tasks}
    → Same m s
    → AllFresh cs m
    → ((memory_run cs m).0 ≡ (sql_run cs s).0) × Same (memory_run cs m).1 (sql_run cs s).1
unfolding memory_run sql_run
run-Agree [] same fresh = (refl, same)
run-Agree (c ∷ cs) {m} {s} same fresh =
    let (reply, same') = step-Agree same c fresh.0 in
    let (replies, end) = run-Agree cs same' fresh.1 in (ap₂ ◌∷◌ reply replies, end)

-- Every listing has each task as often in both stores, the rows of the table in another order perhaps.
pub record SameListings (m s : Tasks) : Type 0 where
  pub listed :
      (d : String) (q : Task → Bool)
      → count_where q (Sql.list d s) ≡ count_where q (Memory.list d m)
  pub orphaned :
      (d : Option String) (q : Task → Bool)
      → count_where q (Sql.list_orphaned d s) ≡ count_where q (Memory.list_orphaned d m)
  pub undelivered :
      (d : Option String) (q : Task → Bool)
      → count_where q (Sql.list_undelivered d s) ≡ count_where q (Memory.list_undelivered d m)

Same-SameListings : {m s : Tasks} → Same m s → SameListings m s
unfolding Sql.list Memory.list Sql.list_orphaned Sql.list_undelivered Sql.list_for_recovery
    Memory.list_for_recovery
Same-SameListings {m} {s} same = record {
  listed = λ d q.
      count-order (λ a b. leb a.created_at b.created_at) q _
      ∙ count-select (λ t. str_eq t.dialog_id d) q s
      ∙ sym (same.counts (λ t. str_eq t.dialog_id d && q t))
      ∙ sym (count-select (λ t. str_eq t.dialog_id d) q m);
  orphaned = λ d q. (list_for_recovery_agrees d same q).0;
  undelivered = λ d q. (list_for_recovery_agrees d same q).1;
}

-- From empty stores, whatever the lookups of a task and the calls that write, as long as each added task
-- has a new id and a dialog and an exchange that are there: both stores give the same replies, errors
-- included, and end with the same tasks under the same ids, and each of their listings, of a dialog, of
-- the orphaned and of the undelivered tasks, then has the same tasks, though not in the same order.
pub sql-refines-memory :
    (cs : List Call)
    → AllFresh cs []
    → ((memory_run cs []).0 ≡ (sql_run cs []).0)
      × Same (memory_run cs []).1 (sql_run cs []).1
      × SameListings (memory_run cs []).1 (sql_run cs []).1
sql-refines-memory cs fresh =
    let (replies, same) =
      run-Agree cs (record { keyed_m = tt; keyed_s = tt; lookups = λ id. refl; counts = λ q. refl })
        fresh in
    (replies, same, Same-SameListings same)
