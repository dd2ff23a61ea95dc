-- ===== src/Tasks/Samples.antt =====
-- The properties of the task stores at a concrete history of calls.
use octo_forge.Base.{String, str_eq, true, false, none, some, List, [], ◌∷◌, ◌≡◌, refl}
use octo_forge.Json.{no_members}
use octo_forge.Tasks.Api.{Task, answer, pending}
use octo_forge.Tasks.Memory
use octo_forge.Tasks.Memory.{Tasks}
use octo_forge.Tasks.Sql.{Parents}
use octo_forge.Tasks.Rules.{Same}
use octo_forge.Tasks.Agreement.{
  Call, add, get, mark_done, mark_delivered, mark_cancelled, delete_for_dialog, memory_step,
}
use octo_forge.Tasks.Refinement.{memory_run, sql_run, AllFresh, SameListings, sql-refines-memory}

abbrev named_task : String → Task
named_task id = record {
  id = id;
  dialog_id = "d";
  title = "question";
  kind = answer;
  input = no_members;
  exchange_id = some "e";
  status = pending;
  result = none;
  error = none;
  created_at = 7;
  started_at = none;
  finished_at = none;
  delivered_at = none;
}

abbrev one_dialog : Parents
one_dialog = record { has_dialog = str_eq "d"; has_exchange = λ id. true }

abbrev calls : List Call
calls =
    add one_dialog (named_task "a")
    ∷ add one_dialog (named_task "b")
    ∷ get "a"
    ∷ mark_done 9 "a" "42" false
    ∷ mark_delivered 10 "c"
    ∷ mark_cancelled 11 "b"
    ∷ delete_for_dialog "d"
    ∷ []

calls-AllFresh : AllFresh calls []
unfolding memory_step Memory.add
calls-AllFresh = ((refl, refl), ((refl, refl), (tt, (tt, (tt, (tt, (tt, tt)))))))

sql-refines-memory_example :
    ((memory_run calls []).0 ≡ (sql_run calls []).0)
    × Same (memory_run calls []).1 (sql_run calls []).1
    × SameListings (memory_run calls []).1 (sql_run calls []).1
sql-refines-memory_example = sql-refines-memory calls calls-AllFresh

one_task : Same (named_task "a" ∷ []) (named_task "a" ∷ [])
one_task = record {
  keyed_m = (tt, tt);
  keyed_s = (tt, tt);
  lookups = λ id. refl;
  counts = λ q. refl;
}
