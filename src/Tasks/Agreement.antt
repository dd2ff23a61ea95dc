-- ===== src/Tasks/Agreement.antt =====
-- The two task stores of core/src/octoforge_core/tasks/store.py side by side, call by call:
-- `InMemoryTaskStore`, the behavioral reference, and `SqlAlchemyTaskStore`.
use mathlib.Core.Path.{fun_ext}
use mathlib.Core.Option
use octo_forge.Base.{
  ℕ, String, Bool, true, false, Option, none, some, ◌≡◌, refl, ap, ◌∙◌, ◌&&◌, str_eq, eq_iff,
  if◌then◌else◌, opt_test, ◌==◌, arith, update_where, delete_where, get_by, count_where, IsKeyed,
  touched, get-update, key-get, count-get, length-select,
}
use octo_forge.Tasks.Api.{Task, done, failed, cancelled}
use octo_forge.Tasks.Memory
use octo_forge.Tasks.Memory.{Tasks, task_id, as_done, as_failed, as_cancelled}
use octo_forge.Tasks.Sql
use octo_forge.Tasks.Sql.{Parents, has_parents, finish_values}
use octo_forge.Tasks.Rules.{Same, Same-update, Same-append, Same-delete, add-update, add-append}

-- The calls of the TaskStore port that change the store, with the clock's answer and what an INSERT
-- finds in the tables of dialogs and exchanges, and the lookup of a task.
pub data Call : Type 0 where
  add : Parents → Task → Call
  get : String → Call
  mark_done mark_failed : ℕ → String → String → Bool → Call
  mark_cancelled mark_delivered : ℕ → String → Call
  delete delete_for_dialog : String → Call

pub data Reply : Type 0 where
  finished not_found integrity_error : Reply
  returned : Task → Reply
  deleted : ℕ → Reply

abbrev with_task : Tasks → Option (Task × Tasks) → Reply × Tasks
with_task old none = (not_found, old)
with_task old (some (t, new)) = (returned t, new)

abbrev plain : Reply → Tasks → Option Tasks → Reply × Tasks
plain error old none = (error, old)
plain error old (some new) = (finished, new)

abbrev looked_up : Tasks → Option Task → Reply × Tasks
looked_up old none = (not_found, old)
looked_up old (some t) = (returned t, old)

abbrev counted : ℕ × Tasks → Reply × Tasks
counted (n, new) = (deleted n, new)

unfoldable pub memory_step : Call → Tasks → Reply × Tasks
memory_step (get id) m = looked_up m (Memory.get id m)
memory_step (add parents t) m = (finished, Memory.add t m)
memory_step (mark_done now id result d) m = with_task m (Memory.mark_done now id result d m)
memory_step (mark_failed now id error d) m = with_task m (Memory.mark_failed now id error d m)
memory_step (mark_cancelled now id) m = with_task m (Memory.mark_cancelled now id m)
memory_step (mark_delivered now id) m = plain not_found m (Memory.mark_delivered now id m)
memory_step (delete id) m = plain not_found m (Memory.delete id m)
memory_step (delete_for_dialog d) m = counted (Memory.delete_for_dialog d m)

pub sql_step : Call → Tasks → Reply × Tasks
sql_step (get id) s = looked_up s (Sql.get id s)
sql_step (add parents t) s = plain integrity_error s (Sql.add parents t s)
sql_step (mark_done now id result d) s = with_task s (Sql.mark_done now id result d s)
sql_step (mark_failed now id error d) s = with_task s (Sql.mark_failed now id error d s)
sql_step (mark_cancelled now id) s = with_task s (Sql.mark_cancelled now id s)
sql_step (mark_delivered now id) s = plain not_found s (Sql.mark_delivered now id s)
sql_step (delete id) s = plain not_found s (Sql.delete id s)
sql_step (delete_for_dialog d) s = counted (Sql.delete_for_dialog d s)

-- A new task has an id of its own (`uuid4().hex`), and its dialog and exchange are there.
abbrev pub IsFresh : Call → Tasks → Type 0
IsFresh (add parents t) m = (get_by task_id t.id m ≡ none) × (has_parents parents t ≡ true)
IsFresh _ m = Unit

abbrev pub Agree : Reply × Tasks → Reply × Tasks → Type 0
Agree (r, m) (r', s) = (r ≡ r') × Same m s

and_true : (b : Bool) → b ≡ (b && true)
and_true true = refl
and_true false = refl

count-by_id :
    (id : String) (rows : Tasks)
    → IsKeyed task_id rows
    → count_where (λ t. str_eq t.id id) rows
      ≡ (if opt_test (λ _. true) (get_by task_id id rows) then 1 else 0)
count-by_id id rows h =
    ap (λ p. count_where p rows) (fun_ext λ (t : Task). and_true (str_eq t.id id))
    ∙ count-get task_id id (λ _. true) rows h

abbrev updated : String → (Task → Task) → Tasks → Task → Task × Tasks
updated id f rows t = (f t, update_where (λ u. str_eq u.id id) f rows)

abbrev stamped : ℕ → Task → Task
stamped now t = record t { delivered_at = some now }

mutate_lem :
    (id : String) (f : Task → Task) (m : Tasks)
    → ((t : Task) → (f t).id ≡ t.id)
    → IsKeyed task_id m
    → Memory.mutate id f m ≡ Option.map (updated id f m) (get_by task_id id m)
unfolding Memory.mutate Memory.get
mutate_lem id f m keeps h = go (get_by task_id id m) refl
  where
    go :
        (o : Option Task)
        → get_by task_id id m ≡ o
        → elim o as (λ _. Option (Task × Tasks)) [
          | none ↦ none
          | some t ↦ some (f t, Memory.add (f t) m)
        ]
          ≡ Option.map (updated id f m) o
    go none e = refl
    go (some t) e = ap (λ new. some (f t, new)) (add-update id f m t keeps h e)

update_returning_lem :
    (id : String) (f : Task → Task) (s : Tasks)
    → ((t : Task) → (f t).id ≡ t.id)
    → Sql.update_returning id f s ≡ Option.map (updated id f s) (get_by task_id id s)
unfolding Sql.update_returning
update_returning_lem id f s keeps =
    rw (get-update task_id id (λ t. str_eq t.id id) f s keeps, Sql.update_returning)
      (go (get_by task_id id s) (key-get task_id id s))
  where
    go :
        (o : Option Task)
        → ((t : Task) → o ≡ some t → t.id ≡ id)
        → elim (Option.map (touched (λ t. str_eq t.id id) f) o) as (λ _. Option (Task × Tasks)) [
          | none ↦ none
          | some t ↦ some (t, update_where (λ u. str_eq u.id id) f s)
        ]
          ≡ Option.map (updated id f s) o
    go none e = refl
    go (some t) e = rw ((eq_iff t.id id).1 (e t refl))

memory-delete :
    (id : String) (m : Tasks)
    → Memory.delete id m
      ≡ Option.map (λ t. delete_where (λ u. str_eq u.id t.id) m) (get_by task_id id m)
unfolding Memory.delete Memory.get
memory-delete id m = ground arith

sql-delete :
    (id : String) (s : Tasks)
    → Sql.delete id s
      ≡ Option.map (λ t. delete_where (λ u. str_eq u.id t.id) s) (get_by task_id id s)
unfolding Sql.delete
sql-delete id s = ground arith

module _ {m s : Tasks} (same : Same m s) where
  -- read, change and write back, against one UPDATE .. RETURNING
  mutate-Agree :
      (id : String) (f g : Task → Task)
      → ((t : Task) → (f t).id ≡ t.id)
      → f ≡ g
      → Agree (with_task m (Memory.mutate id f m)) (with_task s (Sql.update_returning id g s))
  mutate-Agree id f g keeps e =
      rw
        (
          ← e,
          mutate_lem id f m keeps same.keyed_m,
          update_returning_lem id f s keeps,
          ← same.lookups id,
        )
        (go (get_by task_id id m))
    where
      go :
          (o : Option Task)
          → Agree
              (with_task m (Option.map (updated id f m) o))
              (with_task s (Option.map (updated id f s) o))
      go none = (refl, same)
      go (some t) = (refl, Same-update same (λ u. str_eq u.id id) f keeps)

  done-Agree :
      (now : ℕ) (id result : String) (d : Bool)
      → Agree (memory_step (mark_done now id result d) m) (sql_step (mark_done now id result d) s)
  unfolding memory_step sql_step Memory.mark_done Sql.mark_done Sql.finish
  done-Agree now id result d =
      mutate-Agree id (as_done now result d) (finish_values now done (some result) none d)
        (λ t. ground arith) (fun_ext λ t. ground arith)

  failed-Agree :
      (now : ℕ) (id error : String) (d : Bool)
      → Agree (memory_step (mark_failed now id error d) m) (sql_step (mark_failed now id error d) s)
  unfolding memory_step sql_step Memory.mark_failed Sql.mark_failed Sql.finish
  failed-Agree now id error d =
      mutate-Agree id (as_failed now error d) (finish_values now failed none (some error) d)
        (λ t. ground arith) (fun_ext λ t. ground arith)

  cancelled-Agree :
      (now : ℕ) (id : String)
      → Agree (memory_step (mark_cancelled now id) m) (sql_step (mark_cancelled now id) s)
  unfolding memory_step sql_step Memory.mark_cancelled Sql.mark_cancelled Sql.finish
  cancelled-Agree now id =
      mutate-Agree id (as_cancelled now) (finish_values now cancelled none none false) (λ t. refl)
        refl

  -- `rowcount` says what the lookup says.
  delivered-Agree :
      (now : ℕ) (id : String)
      → Agree (memory_step (mark_delivered now id) m) (sql_step (mark_delivered now id) s)
  unfolding memory_step sql_step Memory.mark_delivered Sql.mark_delivered
  delivered-Agree now id =
      rw
        (
          mutate_lem id (stamped now) m (λ t. refl) same.keyed_m,
          count-by_id id s same.keyed_s,
          ← same.lookups id,
        )
        (go (get_by task_id id m))
    where
      go :
          (o : Option Task)
          → Agree
              (plain not_found m
                (Option.map (λ r. r.1) (Option.map (updated id (stamped now) m) o)))
              (plain not_found s (
                if (if opt_test (λ _. true) o then 1 else 0) == 0
                then none
                else some (update_where (λ t. str_eq t.id id) (stamped now) s)))
      go none = (refl, same)
      go (some t) = (refl, Same-update same (λ u. str_eq u.id id) (stamped now) (λ u. refl))

  delete-Agree : (id : String) → Agree (memory_step (delete id) m) (sql_step (delete id) s)
  unfolding memory_step sql_step
  delete-Agree id =
      rw (memory-delete id m, sql-delete id s, ← same.lookups id) (go (get_by task_id id m))
    where
      go :
          (o : Option Task)
          → Agree
              (plain not_found m (Option.map (λ t. delete_where (λ u. str_eq u.id t.id) m) o))
              (plain not_found s (Option.map (λ t. delete_where (λ u. str_eq u.id t.id) s) o))
      go none = (refl, same)
      go (some t) = (refl, Same-delete same (λ u. str_eq u.id t.id))

  add-Agree :
      (parents : Parents) (t : Task)
      → IsFresh (add parents t) m
      → Agree (memory_step (add parents t) m) (sql_step (add parents t) s)
  unfolding memory_step sql_step Sql.add
  add-Agree parents t fresh =
      rw (← same.lookups t.id, fresh.0, fresh.1, add-append t m fresh.0)
        (refl, Same-append same t fresh.0)

  get-Agree : (id : String) → Agree (memory_step (get id) m) (sql_step (get id) s)
  unfolding memory_step sql_step Memory.get Sql.get
  get-Agree id = rw (← same.lookups id) (go (get_by task_id id m))
    where
      go : (o : Option Task) → Agree (looked_up m o) (looked_up s o)
      go none = (refl, same)
      go (some t) = (refl, same)

  -- One call, at two stores that hold the same tasks.
  pub step-Agree : (c : Call) → IsFresh c m → Agree (memory_step c m) (sql_step c s)
  step-Agree (get id) fresh = get-Agree id
  step-Agree (add parents t) fresh = add-Agree parents t fresh
  step-Agree (mark_done now id result d) fresh = done-Agree now id result d
  step-Agree (mark_failed now id error d) fresh = failed-Agree now id error d
  step-Agree (mark_cancelled now id) fresh = cancelled-Agree now id
  step-Agree (mark_delivered now id) fresh = delivered-Agree now id
  step-Agree (delete id) fresh = delete-Agree id
  step-Agree (delete_for_dialog d) fresh =
      unfold memory_step sql_step Memory.delete_for_dialog Sql.delete_for_dialog in
      (
        ap deleted (length-select (λ t. str_eq t.dialog_id d) m ∙ same.counts _),
        Same-delete same (λ t. str_eq t.dialog_id d),
      )

-- The calls of a history, answered one after the other.
