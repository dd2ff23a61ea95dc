-- ===== src/Tasks/Memory.antt =====
-- `InMemoryTaskStore` of core/src/octoforge_core/tasks/store.py. The dict is the list of its tasks
-- in insertion order, since every key is the id of its task. `none` is a raised TaskNotFoundError,
-- and `now` is what `utc_now()` answers.
use mathlib.Core.Option
use octo_forge.Base.{
  ℕ, String, Bool, Option, none, some, List, [], ◌∷◌, ◌&&◌, ◌||◌, str_eq, if◌then◌else◌, is_none,
  opt_test, length, select_where, delete_where, get_by,
}
use octo_forge.Tasks.Api.{Task, done, failed, cancelled, is_active, is_final}

abbrev pub Tasks : Type 0
Tasks = List Task

abbrev pub task_id : Task → String
task_id t = t.id

-- `self._tasks[task.id] = task`: an old key keeps its place.
unfoldable pub add : Task → Tasks → Tasks
add task [] = task ∷ []
add task (t ∷ tasks) = if str_eq t.id task.id then task ∷ tasks else t ∷ add task tasks

unfoldable pub get : String → Tasks → Option Task
get id tasks = get_by task_id id tasks

unfoldable pub list : String → Tasks → List Task
list dialog_id = select_where (λ t. str_eq t.dialog_id dialog_id)

-- A mutation of the task that the dict holds under `id`.
unfoldable pub mutate : String → (Task → Task) → Tasks → Option (Task × Tasks)
unfolding get
mutate id f tasks = elim (get id tasks) [
  | none ↦ none
  | some task ↦ some (f task, add (f task) tasks)
]

abbrev pub stamp_delivered : Bool → ℕ → Task → Task
stamp_delivered delivered now task =
    if delivered then record task { delivered_at = some now } else task

abbrev pub as_done : ℕ → String → Bool → Task → Task
as_done now result delivered task =
    stamp_delivered delivered now
      (record task { status = done; result = some result; finished_at = some now })

abbrev pub as_failed : ℕ → String → Bool → Task → Task
as_failed now error delivered task =
    stamp_delivered delivered now
      (record task { status = failed; error = some error; finished_at = some now })

abbrev pub as_cancelled : ℕ → Task → Task
as_cancelled now task = record task { status = cancelled; finished_at = some now }

unfoldable pub mark_done : ℕ → String → String → Bool → Tasks → Option (Task × Tasks)
unfolding mutate
mark_done now id result delivered = mutate id (as_done now result delivered)

unfoldable pub mark_failed : ℕ → String → String → Bool → Tasks → Option (Task × Tasks)
unfolding mutate
mark_failed now id error delivered = mutate id (as_failed now error delivered)

unfoldable pub mark_cancelled : ℕ → String → Tasks → Option (Task × Tasks)
unfolding mutate
mark_cancelled now id = mutate id (as_cancelled now)

unfoldable pub mark_delivered : ℕ → String → Tasks → Option Tasks
unfolding mutate
mark_delivered now id tasks =
    Option.map (λ r. r.1) (mutate id (λ task. record task { delivered_at = some now }) tasks)

-- `del self._tasks[task.id]`
unfoldable pub delete : String → Tasks → Option Tasks
unfolding get
delete id tasks = elim (get id tasks) [
  | none ↦ none
  | some task ↦ some (delete_where (λ t. str_eq t.id task.id) tasks)
]

unfoldable pub delete_for_dialog : String → Tasks → ℕ × Tasks
delete_for_dialog dialog_id tasks = (
  length (select_where (λ t. str_eq t.dialog_id dialog_id) tasks),
  delete_where (λ t. str_eq t.dialog_id dialog_id) tasks,
)

-- `dialog_id is None or task.dialog_id == dialog_id`
abbrev pub in_dialog : Option String → Task → Bool
in_dialog dialog_id t = is_none dialog_id || opt_test (λ d. str_eq t.dialog_id d) dialog_id

unfoldable pub list_orphaned : Option String → Tasks → List Task
list_orphaned dialog_id = select_where (λ t. is_active t.status && in_dialog dialog_id t)

unfoldable pub list_undelivered : Option String → Tasks → List Task
list_undelivered dialog_id =
    select_where (λ t. is_final t.status && (is_none t.delivered_at && in_dialog dialog_id t))

unfoldable pub list_for_recovery : Option String → Tasks → List Task × List Task
unfolding list_orphaned list_undelivered
list_for_recovery dialog_id tasks =
    (list_orphaned dialog_id tasks, list_undelivered dialog_id tasks)
