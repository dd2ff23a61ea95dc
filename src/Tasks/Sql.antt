-- ===== src/Tasks/Sql.antt =====
-- `SqlAlchemyTaskStore` of core/src/octoforge_core/tasks/store.py, over the table `tasks`. A row is
-- its task: `_to_task_row` and `_to_task` copy field by field. Each method is one transaction.
use octo_forge.Base.{
  ℕ, String, Bool, true, false, not, Option, none, some, List, [], ◌∷◌, ◌++◌, ◌&&◌, ◌||◌, str_eq,
  if◌then◌else◌, is_none, ◌==◌, select_where, first_where, update_where, delete_where, count_where,
  order_by, get_by,
}
use octo_forge.Tasks.Api.{Task, TaskStatus, done, failed, cancelled, is_active, is_final}
use octo_forge.Tasks.Memory.{Tasks, task_id}

-- The ids that the tables of dialogs and exchanges have when a task is inserted. A database that does
-- not enforce foreign keys takes every id for one of them.
pub record Parents : Type 0 where
  pub has_dialog : String → Bool
  pub has_exchange : String → Bool

-- the two foreign keys of a row; a NULL needs nothing
abbrev pub has_parents : Parents → Task → Bool
has_parents parents task =
    parents.has_dialog task.dialog_id
    && elim task.exchange_id as (λ _. Bool) [ none ↦ true | some id ↦ parents.has_exchange id ]

-- An INSERT; `none` is the IntegrityError for a primary key that is taken or a foreign key that is not
-- there.
unfoldable pub add : Parents → Task → Tasks → Option Tasks
add parents task rows =
    if has_parents parents task && is_none (get_by task_id task.id rows)
    then some (rows ++ task ∷ [])
    else none

unfoldable pub get : String → Tasks → Option Task
get id rows = get_by task_id id rows

unfoldable pub list : String → Tasks → List Task
list dialog_id rows =
    order_by (λ t. t.created_at) (select_where (λ t. str_eq t.dialog_id dialog_id) rows)

abbrev pub keep_or : Option String → Option String → Option String
keep_or none old = old
keep_or (some new) old = some new

-- The values that `_finish` writes: a `None` argument leaves its column alone.
abbrev pub finish_values : ℕ → TaskStatus → Option String → Option String → Bool → Task → Task
finish_values now status result error delivered row = record row {
  status = status;
  finished_at = some now;
  result = keep_or result row.result;
  error = keep_or error row.error;
  delivered_at = if delivered then some now else row.delivered_at;
}

-- UPDATE .. WHERE id RETURNING: the row is read from the table as it now is.
unfoldable pub update_returning : String → (Task → Task) → Tasks → Option (Task × Tasks)
update_returning id f rows =
    let after = update_where (λ t. str_eq t.id id) f rows in
    elim (first_where (λ t. str_eq t.id id) after) [ none ↦ none | some task ↦ some (task, after) ]

unfoldable pub finish :
    ℕ → String → TaskStatus → Option String → Option String → Bool → Tasks → Option (Task × Tasks)
finish now id status result error delivered =
    update_returning id (finish_values now status result error delivered)

unfoldable pub mark_done : ℕ → String → String → Bool → Tasks → Option (Task × Tasks)
unfolding finish
mark_done now id result delivered = finish now id done (some result) none delivered

unfoldable pub mark_failed : ℕ → String → String → Bool → Tasks → Option (Task × Tasks)
unfolding finish
mark_failed now id error delivered = finish now id failed none (some error) delivered

unfoldable pub mark_cancelled : ℕ → String → Tasks → Option (Task × Tasks)
unfolding finish
mark_cancelled now id = finish now id cancelled none none false

-- `rowcount == 0` raises.
unfoldable pub mark_delivered : ℕ → String → Tasks → Option Tasks
mark_delivered now id rows =
    if count_where (λ t. str_eq t.id id) rows == 0
    then none
    else some (update_where (λ t. str_eq t.id id) (λ t. record t { delivered_at = some now }) rows)

unfoldable pub delete : String → Tasks → Option Tasks
delete id rows = elim (get_by task_id id rows) [
  | none ↦ none
  | some task ↦ some (delete_where (λ t. str_eq t.id task.id) rows)
]

unfoldable pub delete_for_dialog : String → Tasks → ℕ × Tasks
delete_for_dialog dialog_id rows = (
  count_where (λ t. str_eq t.dialog_id dialog_id) rows,
  delete_where (λ t. str_eq t.dialog_id dialog_id) rows,
)

-- the WHERE clause of the one recovery query
abbrev pub to_recover : Task → Bool
to_recover t = is_active t.status || (is_final t.status && is_none t.delivered_at)

abbrev pub scoped : Option String → List Task → List Task
scoped none rows = rows
scoped (some dialog_id) rows = select_where (λ t. str_eq t.dialog_id dialog_id) rows

unfoldable pub list_for_recovery : Option String → Tasks → List Task × List Task
list_for_recovery dialog_id rows =
    let tasks = order_by (λ t. t.created_at) (scoped dialog_id (select_where to_recover rows)) in
    (
      select_where (λ t. is_active t.status) tasks,
      select_where (λ t. not (is_active t.status)) tasks,
    )

unfoldable pub list_orphaned : Option String → Tasks → List Task
unfolding list_for_recovery
list_orphaned dialog_id rows = (list_for_recovery dialog_id rows).0

unfoldable pub list_undelivered : Option String → Tasks → List Task
unfolding list_for_recovery
list_undelivered dialog_id rows = (list_for_recovery dialog_id rows).1
