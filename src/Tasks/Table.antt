-- ===== src/Tasks/Table.antt =====
-- The rows of the table `tasks`, its statements (pkg/store/mysql/task_repository.go) and the history
-- of executions (pkg/store/mysql/model/task.go). The table is in the order of the primary key, and
-- the input of a task, which nothing here reads, is left out.
use waverless.Base.{
  ℕ, zero, suc, ◌==◌, Bool, true, false, ◌&&◌, ◌||◌, Option, none, some, List, [], ◌∷◌, ◌++◌, map,
  String, str_eq, ℤ, pos, select, if◌then◌else◌, Time, since, quot_int,
}

-- The values of `model.TaskStatus`, which the column `status` holds.
pub data TaskStatus : Type 0 where
  pending in_progress completed failed cancelled : TaskStatus

abbrev pub is_pending : TaskStatus → Bool
is_pending pending = true
is_pending _ = false

abbrev pub is_in_progress : TaskStatus → Bool
is_in_progress in_progress = true
is_in_progress _ = false

-- `Completed` or `Failed`.
abbrev pub is_finished : TaskStatus → Bool
is_finished completed = true
is_finished failed = true
is_finished _ = false

pub record ExecutionRecord : Type 0 where
  pub worker_id : String
  pub start_time : Time
  pub end_time : Option Time
  pub duration_ms : ℤ

pub record Task : Type 0 where
  pub id : ℕ
  pub task_id : String
  pub endpoint : String
  pub status : TaskStatus
  pub output : String
  pub error : String
  pub worker_id : String
  pub webhook_url : String
  pub created_at : Time
  pub updated_at : Time
  pub started_at : Option Time
  pub completed_at : Option Time
  pub extend : List ExecutionRecord

abbrev pub Table : Type 0
Table = List Task

-- `AddExecutionRecord`
abbrev pub add_execution_record : String → Time → List ExecutionRecord → List ExecutionRecord
add_execution_record worker now records =
    records
    ++ record { worker_id = worker; start_time = now; end_time = none; duration_ms = pos 0 } ∷ []

abbrev pub is_open : ExecutionRecord → Bool
is_open r = elim r.end_time [ none ↦ true | some t ↦ false ]

abbrev pub has_open : List ExecutionRecord → Bool
has_open [] = false
has_open (r ∷ rs) = is_open r || has_open rs

abbrev pub close : Time → ExecutionRecord → ExecutionRecord
close now r = record r {
  end_time = some now;
  duration_ms = quot_int (since now r.start_time) 1000000;
}

-- `CompleteCurrentExecution`: the last record without an end is closed.
unfoldable pub complete_current_execution : Time → List ExecutionRecord → List ExecutionRecord
complete_current_execution now [] = []
complete_current_execution now (r ∷ rs) =
    let later = r ∷ complete_current_execution now rs in
    if has_open rs then later else if is_open r then close now r ∷ rs else r ∷ rs

-- `Get`: the row of a task, if there is one.
abbrev pub get : String → Table → Option Task
get id [] = none
get id (t ∷ ts) = let rest = get id ts in if str_eq t.task_id id then some t else rest

-- `UpdateFields` on the row of one task.
unfoldable pub update_fields : String → (Task → Task) → Table → Table
update_fields id change = map (λ t. if str_eq t.task_id id then change t else t)

-- The condition of `UpdateFieldsWithStatus` where IN_PROGRESS is expected.
abbrev pub runs : String → Task → Bool
runs id t = str_eq t.task_id id && is_in_progress t.status

-- `UpdateFieldsWithStatus` from IN_PROGRESS.
unfoldable pub update_running : String → (Task → Task) → Table → Table
update_running id change = map (λ t. if runs id t then change t else t)

-- `GetInProgressTasks`
abbrev pub get_in_progress_tasks : Table → List String
get_in_progress_tasks table = map (λ t. t.task_id) (select (λ t. is_in_progress t.status) table)

-- `GetTasksByWorker`
abbrev pub get_tasks_by_worker : String → Table → List Task
get_tasks_by_worker worker = select (λ t. str_eq t.worker_id worker && is_in_progress t.status)

-- `LIMIT`
unfoldable pub limit_to : ℕ → List Task → List Task
limit_to zero ts = []
limit_to (suc n) [] = []
limit_to (suc n) (t ∷ ts) = t ∷ limit_to n ts

-- `Save`: the row with the same primary key is replaced.
unfoldable pub save_row : Task → Table → Table
save_row t = map (λ u. if u.id == t.id then t else u)

unfoldable pub save_rows : List Task → Table → Table
unfolding save_row
save_rows [] table = table
save_rows (t ∷ ts) table = save_rows ts (save_row t table)

-- The fields that `SelectAndAssignTasks` sets, and the one that `Save` sets by itself.
abbrev pub assigned_to : String → Time → Task → Task
assigned_to worker now t = record t {
  status = in_progress;
  worker_id = worker;
  started_at = some now;
  updated_at = now;
  extend = add_execution_record worker now t.extend;
}

abbrev pub waits_for : String → Task → Bool
waits_for endpoint t = str_eq t.endpoint endpoint && is_pending t.status

-- The tasks that `SelectAndAssignTasks` picks and changes, the oldest first.
unfoldable pub picked : String → ℕ → String → Time → Table → List Task
unfolding limit_to
picked endpoint limit worker now table =
    map (assigned_to worker now) (limit_to limit (select (waits_for endpoint) table))

-- `SelectAndAssignTasks`, a transaction: it is rolled back as a whole if it fails.
unfoldable pub select_and_assign_tasks :
    Bool → String → ℕ → String → Time → Table → Option (List Task) × Table
unfolding picked save_rows
select_and_assign_tasks false endpoint limit worker now table = (none, table)
select_and_assign_tasks true endpoint limit worker now table =
    let tasks = picked endpoint limit worker now table in (some tasks, save_rows tasks table)
