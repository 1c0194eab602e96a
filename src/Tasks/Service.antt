-- ===== src/Tasks/Service.antt =====
-- internal/service/task_service.go, and the reclaiming of tasks in internal/service/worker_service.go.
-- A method reads a row and writes it later, outside of a transaction: `seen` is the table when it
-- read, and the last argument the table when it writes, which others may have changed. Events and
-- statistics, which are written aside, are left out.
use waverless.Base.{
  ℕ, Bool, false, not, ◌&&◌, ◌||◌, Option, none, some, List, [], ◌∷◌, ◌++◌, String, str_eq, ℤ,
  ltb_ℤ, if◌then◌else◌, Time, since,
}
use waverless.Tasks.Table.{
  pending, completed, failed, cancelled, is_in_progress, is_finished, Task, Table,
  complete_current_execution, get, update_fields, update_running, get_in_progress_tasks,
}

-- The statements that fail: the read of the row, its update, and the record of the event where it
-- stands in the same transaction.
pub record Faults : Type 0 where
  pub reads : Bool
  pub writes : Bool
  pub events : Bool

-- How a method ends. `panics` is the use of a row that is nil.
pub data Outcome : Type 0 where
  success not_found already_finished database_error panics : Outcome

-- `if endpoint == "" { endpoint = "default" }`
abbrev pub or_default : String → String
or_default endpoint = if str_eq endpoint "" then "default" else endpoint

-- The row that `SubmitTask` creates. `id` is the next primary key.
abbrev pub new_task : ℕ → String → String → String → Time → Task
new_task id task_id endpoint webhook now = record {
  id = id;
  task_id = task_id;
  endpoint = or_default endpoint;
  status = pending;
  output = "";
  error = "";
  worker_id = "";
  webhook_url = webhook;
  created_at = now;
  updated_at = now;
  started_at = none;
  completed_at = none;
  extend = [];
}

-- `SubmitTask`, where `exists` says of an endpoint that it is there.
unfoldable pub submit_task :
    (String → Bool) → Faults → ℕ → String → String → String → Time → Table → Outcome × Table
submit_task exists f id task_id endpoint webhook now table =
    if not (exists (or_default endpoint))
    then (not_found, table)
    else if f.writes
    then (database_error, table)
    else (success, table ++ new_task id task_id endpoint webhook now ∷ [])

abbrev pub cancelled_at : Time → Task → Task
cancelled_at now t = record t {
  status = cancelled;
  updated_at = now;
  completed_at = none;
  started_at = none;
  worker_id = "";
}

-- `CancelTask`
unfoldable pub cancel_task : Faults → Time → String → Table → Table → Outcome × Table
cancel_task f now id seen table = if f.reads then (database_error, table) else elim (get id seen) [
  | none ↦ (not_found, table)
  | some t ↦
      if is_finished t.status
      then (already_finished, table)
      else if f.writes
      then (database_error, table)
      else (success, update_fields id (cancelled_at now) table)
]

-- The fields that `UpdateTaskResult` writes, from the row `t` that it read.
abbrev pub with_result : Time → String → String → Task → Task → Task
with_result now output error t u =
    let closed = complete_current_execution now t.extend in
    if not (str_eq error "")
    then record u {
      status = failed;
      error = error;
      extend = closed;
      updated_at = now;
      completed_at = some now;
    }
    else record u {
      status = completed;
      output = output;
      extend = closed;
      updated_at = now;
      completed_at = some now;
    }

-- `UpdateTaskResult`, up to what it starts aside: statistics, the endpoint's task time, the webhook.
unfoldable pub update_task_result :
    Faults → Time → String → String → String → Table → Table → Outcome × Table
update_task_result f now id output error seen table =
    if f.reads then (database_error, table) else elim (get id seen) [
      | none ↦ (panics, table)
      | some t ↦
          if f.writes
          then (database_error, table)
          else (success, update_fields id (with_result now output error t) table)
    ]

abbrev pub requeued : Time → Task → Task → Task
requeued now t u = record u {
  status = pending;
  worker_id = "";
  started_at = none;
  completed_at = none;
  updated_at = now;
  extend = t.extend;
}

-- `requeueOrphanedTask`: the update and the event in one transaction, and only while the task runs.
unfoldable pub requeue_orphaned_task : Faults → Time → Task → Table → Table
requeue_orphaned_task f now t table =
    if f.writes || f.events then table else update_running t.task_id (requeued now t) table

-- One round of `CleanupOrphanedTasks`, where the worker service is set. `is_alive` says of a worker
-- that it can be read and is not offline.
unfoldable pub check_orphan : (String → Bool) → Faults → Time → String → Table → Table → Table
check_orphan is_alive f now id seen table = if f.reads then table else elim (get id seen) [
  | none ↦ table
  | some t ↦
      if not (is_in_progress t.status)
      then table
      else if str_eq t.worker_id ""
      then requeue_orphaned_task f now t table
      else if is_alive t.worker_id
      then table
      else requeue_orphaned_task f now
          (record t { extend = complete_current_execution now t.extend }) table
]

-- `CleanupOrphanedTasks`, undisturbed.
unfoldable pub check_orphans : (String → Bool) → Faults → Time → List String → Table → Table
check_orphans is_alive f now [] table = table
check_orphans is_alive f now (id ∷ ids) table =
    check_orphans is_alive f now ids (check_orphan is_alive f now id table table)

unfoldable pub cleanup_orphaned_tasks : (String → Bool) → Faults → Time → Table → Table
cleanup_orphaned_tasks is_alive f now table =
    check_orphans is_alive f now (get_in_progress_tasks table) table

abbrev pub timed_out : Time → String → Task → Task
timed_out now text u = record u {
  status = failed;
  error = text;
  completed_at = some now;
  updated_at = now;
}

abbrev pub limit_of : Option ℤ → ℤ → ℤ
limit_of none default = default
limit_of (some own) default = own

-- One round of `CleanupTimedOutTasks`. `limits` has the timeouts of the endpoints that set one, and
-- `text` is the message.
unfoldable pub check_timeout :
    (String → Option ℤ) → ℤ → String → Faults → Time → String → Table → Table → Table
check_timeout limits default text f now id seen table =
    if f.reads then table else elim (get id seen) [
      | none ↦ table
      | some t ↦ elim t.started_at [
        | none ↦ table
        | some start ↦
            if is_in_progress t.status
              && ltb_ℤ (limit_of (limits t.endpoint) default) (since now start)
              && not f.writes
            then update_fields id (timed_out now text) table
            else table
      ]
    ]

unfoldable pub check_timeouts :
    (String → Option ℤ) → ℤ → String → Faults → Time → List String → Table → Table
check_timeouts limits default text f now [] table = table
check_timeouts limits default text f now (id ∷ ids) table =
    check_timeouts limits default text f now ids
      (check_timeout limits default text f now id table table)

-- `CleanupTimedOutTasks`, undisturbed.
unfoldable pub cleanup_timed_out_tasks :
    (String → Option ℤ) → ℤ → String → Faults → Time → Table → Table
cleanup_timed_out_tasks limits default text f now table =
    check_timeouts limits default text f now (get_in_progress_tasks table) table

abbrev pub reclaimed : Time → Task → Task
reclaimed now u = record u {
  status = pending;
  worker_id = "";
  started_at = none;
  completed_at = none;
  updated_at = now;
}

abbrev pub in_grace : ℤ → Time → Option Time → Bool
in_grace grace now none = false
in_grace grace now (some start) = ltb_ℤ (since now start) grace

-- One round of `reclaimWorkerTasks`, for a row that was listed for an offline worker.
unfoldable pub reclaim_task : ℤ → Faults → Time → Task → Table → Table
reclaim_task grace f now t table =
    if not (is_in_progress t.status) || in_grace grace now t.started_at || f.writes
    then table
    else update_fields t.task_id (reclaimed now) table
