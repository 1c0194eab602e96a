-- ===== src/Workers.antt =====
-- internal/service/worker_service.go over the tables of workers and tasks. Events and statistics,
-- which are written aside, are left out.
pub mod Draining
pub mod Offline
mod Tests
use waverless.Base.{
  ℕ, zero, ◌*◌, Bool, true, false, not, ◌&&◌, ◌||◌, Option, none, some, List, [], ◌∷◌, map, String,
  str_eq, ℤ, pos, negsuc, ltb_ℤ, leb_ℤ, eqb_ℤ, select, if◌then◌else◌, Time, since,
}
use waverless.Store.{WorkerRow}
use waverless.Store.Workers.{find_row}
use waverless.Store.Heartbeats.{
  update_heartbeat, update_status, update_last_task_time, mark_offline, get_all,
}
use waverless.Tasks.Table.{Task, Table, select_and_assign_tasks, get_tasks_by_worker}
use waverless.Tasks.Service.{Faults, or_default, reclaim_task}

pub record State : Type 0 where
  pub workers : List WorkerRow
  pub tasks : Table

-- What a pull meets: statements that fail, the transaction that commits, and whether the provider
-- says that a pod is terminating.
pub record Setting : Type 0 where
  pub heartbeat_fails : Bool
  pub get_fails : Bool
  pub status_fails : Bool
  pub commits : Bool
  pub is_terminating : String → Bool

-- The jobs that a worker reports: how many it names, and its count.
pub record Report : Type 0 where
  pub named : ℕ
  pub count : ℤ

-- `batchSize`, which is 1 unless a positive one is asked for.
abbrev pub batch_of : ℤ → ℕ
batch_of (pos zero) = 1
batch_of (pos n) = n
batch_of (negsuc n) = 1

abbrev pub row_of : String → List WorkerRow → Option WorkerRow
row_of id = find_row (λ w. str_eq w.worker_id id)

-- `PullJobs` behind the heartbeat; `none` is an error.
unfoldable pub pull_for : Setting → Time → String → String → ℤ → State → Option (List Task) × State
pull_for e now id endpoint batch s = if e.get_fails then (none, s) else elim (row_of id s.workers) [
  | none ↦ (none, s)
  | some w ↦
      if str_eq w.status "DRAINING"
      then (some [], s)
      else if e.is_terminating w.pod_name
      then (
        some [],
        if e.status_fails
            then s
            else record s { workers = update_status w.worker_id "DRAINING" s.workers },
      )
      else (let (given, tasks) =
            select_and_assign_tasks e.commits endpoint (batch_of batch) id now s.tasks in
          (given, record s { tasks = tasks }))
]

-- The heartbeat of a pull, whose failure is only logged.
unfoldable pub beat : Setting → Time → String → String → Report → List WorkerRow → List WorkerRow
beat e now id endpoint report ws =
    if e.heartbeat_fails then ws else update_heartbeat now id endpoint report.named report.count ws

-- `PullJobs`
unfoldable pub pull_jobs :
    Setting → Time → String → String → Report → ℤ → State → Option (List Task) × State
unfolding pull_for beat
pull_jobs e now id endpoint report batch s =
    let place = or_default endpoint in
    pull_for e now id place batch (record s { workers = beat e now id place report s.workers })

abbrev pub jobs_before : Option WorkerRow → ℤ
jobs_before none = pos 0
jobs_before (some w) = w.current_jobs

-- `HandleHeartbeat`, which passes the number of the named jobs as the count.
unfoldable pub handle_heartbeat : Setting → Time → String → String → ℕ → State → Bool × State
handle_heartbeat e now id endpoint named s =
    let before = if e.get_fails then pos 0 else jobs_before (row_of id s.workers) in
    let beaten = update_heartbeat now id (or_default endpoint) named (pos named) s.workers in
    if e.heartbeat_fails
    then (false, s)
    else if ltb_ℤ (pos 0) before && eqb_ℤ (pos named) (pos 0)
    then (true, record s { workers = update_last_task_time now id beaten })
    else (true, record s { workers = beaten })

-- The workers whose tasks `CleanupOfflineWorkers` reclaims: of those that are listed after the silent
-- ones were marked, the ones whose heartbeat is too old. `MarkOffline` reads the clock at `marked_at`,
-- the loop after the list was read at `now`.
unfoldable pub silent_workers : Time → Time → ℕ → List WorkerRow → List WorkerRow
silent_workers marked_at now timeout ws =
    select (λ w. ltb_ℤ (pos timeout) (since now w.last_heartbeat))
      (get_all (mark_offline marked_at timeout ws))

unfoldable pub reclaim_tasks : ℕ → Faults → Time → List Task → Table → Table
reclaim_tasks timeout f now [] table = table
reclaim_tasks timeout f now (t ∷ ts) table =
    reclaim_tasks timeout f now ts (reclaim_task (pos (2 * timeout)) f now t table)

-- `reclaimWorkerTasks` of each of the workers, which reads the clock of its own.
unfoldable pub reclaim_all : ℕ → Faults → (String → Time) → List WorkerRow → Table → Table
unfolding reclaim_tasks
reclaim_all timeout f clock [] table = table
reclaim_all timeout f clock (w ∷ ws) table =
    reclaim_all timeout f clock ws
      (reclaim_tasks timeout f (clock w.worker_id) (get_tasks_by_worker w.worker_id table) table)

-- `CleanupOfflineWorkers`, where the workers can be marked and listed.
unfoldable pub cleanup_offline_workers : ℕ → Faults → Time → Time → (String → Time) → State → State
unfolding silent_workers reclaim_all
cleanup_offline_workers timeout f marked_at now clock s = record {
  workers = mark_offline marked_at timeout s.workers;
  tasks = reclaim_all timeout f clock (silent_workers marked_at now timeout s.workers) s.tasks;
}
