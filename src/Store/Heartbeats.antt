-- ===== src/Store/Heartbeats.antt =====
-- pkg/store/mysql/worker_repository.go: heartbeats and the status of a worker. The columns with the
-- version and the names of the jobs are left out.
use waverless.Base.{
  ℕ, ◌+◌, Bool, false, not, ◌&&◌, ◌||◌, none, some, List, [], ◌∷◌, ◌++◌, map, String, str_eq, ℤ,
  pos, ltb, ltb_ℤ, eqb_ℤ, select, if◌then◌else◌, Time,
}
use waverless.Store.Tables.{WorkerRow}
use waverless.Store.Workers.{is_offline}

-- The jobs of a heartbeat: the named ones, or the count where none is named.
abbrev pub current_jobs_of : ℕ → ℤ → ℤ
current_jobs_of named count =
    if eqb_ℤ (pos named) (pos 0) && ltb_ℤ (pos 0) count then count else pos named

abbrev pub status_of : ℤ → String
status_of jobs = if ltb_ℤ (pos 0) jobs then "BUSY" else "ONLINE"

-- `CASE WHEN status = 'DRAINING' THEN status ELSE … END`
abbrev pub unless_draining : String → String → String
unless_draining old new = if str_eq old "DRAINING" then old else new

abbrev pub has_row : String → List WorkerRow → Bool
has_row id [] = false
has_row id (w ∷ ws) = str_eq w.worker_id id || has_row id ws

-- `Updates` on the rows of one worker.
abbrev pub update_worker : String → (WorkerRow → WorkerRow) → List WorkerRow → List WorkerRow
update_worker id change = map (λ w. if str_eq w.worker_id id then change w else w)

abbrev pub beaten : Time → String → ℤ → WorkerRow → WorkerRow
beaten now endpoint jobs w = record w {
  endpoint = endpoint;
  status = unless_draining w.status (status_of jobs);
  current_jobs = jobs;
  last_heartbeat = now;
}

-- The row that a heartbeat creates.
abbrev pub new_worker : Time → String → String → ℤ → WorkerRow
new_worker now id endpoint jobs = record {
  worker_id = id;
  endpoint = endpoint;
  pod_name = id;
  status = status_of jobs;
  failure_type = "";
  failure_reason = "";
  failure_details = "";
  failure_occurred_at = none;
  current_jobs = jobs;
  last_heartbeat = now;
  last_task_time = some now;
}

-- `UpdateHeartbeat`
unfoldable pub update_heartbeat : Time → String → String → ℕ → ℤ → List WorkerRow → List WorkerRow
update_heartbeat now id endpoint named count ws =
    let jobs = current_jobs_of named count in
    if has_row id ws
    then update_worker id (beaten now endpoint jobs) ws
    else ws ++ new_worker now id endpoint jobs ∷ []

-- `UpdateStatus`
abbrev pub update_status : String → String → List WorkerRow → List WorkerRow
update_status id status = update_worker id (λ w. record w { status = status })

-- `UpdateLastTaskTime`
abbrev pub update_last_task_time : Time → String → List WorkerRow → List WorkerRow
update_last_task_time now id = update_worker id (λ w. record w { last_task_time = some now })

-- `last_heartbeat < now - timeout AND status NOT IN (OFFLINE, STARTING)`
abbrev pub is_silent : Time → ℕ → WorkerRow → Bool
is_silent now timeout w =
    ltb (w.last_heartbeat + timeout) now && not (is_offline w || str_eq w.status "STARTING")

-- `MarkOffline`, at the time that its own clock reads.
unfoldable pub mark_offline : Time → ℕ → List WorkerRow → List WorkerRow
mark_offline now timeout = map (λ w.
    if is_silent now timeout w then record w { status = "OFFLINE"; current_jobs = pos 0 } else w)

-- `GetAll`: the active workers.
abbrev pub get_all : List WorkerRow → List WorkerRow
get_all = select (λ w. not (is_offline w))
