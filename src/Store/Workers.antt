-- ===== src/Store/Workers.antt =====
-- pkg/store/mysql/worker_repository.go: the queries about failures.
pub mod Failures
use waverless.Base.{
  Bool, true, false, not, ◌&&◌, Option, none, some, List, [], ◌∷◌, map, String, str_eq, select,
  if◌then◌else◌, Time,
}
use waverless.Store.Tables.{
  WorkerRow, EndpointRow, Db, Query, Fails, by_failure_type, by_endpoint, worker_get, pod_get,
  failure_update,
}

-- `First`: the first row that passes a test.
abbrev pub find_row {ℓ} : {A : Type ℓ} → (A → Bool) → List A → Option A
find_row p [] = none
find_row p (x ∷ xs) = let rest = find_row p xs in if p x then some x else rest

abbrev pub is_offline : WorkerRow → Bool
is_offline w = str_eq w.status "OFFLINE"

module _ (fails : Fails) (db : Db) where
  unfoldable pub get_workers_by_failure_type : String → Option (List WorkerRow)
  get_workers_by_failure_type kind =
      if fails db (by_failure_type kind)
      then none
      else some (select (λ w. str_eq w.failure_type kind && not (is_offline w)) db.workers)

  -- `GetByEndpoint`: the active workers of an endpoint.
  unfoldable pub get_by_endpoint : String → Option (List WorkerRow)
  get_by_endpoint name =
      if fails db (by_endpoint name)
      then none
      else some (select (λ w. str_eq w.endpoint name && not (is_offline w)) db.workers)

  -- `Get`: no such worker is an error too.
  unfoldable pub get_worker : String → Option WorkerRow
  get_worker id =
      if fails db (worker_get id) then none else find_row (λ w. str_eq w.worker_id id) db.workers

  unfoldable pub find_pod : String → Option WorkerRow
  find_pod pod =
      if fails db (pod_get pod) then none else find_row (λ w. str_eq w.pod_name pod) db.workers

-- The columns that `UpdateWorkerFailure` writes; the time only if the row that was read has none.
abbrev pub with_failure : String → String → String → Option Time → WorkerRow → WorkerRow
with_failure kind reason details none w = record w {
  failure_type = kind;
  failure_reason = reason;
  failure_details = details;
}
with_failure kind reason details (some t) w = record w {
  failure_type = kind;
  failure_reason = reason;
  failure_details = details;
  failure_occurred_at = some t;
}

-- `Updates` on the rows of one pod.
abbrev pub update_pod : String → (WorkerRow → WorkerRow) → List WorkerRow → List WorkerRow
update_pod pod change ws = map (λ w. if str_eq w.pod_name pod then change w else w) ws

abbrev pub first_time : Option Time → Time → Option Time
first_time none t = some t
first_time (some old) t = none

unfoldable pub update_worker_failure : Fails → Db → String → String → String → String → Time → Db
update_worker_failure fails db pod kind reason details occurred_at = elim (find_pod fails db pod) [
  | none ↦ db
  | some w ↦ if fails db (failure_update pod) then db else record db {
    workers =
        update_pod pod
          (with_failure kind reason details (first_time w.failure_occurred_at occurred_at))
          db.workers;
  }
]

-- `ClearWorkerFailure`
unfoldable pub clear_worker_failure : Fails → Db → String → Db
clear_worker_failure fails db pod = if fails db (failure_update pod) then db else record db {
  workers =
      update_pod pod
        (λ w. record w {
          failure_type = "";
          failure_reason = "";
          failure_details = "";
          failure_occurred_at = none;
        })
        db.workers;
}
