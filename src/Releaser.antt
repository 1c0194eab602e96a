-- ===== src/Releaser.antt =====
-- pkg/resource/releaser.go. The state is the database, the map of tracked workers and what was
-- asked of the deployment provider. One check reads the clock once, and the endpoints to update
-- are taken in the order in which they were found (Go's map has no order).
pub mod Health
pub mod Blocking
pub mod Retries
pub mod Terminations
pub mod Cleanup
mod Tests
use waverless.Base.{
  Bool, true, false, not, ◌&&◌, ◌||◌, Option, none, some, List, [], ◌∷◌, ◌++◌, map, String, str_eq,
  ℤ, pos, add_int, leb_ℤ, ltb, ◌==◌, ℕ, suc, length, select, if◌then◌else◌, Time, since,
}
use waverless.Base.Dict.{load, store, delete}
use waverless.Store.{WorkerRow, EndpointRow, Db, Fails}
use waverless.Store.Workers.{
  get_workers_by_failure_type, get_by_endpoint, get_worker, update_worker_failure,
}
use waverless.Store.Endpoints.{update_health_status, get_by_health_status}

pub data HealthStatus : Type 0 where
  healthy degraded unhealthy : HealthStatus

abbrev pub text_of : HealthStatus → String
text_of healthy = "HEALTHY"
text_of degraded = "DEGRADED"
text_of unhealthy = "UNHEALTHY"

-- `failedWorkerInfo`
pub record FailedWorkerInfo : Type 0 where
  pub first_failure_time : Time
  pub retry_count : ℤ

abbrev pub Tracked : Type 0
Tracked = List (String × FailedWorkerInfo)

pub record State : Type 0 where
  pub db : Db
  pub tracked : Tracked
  pub terminations : List (String × String)
  pub scaled : List (String × ℤ)

-- The provider's answers, the database's failures, the clock and the configuration.
pub record Setting : Type 0 where
  pub fails : Fails
  pub can_terminate : Bool
  pub terminates : State → String → String → Bool
  pub now : Time
  pub image_pull_timeout : ℤ
  pub max_retries : ℤ

-- The worker failed to pull its image, or its container crashed.
abbrev pub is_failed : WorkerRow → Bool
is_failed w = str_eq w.failure_type "IMAGE_PULL_FAILED" || str_eq w.failure_type "CONTAINER_CRASH"

-- `firstFailureReason`: the first reason of a failed worker that is not empty.
unfoldable pub first_reason : List WorkerRow → String
first_reason [] = ""
first_reason (w ∷ ws) =
    let rest = first_reason ws in
    if is_failed w && not (str_eq w.failure_reason "") then w.failure_reason else rest

unfoldable pub health_of : List WorkerRow → HealthStatus
health_of ws =
    let failed = length (select is_failed ws) in
    if length ws == 0
    then healthy
    else if failed == 0
    then healthy
    else if ltb failed (length ws)
    then degraded
    else unhealthy

abbrev pub or_else : String → String → String
or_else reason fallback = if not (str_eq reason "") then reason else fallback

unfoldable pub message_for : HealthStatus → List WorkerRow → String
message_for healthy ws = ""
message_for degraded ws = or_else (first_reason ws) "Some workers failed to start"
message_for unhealthy ws = or_else (first_reason ws) "All workers failed to start"

abbrev pub is_unhealthy : HealthStatus → Bool
is_unhealthy unhealthy = true
is_unhealthy _ = false

module _ (e : Setting) where
  -- `UpdateEndpointHealthStatus`. A failed query or write ends it with an error.
  unfoldable pub update_endpoint_health_status : State → String → State
  update_endpoint_health_status s endpoint = elim (get_by_endpoint e.fails s.db endpoint) [
    | none ↦ s
    | some workers ↦
        let health = health_of workers in
        let (db, written) =
          update_health_status e.fails s.db endpoint (text_of health) (message_for health workers)
            e.now in
        if written && is_unhealthy health
        then record s { db = db; scaled = (endpoint, pos 0) ∷ s.scaled }
        else record s { db = db }
  ]

  -- `getOrCreateFailedWorkerInfo`
  unfoldable pub get_or_create : State → String → Time → FailedWorkerInfo × State
  get_or_create s id failure_time = elim (load id s.tracked) [
    | some info ↦ (info, s)
    | none ↦
        let info : FailedWorkerInfo = record {
          first_failure_time = failure_time;
          retry_count = pos 0;
        } in
        (info, record s { tracked = store id info s.tracked })
  ]

  unfoldable pub update_worker_timeout_status : State → WorkerRow → State
  update_worker_timeout_status s w = record s {
    db =
        update_worker_failure e.fails s.db w.pod_name "TIMEOUT"
          "Image pull timeout, resources released" w.failure_details e.now;
  }

  -- The outcome of a call of the provider, recorded.
  unfoldable pub after_termination : State → WorkerRow → FailedWorkerInfo → Bool → State
  unfolding update_worker_timeout_status
  after_termination s w info false = record s {
    tracked =
        store w.worker_id (record info { retry_count = add_int info.retry_count (pos 1) })
          s.tracked;
  }
  after_termination s w info true =
      let t = update_worker_timeout_status s w in
      record t { tracked = delete w.worker_id t.tracked }

  unfoldable pub terminate_worker : State → WorkerRow → FailedWorkerInfo → State
  unfolding after_termination
  terminate_worker s w info =
      let called = record s { terminations = (w.endpoint, w.worker_id) ∷ s.terminations } in
      if leb_ℤ e.max_retries info.retry_count
      then s
      else if not e.can_terminate
      then update_worker_timeout_status s w
      else after_termination called w info (e.terminates s w.endpoint w.worker_id)

  -- One round of the loop of `CheckAndRelease`.
  unfoldable pub check_worker : State → WorkerRow → State
  check_worker s w = elim w.failure_occurred_at [
    | none ↦ s
    | some time ↦
        let (info, s') = get_or_create s w.pod_name time in
        if leb_ℤ e.image_pull_timeout (since e.now info.first_failure_time)
        then terminate_worker s' w info
        else s'
  ]

  unfoldable pub check_workers : State → List WorkerRow → State
  unfolding check_worker
  check_workers s [] = s
  check_workers s (w ∷ ws) = check_workers (check_worker s w) ws

  -- A tracked worker stays while its row is there and still failed.
  abbrev pub still_failed : Db → String → Bool
  still_failed db id = elim (get_worker e.fails db id) [ none ↦ false | some w ↦ is_failed w ]

  unfoldable pub cleanup_tracked_workers : State → State
  cleanup_tracked_workers s = record s { tracked = select (λ t. still_failed s.db t.0) s.tracked }

  abbrev pub has_name : List String → String → Bool
  has_name [] n = false
  has_name (m ∷ ms) n = str_eq m n || has_name ms n

  -- Adding names to a set of names.
  unfoldable pub add_names : List String → List String → List String
  add_names set [] = set
  add_names set (n ∷ ns) = add_names (if has_name set n then set else set ++ n ∷ []) ns

  abbrev pub endpoint_names : Option (List EndpointRow) → List String
  endpoint_names none = []
  endpoint_names (some eps) = map (λ ep. ep.endpoint) eps

  -- The endpoints whose health is derived anew.
  unfoldable pub endpoints_to_update : State → List WorkerRow → List String
  unfolding add_names
  endpoints_to_update s ws =
      let failed = add_names [] (map (λ w. w.endpoint) ws) in
      let poor = endpoint_names (get_by_health_status e.fails s.db "UNHEALTHY") in
      let fair = endpoint_names (get_by_health_status e.fails s.db "DEGRADED") in
      add_names (add_names failed poor) fair

  unfoldable pub update_endpoints : State → List String → State
  unfolding update_endpoint_health_status
  update_endpoints s [] = s
  update_endpoints s (n ∷ ns) = update_endpoints (update_endpoint_health_status s n) ns

  -- The work on the failed workers, if there are any.
  unfoldable pub release : State → List WorkerRow → State
  unfolding check_workers endpoints_to_update update_endpoints
  release s [] = s
  release s (w ∷ ws) =
      let checked = check_workers s (w ∷ ws) in
      update_endpoints checked (endpoints_to_update checked (w ∷ ws))

  unfoldable pub check_and_release : State → State
  unfolding release cleanup_tracked_workers
  check_and_release s = elim (get_workers_by_failure_type e.fails s.db "IMAGE_PULL_FAILED") [
    | none ↦ s
    | some pulls ↦ elim (get_workers_by_failure_type e.fails s.db "CONTAINER_CRASH") [
      | none ↦ s
      | some crashes ↦ cleanup_tracked_workers (release s (pulls ++ crashes))
    ]
  ]
