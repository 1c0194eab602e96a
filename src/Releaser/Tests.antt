-- ===== src/Releaser/Tests.antt =====
-- The theorems on the releaser and on the failures of workers at concrete inputs.
use waverless.Base.{◌≡◌, ◌⊎◌, refl, true, false, none, some, [], ◌∷◌, String, pos, arith}
use waverless.Store.{WorkerRow, EndpointRow, Db}
use waverless.Store.Workers.{get_workers_by_failure_type, find_pod}
use waverless.Releaser.{
  State, Setting, unhealthy, health_of, message_for, update_endpoint_health_status, check_worker,
  check_and_release,
}
use waverless.Releaser.Health.{AllFailed, update_endpoint_health_status-scales}
use waverless.Releaser.Retries.{IsCapped, check_and_release-IsCapped}
use waverless.Releaser.Terminations.{IsDue, check_worker-IsDue}
use waverless.Store.Endpoints.{
  is_blocked_due_to_image_failure, is_image_related_failure, contains, find_substring, stands_from,
}
use waverless.Store.Workers.{get_by_endpoint}
use waverless.Releaser.Blocking.{verdict, update_endpoint_health_status-verdict}

abbrev failed_worker : WorkerRow
failed_worker = record {
  worker_id = "id";
  endpoint = "e";
  pod_name = "pod";
  status = "STARTING";
  failure_type = "IMAGE_PULL_FAILED";
  failure_reason = "no such image";
  failure_details = "";
  failure_occurred_at = some 1000;
  current_jobs = pos 0;
  last_heartbeat = 500;
  last_task_time = none;
}

abbrev fine_worker : WorkerRow
fine_worker = record failed_worker { worker_id = "ok"; pod_name = "ok"; failure_type = "" }

abbrev marked : String → EndpointRow
marked health = record {
  endpoint = "e";
  spec_name = "";
  description = "";
  image = "";
  image_prefix = "";
  image_digest = "";
  image_last_checked = none;
  latest_image = "";
  replicas = pos 1;
  gpu_count = pos 1;
  task_timeout = pos 0;
  enable_ptrace = false;
  max_pending_tasks = pos 1;
  env = none;
  labels = none;
  runtime_state = none;
  created_at = 1;
  updated_at = 1;
  status = "active";
  health_status = health;
  health_message = none;
  last_health_check_at = none;
}

abbrev database : Db
database = record { workers = failed_worker ∷ []; endpoints = marked "HEALTHY" ∷ []; configs = [] }

-- A provider that refuses to terminate, 300 seconds after the failure.
abbrev setting : Setting
setting = record {
  fails = λ db q. false;
  can_terminate = true;
  terminates = λ s endpoint id. false;
  now = 300000001000;
  image_pull_timeout = pos 300000000000;
  max_retries = pos 3;
}

abbrev start : State
start = record { db = database; tracked = []; terminations = []; scaled = [] }

update_endpoint_health_status-scales_example :
    ((update_endpoint_health_status setting start "e").scaled ≡ [])
    ⊎ (((update_endpoint_health_status setting start "e").scaled ≡ ("e", pos 0) ∷ [])
        × AllFailed setting start "e")
update_endpoint_health_status-scales_example =
    update_endpoint_health_status-scales setting start "e"

check_and_release-IsCapped_example : IsCapped (pos 3) (check_and_release setting start)
check_and_release-IsCapped_example =
    check_and_release-IsCapped setting (omega arith) (omega arith) start tt

check_worker-IsDue_example :
    ((check_worker setting start failed_worker).terminations ≡ [])
    ⊎ (((check_worker setting start failed_worker).terminations ≡ ("e", "id") ∷ [])
        × IsDue setting start failed_worker)
check_worker-IsDue_example = check_worker-IsDue setting start failed_worker

lists_failed :
    get_workers_by_failure_type setting.fails database "IMAGE_PULL_FAILED"
    ≡ some (failed_worker ∷ [])
unfolding get_workers_by_failure_type
lists_failed = refl

lists_crashed : get_workers_by_failure_type setting.fails database "CONTAINER_CRASH" ≡ some []
unfolding get_workers_by_failure_type
lists_crashed = refl

-- The worker has gone offline, and its endpoint is still marked.
abbrev gone : State
gone = record start {
  db = record database {
    workers = record failed_worker { status = "OFFLINE" } ∷ [];
    endpoints = marked "UNHEALTHY" ∷ [];
    configs = [];
  };
}

no_pulls : get_workers_by_failure_type setting.fails gone.db "IMAGE_PULL_FAILED" ≡ some []
unfolding get_workers_by_failure_type
no_pulls = refl

no_crashes : get_workers_by_failure_type setting.fails gone.db "CONTAINER_CRASH" ≡ some []
unfolding get_workers_by_failure_type
no_crashes = refl

finds_pod : find_pod setting.fails database "pod" ≡ some failed_worker
unfolding find_pod
finds_pod = refl

has_failed : get_by_endpoint setting.fails database "e" ≡ some (failed_worker ∷ [])
unfolding get_by_endpoint
has_failed = refl

is_poor : health_of (failed_worker ∷ []) ≡ unhealthy
unfolding health_of
is_poor = refl

update_endpoint_health_status-verdict_example :
    is_blocked_due_to_image_failure setting.fails
      (update_endpoint_health_status setting start "e").db
      "e"
    ≡ some (verdict (message_for unhealthy (failed_worker ∷ [])))
update_endpoint_health_status-verdict_example =
    update_endpoint_health_status-verdict setting start "e" (λ db q. refl) has_failed is_poor refl

-- A worker's reason can name the image; the message of the releaser itself does not.
blocks_no_such_image : verdict "no such image" ≡ (true, "no such image")
unfolding is_image_related_failure contains find_substring stands_from
blocks_no_such_image = refl

passes_own_message : verdict "All workers failed to start" ≡ (false, "")
unfolding is_image_related_failure contains find_substring stands_from
passes_own_message = refl
