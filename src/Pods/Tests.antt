-- ===== src/Pods/Tests.antt =====
-- The theorems on failing pods at concrete inputs: the default tables, and one worker.
use waverless.Base.{◌≡◌, refl, false, true, none, some, List, [], ◌∷◌, pos}
use waverless.Base.Text.{to_lower}
use waverless.Store.{WorkerRow, Db}
use waverless.Store.Workers.{get_workers_by_failure_type}
use waverless.Store.Endpoints.{is_image_related_failure, contains, find_substring, stands_from}
use waverless.Pods.Sanitizer.{StatusSanitizer, image_pull, new_status_sanitizer, sanitize}
use waverless.Pods.Monitor.{
  PodInfo, classify_k8s_failure, is_failure_state, failure_type_of, sanitized_message,
  detect_failure, store_failure,
}
use waverless.Pods.Monitor.Listed.{Listed, store_failure-Listed}

abbrev worker : WorkerRow
worker = record {
  worker_id = "w";
  endpoint = "e";
  pod_name = "p";
  status = "ONLINE";
  failure_type = "";
  failure_reason = "";
  failure_details = "";
  failure_occurred_at = none;
  current_jobs = pos 0;
  last_heartbeat = 1;
  last_task_time = none;
}

abbrev database : Db
database = record { workers = worker ∷ []; endpoints = []; configs = [] }

abbrev sanitizer : StatusSanitizer
sanitizer = new_status_sanitizer []

abbrev pod : PodInfo
pod = record {
  status = "Failed";
  reason = "RegistryUnavailable";
  message = "failed to pull image";
  deletion_timestamp = "";
}

store_failure-Listed_example :
    let kind = failure_type_of pod in
    let after =
      store_failure
        (λ d q. false)
        (λ info. none)
        true
        database
        "p"
        (detect_failure (some sanitizer) 9 (some pod)) in
    (ws : List WorkerRow) × (get_workers_by_failure_type (λ d q. false) after kind ≡ some ws)
    × Listed "p" kind (sanitized_message (some sanitizer) kind pod) ws
unfolding is_failure_state to_lower
store_failure-Listed_example =
    store_failure-Listed (λ d q. false) (λ info. none) (some sanitizer) 9 database "p" pod worker
      (λ d q. refl) refl refl refl refl

-- A registry that is unavailable counts as a failing image, but its sanitized message is not about
-- an image.
registry_is_image_pull : failure_type_of pod ≡ image_pull
unfolding classify_k8s_failure
registry_is_image_pull = refl

registry_does_not_block :
    is_image_related_failure (sanitized_message (some sanitizer) image_pull pod) ≡ false
unfolding is_image_related_failure contains find_substring stands_from sanitize new_status_sanitizer
registry_does_not_block = refl
