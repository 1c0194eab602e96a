-- ===== src/Pods/Monitor.antt =====
-- pkg/deploy/k8s/worker_status_monitor.go.
pub mod Listed
use Prim.Native.String.{◌++◌ as str_append}
use waverless.Base.{
  Bool, true, false, not, ◌&&◌, ◌||◌, Option, none, some, List, [], ◌∷◌, String, str_eq,
  if◌then◌else◌, Time,
}
use waverless.Base.Text.{to_lower, has_substring}
use waverless.Tasks.Names.{has_name}
use waverless.Store.{Db, Fails}
use waverless.Store.Workers.{update_worker_failure}
use waverless.Pods.Mappings.{SanitizedError}
use waverless.Pods.Sanitizer.{
  WorkerFailureInfo, StatusSanitizer, image_pull, container_crash, resource_limit, timeout, unknown,
  sanitize,
}

-- `interfaces.PodInfo`, as far as it is read.
pub record PodInfo : Type 0 where
  pub status : String
  pub reason : String
  pub message : String
  pub deletion_timestamp : String

abbrev pub failure_reasons : List String
failure_reasons =
    "ImagePullBackOff" ∷ "ErrImagePull" ∷ "InvalidImageName" ∷ "ImageInspectError"
    ∷ "CrashLoopBackOff" ∷ "Error" ∷ "OOMKilled" ∷ "ContainerCannotRun" ∷ "OutOfMemory" ∷ "OutOfCpu"
    ∷ "Unschedulable" ∷ "FailedScheduling" ∷ "FailedMount" ∷ "FailedAttachVolume"
    ∷ "CreateContainerError" ∷ []

-- `strings.EqualFold` with the text "Failed".
abbrev pub is_failed_text : String → Bool
is_failed_text text = str_eq (to_lower text) "failed"

unfoldable pub is_failure_state : String → String → Bool
unfolding to_lower
is_failure_state reason status =
    has_name failure_reasons reason
    || has_name failure_reasons status
    || is_failed_text status
    || is_failed_text reason

-- The words of a reason and of a message, in small letters.
abbrev pub tells_image : String → Bool
tells_image reason =
    has_substring reason "image"
    && (has_substring reason "pull"
        || has_substring reason "error"
        || has_substring reason "invalid")

abbrev pub tells_crash : String → Bool
tells_crash reason =
    has_substring reason "crash" || has_substring reason "oom" || has_substring reason "killed"

abbrev pub tells_resource : String → Bool
tells_resource reason =
    has_substring reason "memory"
    || has_substring reason "cpu"
    || has_substring reason "resource"
    || has_substring reason "unschedulable"

abbrev pub message_tells_image : String → Bool
message_tells_image message =
    has_substring message "image"
    && (has_substring message "pull"
        || has_substring message "not found"
        || has_substring message "unauthorized")

abbrev pub message_tells_resource : String → Bool
message_tells_resource message =
    has_substring message "insufficient" || has_substring message "no nodes available"

-- What the message says, where the reason says nothing.
abbrev pub classify_message : String → String → String
classify_message reason message =
    if message_tells_image message
    then image_pull
    else if message_tells_resource message
    then resource_limit
    else if has_substring reason "timeout" || has_substring message "timeout"
    then timeout
    else unknown

unfoldable pub classify_k8s_failure : String → String → String
unfolding to_lower has_substring
classify_k8s_failure reason message =
    let reason_lower = to_lower reason in
    if has_name
      ("ImagePullBackOff" ∷ "ErrImagePull" ∷ "InvalidImageName" ∷ "ImageInspectError" ∷ []) reason
    then image_pull
    else if tells_image reason_lower
    then image_pull
    else if has_name
        ("CrashLoopBackOff" ∷ "Error" ∷ "OOMKilled" ∷ "ContainerCannotRun" ∷ "CreateContainerError"
          ∷ [])
        reason
    then container_crash
    else if tells_crash reason_lower
    then container_crash
    else if has_name ("OutOfMemory" ∷ "OutOfCpu" ∷ "Unschedulable" ∷ "FailedScheduling" ∷ []) reason
    then resource_limit
    else if tells_resource reason_lower
    then resource_limit
    else classify_message reason_lower (to_lower message)

-- The reason first, then the status.
abbrev pub failure_type_of : PodInfo → String
failure_type_of info =
    let by_reason = classify_k8s_failure info.reason info.message in
    if str_eq by_reason unknown then classify_k8s_failure info.status info.message else by_reason

abbrev pub message_of_error : SanitizedError → String
message_of_error e =
    if str_eq e.suggestion ""
    then e.user_message
    else str_append (str_append e.user_message ". ") e.suggestion

-- The sanitizer may be nil.
abbrev pub sanitized_message : Option StatusSanitizer → String → PodInfo → String
sanitized_message none failure_type info = ""
sanitized_message (some s) failure_type info =
    message_of_error (sanitize s failure_type info.reason info.message)

abbrev pub failure_of : Option StatusSanitizer → Time → PodInfo → WorkerFailureInfo
failure_of s now info = record {
  failure_type = failure_type_of info;
  reason = info.reason;
  message = info.message;
  sanitized_msg = sanitized_message s (failure_type_of info) info;
  occurred_at = now;
}

unfoldable pub detect_failure :
    Option StatusSanitizer → Time → Option PodInfo → Option WorkerFailureInfo
unfolding classify_k8s_failure is_failure_state
detect_failure s now none = none
detect_failure s now (some info) =
    if not (str_eq info.deletion_timestamp "")
    then none
    else if not (is_failure_state info.reason info.status)
    then none
    else some (failure_of s now info)

abbrev pub or_empty_object : Option String → String
or_empty_object none = "{}"
or_empty_object (some details) = details

-- `marshal` is the JSON text of the details, or an error.
unfoldable pub store_failure :
    Fails
    → (WorkerFailureInfo → Option String)
    → (has_repo : Bool) → Db
    → (pod : String) → Option WorkerFailureInfo
    → Db
store_failure fails marshal has_repo db pod none = db
store_failure fails marshal has_repo db pod (some info) =
    if has_repo
    then (update_worker_failure fails db pod info.failure_type info.sanitized_msg
        (or_empty_object (marshal info)) info.occurred_at)
    else db
