-- ===== src/Pods/Sanitizer.antt =====
-- pkg/status/sanitizer.go. Go visits the entries of a map in any order: here it is that of the
-- table. A pattern is its `ReplaceAllString`, since regular expressions belong to Go's library; the
-- default patterns are not translated.
use Prim.Native.String.{◌++◌ as str_append}
use waverless.Base.{
  Bool, not, ◌&&◌, Option, none, some, List, [], ◌∷◌, ◌++◌, String, str_eq, if◌then◌else◌, Time,
}
use waverless.Base.Dict.{StringMap, load, store}
use waverless.Base.Text.{to_lower, has_substring}
use waverless.Pods.Mappings.{
  SanitizedError, image_pull_error_mappings, container_crash_error_mappings,
  resource_limit_error_mappings, timeout_error_mappings, unknown_error_mappings,
}

-- `interfaces.FailureType`
abbrev pub image_pull : String
image_pull = "IMAGE_PULL_FAILED"

abbrev pub container_crash : String
container_crash = "CONTAINER_CRASH"

abbrev pub resource_limit : String
resource_limit = "RESOURCE_LIMIT"

abbrev pub timeout : String
timeout = "TIMEOUT"

abbrev pub unknown : String
unknown = "UNKNOWN"

-- `interfaces.WorkerFailureInfo`
pub record WorkerFailureInfo : Type 0 where
  pub failure_type : String
  pub reason : String
  pub message : String
  pub sanitized_msg : String
  pub occurred_at : Time

pub record StatusSanitizer : Type 0 where
  pub error_mappings : StringMap (StringMap SanitizedError)
  pub sensitive_patterns : List (String → String)

unfoldable pub new_status_sanitizer : List (String → String) → StatusSanitizer
new_status_sanitizer patterns = record {
  error_mappings =
      (image_pull, image_pull_error_mappings)
      ∷ (container_crash, container_crash_error_mappings)
      ∷ (resource_limit, resource_limit_error_mappings)
      ∷ (timeout, timeout_error_mappings)
      ∷ (unknown, unknown_error_mappings)
      ∷ [];
  sensitive_patterns = patterns;
}

-- The first entry whose key passes a test.
abbrev pub first_entry : (String → Bool) → StringMap SanitizedError → Option SanitizedError
first_entry p [] = none
first_entry p (entry ∷ rest) =
    let later = first_entry p rest in if p entry.0 then some entry.1 else later

abbrev pub or_try : Option SanitizedError → Option SanitizedError → Option SanitizedError
or_try none later = later
or_try (some e) later = some e

abbrev pub is_part : String → String → Bool
is_part text key = not (str_eq key "default") && has_substring text (to_lower key)

-- A missing table is nil, which has no entries.
abbrev pub or_no_mappings : Option (StringMap SanitizedError) → StringMap SanitizedError
or_no_mappings none = []
or_no_mappings (some mappings) = mappings

abbrev pub or_unknown :
    StatusSanitizer → Option (StringMap SanitizedError) → StringMap SanitizedError
or_unknown s none = or_no_mappings (load unknown s.error_mappings)
or_unknown s (some mappings) = mappings

abbrev pub fallback : SanitizedError
fallback = record {
  user_message = "An error occurred";
  suggestion = "Please contact technical support";
  error_code = "ERROR";
}

abbrev pub or_fallback : Option SanitizedError → SanitizedError
or_fallback none = fallback
or_fallback (some e) = e

-- The look-ups of `Sanitize` in one table.
abbrev pub look_up : StringMap SanitizedError → String → String → SanitizedError
look_up mappings reason message =
    let reason_lower = to_lower reason in
    let message_lower = to_lower message in
    or_fallback (
      or_try (load reason mappings) (
        or_try (first_entry (λ key. str_eq (to_lower key) reason_lower) mappings) (
          or_try (first_entry (is_part reason_lower) mappings)
            (or_try (first_entry (is_part message_lower) mappings) (load "default" mappings)))))

unfoldable pub sanitize : StatusSanitizer → String → String → String → SanitizedError
unfolding to_lower has_substring load
sanitize s failure_type reason message =
    look_up (or_unknown s (load failure_type s.error_mappings)) reason message

abbrev pub replace_each : List (String → String) → String → String
replace_each [] message = message
replace_each (replace ∷ rest) message = replace_each rest (replace message)

unfoldable pub sanitize_sensitive_info : StatusSanitizer → String → String
sanitize_sensitive_info s message =
    if str_eq message "" then message else replace_each s.sensitive_patterns message

unfoldable pub add_error_mapping :
    StatusSanitizer → String → String → SanitizedError → StatusSanitizer
add_error_mapping s failure_type reason sanitized = record s {
  error_mappings =
      store failure_type
        (store reason sanitized (or_no_mappings (load failure_type s.error_mappings)))
        s.error_mappings;
}

unfoldable pub add_sensitive_pattern : StatusSanitizer → (String → String) → StatusSanitizer
add_sensitive_pattern s pattern = record s {
  sensitive_patterns = s.sensitive_patterns ++ (pattern ∷ []);
}

unfoldable pub get_error_mapping : StatusSanitizer → String → String → Option SanitizedError
get_error_mapping s failure_type reason =
    load reason (or_no_mappings (load failure_type s.error_mappings))

unfoldable pub sanitize_worker_failure_info :
    StatusSanitizer → Option WorkerFailureInfo → Option WorkerFailureInfo
unfolding sanitize sanitize_sensitive_info
sanitize_worker_failure_info s none = none
sanitize_worker_failure_info s (some info) =
    let sanitized = sanitize s info.failure_type info.reason info.message in
    some (record info {
      message = sanitize_sensitive_info s info.message;
      sanitized_msg = str_append sanitized.user_message (str_append ". " sanitized.suggestion);
    })
