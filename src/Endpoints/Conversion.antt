-- ===== src/Endpoints/Conversion.antt =====
-- internal/service/endpoint/metadata.go, the conversions, and the metadata of pkg/interfaces/metadata.go that it
-- reads or writes. The volume mounts, the counters of tasks and workers and those of the queue are
-- left out.
use waverless.Base.{
  Bool, true, Option, none, some, String, str_eq, ℤ, pos, eqb_ℤ, if◌then◌else◌, Time, is_zero,
}
use waverless.Base.Dict.{StringMap, load}
use waverless.Store.{Json, text, number, JsonMap, EndpointRow, ConfigRow}
use waverless.Store.JsonColumns.{string_map_to_json_map, json_map_to_string_map}

pub record EndpointMetadata : Type 0 where
  pub name : String
  pub namespace : String
  pub display_name : String
  pub description : String
  pub spec_name : String
  pub image : String
  pub image_prefix : String
  pub image_digest : String
  pub image_last_checked : Option Time
  pub latest_image : String
  pub replicas : ℤ
  pub gpu_count : ℤ
  pub min_replicas : ℤ
  pub max_replicas : ℤ
  pub scale_up_threshold : ℤ
  pub scale_down_idle_time : ℤ
  pub scale_up_cooldown : ℤ
  pub scale_down_cooldown : ℤ
  pub priority : ℤ
  pub enable_dynamic_prio : Option Bool
  pub high_load_threshold : ℤ
  pub priority_boost : ℤ
  pub autoscaler_enabled : Option String
  pub last_scale_time : Time
  pub last_task_time : Time
  pub first_pending_time : Time
  pub env : Option (StringMap String)
  pub labels : Option (StringMap String)
  pub task_timeout : ℤ
  pub enable_ptrace : Bool
  pub max_pending_tasks : ℤ
  pub status : String
  pub ready_replicas : ℤ
  pub available_replicas : ℤ
  pub health_status : String
  pub health_message : String
  pub last_health_check_at : Option Time
  pub shm_size : String
  pub created_at : Time
  pub updated_at : Time

abbrev pub default_if_zero : ℤ → ℤ → ℤ
default_if_zero value fallback = if eqb_ℤ value (pos 0) then fallback else value

-- A Boolean that is set, or true.
abbrev pub or_true : Option Bool → Bool
or_true none = true
or_true (some b) = b

unfoldable pub ensure_metadata_defaults : EndpointMetadata → EndpointMetadata
ensure_metadata_defaults meta = record meta {
  status = if str_eq meta.status "" then "Deploying" else meta.status;
  display_name = if str_eq meta.display_name "" then meta.name else meta.display_name;
  enable_dynamic_prio = some (or_true meta.enable_dynamic_prio);
}

-- The fields that the literal leaves out have Go's zero value.
unfoldable pub to_mysql_endpoint : EndpointMetadata → EndpointRow
to_mysql_endpoint meta = record {
  endpoint = meta.name;
  spec_name = meta.spec_name;
  description = meta.description;
  image = meta.image;
  image_prefix = meta.image_prefix;
  image_digest = meta.image_digest;
  image_last_checked = meta.image_last_checked;
  latest_image = meta.latest_image;
  replicas = meta.replicas;
  gpu_count = meta.gpu_count;
  task_timeout = meta.task_timeout;
  enable_ptrace = meta.enable_ptrace;
  max_pending_tasks = pos 0;
  env = string_map_to_json_map meta.env;
  labels = string_map_to_json_map meta.labels;
  runtime_state = none;
  status = meta.status;
  health_status = "";
  health_message = none;
  last_health_check_at = none;
  created_at = meta.created_at;
  updated_at = meta.updated_at;
}

-- `RuntimeState[key].(string)` and `int(RuntimeState[key].(float64))`, or the zero value.
abbrev pub text_or_empty : Option Json → String
text_or_empty (some (text s)) = s
text_or_empty _ = ""

abbrev pub number_or_zero : Option Json → ℤ
number_or_zero (some (number n)) = n
number_or_zero _ = pos 0

abbrev pub in_state : String → JsonMap → Option Json
in_state key none = none
in_state key (some state) = load key state

abbrev pub or_empty : Option String → String
or_empty none = ""
or_empty (some s) = s

unfoldable pub from_mysql_endpoint : EndpointRow → EndpointMetadata
from_mysql_endpoint ep = record {
  name = ep.endpoint;
  namespace = text_or_empty (in_state "namespace" ep.runtime_state);
  display_name = "";
  description = ep.description;
  spec_name = ep.spec_name;
  image = ep.image;
  image_prefix = ep.image_prefix;
  image_digest = ep.image_digest;
  image_last_checked = ep.image_last_checked;
  latest_image = ep.latest_image;
  replicas = ep.replicas;
  gpu_count = ep.gpu_count;
  min_replicas = pos 0;
  max_replicas = pos 0;
  scale_up_threshold = pos 0;
  scale_down_idle_time = pos 0;
  scale_up_cooldown = pos 0;
  scale_down_cooldown = pos 0;
  priority = pos 0;
  enable_dynamic_prio = none;
  high_load_threshold = pos 0;
  priority_boost = pos 0;
  autoscaler_enabled = none;
  last_scale_time = 0;
  last_task_time = 0;
  first_pending_time = 0;
  env = json_map_to_string_map ep.env;
  labels = json_map_to_string_map ep.labels;
  task_timeout = ep.task_timeout;
  enable_ptrace = ep.enable_ptrace;
  max_pending_tasks = ep.max_pending_tasks;
  status = ep.status;
  ready_replicas = number_or_zero (in_state "readyReplicas" ep.runtime_state);
  available_replicas = number_or_zero (in_state "availableReplicas" ep.runtime_state);
  health_status = ep.health_status;
  health_message = or_empty ep.health_message;
  last_health_check_at = ep.last_health_check_at;
  shm_size = text_or_empty (in_state "shmSize" ep.runtime_state);
  created_at = ep.created_at;
  updated_at = ep.updated_at;
}

abbrev pub time_or : Time → Option Time → Time
time_or before none = before
time_or before (some t) = t

unfoldable pub merge_autoscaler_config : EndpointMetadata → ConfigRow → EndpointMetadata
merge_autoscaler_config meta cfg = record meta {
  display_name = cfg.display_name;
  spec_name = if str_eq meta.spec_name "" then cfg.spec_name else meta.spec_name;
  replicas = if eqb_ℤ meta.replicas (pos 0) then cfg.replicas else meta.replicas;
  min_replicas = cfg.min_replicas;
  max_replicas = cfg.max_replicas;
  scale_up_threshold = cfg.scale_up_threshold;
  scale_down_idle_time = cfg.scale_down_idle_time;
  scale_up_cooldown = cfg.scale_up_cooldown;
  scale_down_cooldown = cfg.scale_down_cooldown;
  priority = cfg.priority;
  high_load_threshold = cfg.high_load_threshold;
  priority_boost = cfg.priority_boost;
  enable_dynamic_prio = some cfg.enable_dynamic_prio;
  autoscaler_enabled = cfg.autoscaler_enabled;
  last_task_time = time_or meta.last_task_time cfg.last_task_time;
  last_scale_time = time_or meta.last_scale_time cfg.last_scale_time;
  first_pending_time = time_or meta.first_pending_time cfg.first_pending_time;
}

-- A time that is zero is stored as NULL.
abbrev pub unless_zero : Time → Option Time
unless_zero t = if is_zero t then none else some t

-- The literal of `saveAutoscalerConfig`. The two times of the row are left to the repository.
abbrev pub config_of : EndpointMetadata → ConfigRow
config_of meta = record {
  endpoint = meta.name;
  display_name = meta.display_name;
  spec_name = meta.spec_name;
  min_replicas = meta.min_replicas;
  max_replicas = meta.max_replicas;
  replicas = meta.replicas;
  scale_up_threshold = default_if_zero meta.scale_up_threshold (pos 1);
  scale_down_idle_time = default_if_zero meta.scale_down_idle_time (pos 300);
  scale_up_cooldown = meta.scale_up_cooldown;
  scale_down_cooldown = meta.scale_down_cooldown;
  priority = meta.priority;
  enable_dynamic_prio = or_true meta.enable_dynamic_prio;
  high_load_threshold = default_if_zero meta.high_load_threshold (pos 10);
  priority_boost = meta.priority_boost;
  enabled = true;
  autoscaler_enabled = meta.autoscaler_enabled;
  last_task_time = unless_zero meta.last_task_time;
  last_scale_time = unless_zero meta.last_scale_time;
  first_pending_time = unless_zero meta.first_pending_time;
  created_at = 0;
  updated_at = 0;
}

-- The assignments of `Save` to a row that is there.
abbrev pub onto_existing : EndpointRow → EndpointRow → EndpointRow
onto_existing row existing = record existing {
  spec_name = row.spec_name;
  description = row.description;
  image = row.image;
  image_prefix = row.image_prefix;
  image_digest = row.image_digest;
  image_last_checked = row.image_last_checked;
  latest_image = row.latest_image;
  replicas = row.replicas;
  gpu_count = row.gpu_count;
  task_timeout = row.task_timeout;
  enable_ptrace = row.enable_ptrace;
  env = row.env;
  labels = row.labels;
  status = row.status;
  updated_at = row.updated_at;
}
