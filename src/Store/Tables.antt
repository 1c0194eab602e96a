-- ===== src/Store/Tables.antt =====
-- The rows of the tables `workers` and `endpoints` (pkg/store/mysql/model).
use waverless.Base.{Bool, Option, List, String, ℤ, Time}
use waverless.Base.Dict.{StringMap}

-- `model.Worker`, the columns that failures, heartbeats and pulls concern. A NULL text is the empty
-- text.
pub record WorkerRow : Type 0 where
  pub worker_id : String
  pub endpoint : String
  pub pod_name : String
  pub status : String
  pub failure_type : String
  pub failure_reason : String
  pub failure_details : String
  pub failure_occurred_at : Option Time
  pub current_jobs : ℤ
  pub last_heartbeat : Time
  pub last_task_time : Option Time

-- A value of a JSON column. A number is kept as the `int` that Go converts it to.
pub data Json : Type 0 where
  text : String → Json
  number : ℤ → Json
  other : Json

-- `model.JSONMap`, or nil.
abbrev pub JsonMap : Type 0
JsonMap = Option (StringMap Json)

-- `model.Endpoint`. Its unique index makes the endpoint the key; a stored time keeps its
-- nanoseconds here.
pub record EndpointRow : Type 0 where
  pub endpoint : String
  pub spec_name : String
  pub description : String
  pub image : String
  pub image_prefix : String
  pub image_digest : String
  pub image_last_checked : Option Time
  pub latest_image : String
  pub replicas : ℤ
  pub gpu_count : ℤ
  pub task_timeout : ℤ
  pub enable_ptrace : Bool
  pub max_pending_tasks : ℤ
  pub env : JsonMap
  pub labels : JsonMap
  pub runtime_state : JsonMap
  pub status : String
  pub health_status : String
  pub health_message : Option String
  pub last_health_check_at : Option Time
  pub created_at : Time
  pub updated_at : Time

-- `model.AutoscalerConfig`, with the endpoint as its key.
pub record ConfigRow : Type 0 where
  pub endpoint : String
  pub display_name : String
  pub spec_name : String
  pub min_replicas : ℤ
  pub max_replicas : ℤ
  pub replicas : ℤ
  pub scale_up_threshold : ℤ
  pub scale_down_idle_time : ℤ
  pub scale_up_cooldown : ℤ
  pub scale_down_cooldown : ℤ
  pub priority : ℤ
  pub enable_dynamic_prio : Bool
  pub high_load_threshold : ℤ
  pub priority_boost : ℤ
  pub enabled : Bool
  pub autoscaler_enabled : Option String
  pub last_task_time : Option Time
  pub last_scale_time : Option Time
  pub first_pending_time : Option Time
  pub created_at : Time
  pub updated_at : Time

pub record Db : Type 0 where
  pub workers : List WorkerRow
  pub endpoints : List EndpointRow
  pub configs : List ConfigRow

-- The statements that the database can fail.
pub data Query : Type 0 where
  by_failure_type by_endpoint worker_get pod_get failure_update : String → Query
  health_update by_health endpoint_get : String → Query
  endpoint_create endpoint_save endpoint_delete replicas_update state_update : String → Query
  config_get config_create config_save config_replicas : String → Query
  endpoint_list config_list : Query

abbrev pub Fails : Type 0
Fails = Db → Query → Bool
