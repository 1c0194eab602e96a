-- ===== src/Endpoints/Handler.antt =====
-- app/handler/endpoint_handler.go: the handler UpdateEndpoint, which changes the settings of an
-- endpoint.
pub mod Limits
use waverless.Base.{Bool, true, false, not, Option, none, some, String, ℤ, if◌then◌else◌, Time}
use waverless.Store.{Db}
use waverless.Endpoints.Conversion.{EndpointMetadata}
use waverless.Endpoints.Metadata.{MetadataManager, save, get}

-- `interfaces.UpdateEndpointConfigRequest`: nil fields are not to be changed.
pub record UpdateEndpointConfigRequest : Type 0 where
  pub display_name : Option String
  pub description : Option String
  pub task_timeout : Option ℤ
  pub max_pending_tasks : Option ℤ
  pub image_prefix : Option String
  pub min_replicas : Option ℤ
  pub max_replicas : Option ℤ
  pub priority : Option ℤ
  pub scale_up_threshold : Option ℤ
  pub scale_down_idle_time : Option ℤ
  pub scale_up_cooldown : Option ℤ
  pub scale_down_cooldown : Option ℤ
  pub enable_dynamic_prio : Option Bool
  pub high_load_threshold : Option ℤ
  pub priority_boost : Option ℤ
  pub autoscaler_enabled : Option String

-- The status of the response. A crash is what Go does on a nil metadata value.
pub data Status : Type 0 where
  ok not_implemented bad_request not_found server_error crashed : Status

-- A field that is given, or what was there.
abbrev pub given {ℓ} : {A : Type ℓ} → A → Option A → A
given before none = before
given before (some a) = a

abbrev pub given_some {ℓ} : {A : Type ℓ} → Option A → Option A → Option A
given_some before none = before
given_some before (some a) = some a

abbrev pub applied : UpdateEndpointConfigRequest → EndpointMetadata → EndpointMetadata
applied req meta = record meta {
  display_name = given meta.display_name req.display_name;
  description = given meta.description req.description;
  task_timeout = given meta.task_timeout req.task_timeout;
  max_pending_tasks = given meta.max_pending_tasks req.max_pending_tasks;
  min_replicas = given meta.min_replicas req.min_replicas;
  max_replicas = given meta.max_replicas req.max_replicas;
  priority = given meta.priority req.priority;
  scale_up_threshold = given meta.scale_up_threshold req.scale_up_threshold;
  scale_down_idle_time = given meta.scale_down_idle_time req.scale_down_idle_time;
  scale_up_cooldown = given meta.scale_up_cooldown req.scale_up_cooldown;
  scale_down_cooldown = given meta.scale_down_cooldown req.scale_down_cooldown;
  enable_dynamic_prio = given_some meta.enable_dynamic_prio req.enable_dynamic_prio;
  high_load_threshold = given meta.high_load_threshold req.high_load_threshold;
  priority_boost = given meta.priority_boost req.priority_boost;
  autoscaler_enabled = given_some meta.autoscaler_enabled req.autoscaler_enabled;
  image_prefix = given meta.image_prefix req.image_prefix;
}

module _ (has_service : Bool) (m : MetadataManager) where
  abbrev pub saved_status : Db × Bool → Db × Status
  saved_status (db, true) = (db, ok)
  saved_status (db, false) = (db, server_error)

  abbrev pub update_found :
      Db → Time → UpdateEndpointConfigRequest → Option (Option EndpointMetadata) → Db × Status
  update_found db now req none = (db, not_found)
  update_found db now req (some none) = (db, crashed)
  update_found db now req (some (some meta)) = saved_status (save m db now (applied req meta))

  -- A request that is no JSON is `none`.
  unfoldable pub update_endpoint :
      Db → Time → String → Option UpdateEndpointConfigRequest → Db × Status
  update_endpoint db now name none =
      if has_service then (db, bad_request) else (db, not_implemented)
  update_endpoint db now name (some req) =
      if has_service then update_found db now req (get m db name) else (db, not_implemented)
