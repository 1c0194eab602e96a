-- ===== src/Endpoints/Tests.antt =====
-- The theorems on the endpoint service at concrete inputs: two rows of the endpoint "e", and a
-- database that never fails.
use waverless.Base.{
  ◌≡◌, ◌≢◌, ◌⊎◌, refl, true, false, none, some, [], ◌∷◌, pos, sub_int, add_int, leb_ℤ, ◌≤ℤ◌, arith,
  eq_iff,
}
use waverless.Images.Cache.{ImageValidationResult}
use waverless.Store.{EndpointRow, ConfigRow, Db}
use waverless.Store.Endpoints.{
  is_blocked_due_to_image_failure, is_image_related_failure, contains, find_substring, stands_from,
}
use waverless.Store.Catalog.{
  or_column_default, find_config, save_endpoint, save_config, get_config_row,
  create_or_update_config, get_endpoint, update_endpoint_replicas,
}
use waverless.Endpoints.Conversion.{
  EndpointMetadata, ensure_metadata_defaults, to_mysql_endpoint, from_mysql_endpoint,
  merge_autoscaler_config,
}
use waverless.Endpoints.Metadata.{MetadataManager, save_autoscaler_config, save, get}
use waverless.Endpoints.Metadata.Settings.{settings, filled, get-save}
use waverless.Endpoints.Metadata.First.{get-save_new}
use waverless.Endpoints.Requests.{
  DeployRequest, UpdateDeploymentRequest, DeployResponse, checked, deploys, updates,
}
use waverless.Endpoints.Deployment.{DeploymentManager, State, DeployError, deploy, update}
use waverless.Endpoints.Deployment.Admission.{IsAdmitted, deploy-IsAdmitted, update-grows}
use waverless.Endpoints.Deployment.Health.{update-unblocks}
use waverless.Endpoints.Scaler.{
  ScalerManager, Scaled, scale_to, scale_up, scale_down, block_reason, at_least_zero,
}
use waverless.Endpoints.Scaler.Gate.{Agrees, scale_up-Agrees, scale_down-Agrees}
use waverless.Endpoints.Handler.{UpdateEndpointConfigRequest, update_endpoint}
use waverless.Endpoints.Handler.Limits.{requested, get-update_endpoint}

abbrev row : EndpointRow
row = record {
  endpoint = "e";
  spec_name = "gpu";
  description = "";
  image = "i:1";
  image_prefix = "";
  image_digest = "";
  image_last_checked = none;
  latest_image = "";
  replicas = pos 2;
  gpu_count = pos 1;
  task_timeout = pos 0;
  enable_ptrace = false;
  max_pending_tasks = pos 7;
  env = none;
  labels = none;
  runtime_state = none;
  status = "Running";
  health_status = "UNHEALTHY";
  health_message = some "image is gone";
  last_health_check_at = none;
  created_at = 5;
  updated_at = 5;
}

abbrev config : ConfigRow
config = record {
  endpoint = "e";
  display_name = "E";
  spec_name = "gpu";
  min_replicas = pos 0;
  max_replicas = pos 4;
  replicas = pos 2;
  scale_up_threshold = pos 1;
  scale_down_idle_time = pos 300;
  scale_up_cooldown = pos 30;
  scale_down_cooldown = pos 60;
  priority = pos 50;
  enable_dynamic_prio = true;
  high_load_threshold = pos 10;
  priority_boost = pos 20;
  enabled = true;
  autoscaler_enabled = none;
  last_task_time = none;
  last_scale_time = none;
  first_pending_time = none;
  created_at = 5;
  updated_at = 5;
}

abbrev database : Db
database = record { workers = []; endpoints = row ∷ []; configs = config ∷ [] }

abbrev nothing : Db
nothing = record { workers = []; endpoints = []; configs = [] }

abbrev manager : MetadataManager
manager = record { fails = λ d q. false; has_endpoints = true; has_configs = true }

-- Metadata whose priority and cooldown are zero.
best_effort : EndpointMetadata
unfolding from_mysql_endpoint
best_effort = record (from_mysql_endpoint row) { max_replicas = pos 4; max_pending_tasks = pos 9 }

get-save_example :
    (got : EndpointMetadata) × (get manager (save manager database 100 best_effort).0 "e"
      ≡ some (some got))
    × (settings got ≡ filled best_effort)
    × (got.max_pending_tasks ≡ pos 7)
unfolding best_effort from_mysql_endpoint find_config
get-save_example =
    get-save manager database 100 best_effort {ep = row} {cfg = config} refl refl (λ d q. refl) refl
      refl

get-save_new_example :
    (got : EndpointMetadata) × (get manager (save manager nothing 100 best_effort).0 "e"
      ≡ some (some got))
    × (got.priority ≡ or_column_default (pos 50) best_effort.priority)
    × (got.scale_up_cooldown ≡ or_column_default (pos 30) best_effort.scale_up_cooldown)
    × (got.scale_down_cooldown ≡ or_column_default (pos 60) best_effort.scale_down_cooldown)
    × (got.priority_boost ≡ or_column_default (pos 20) best_effort.priority_boost)
    × (got.max_replicas ≡ or_column_default (pos 10) best_effort.max_replicas)
    × (got.enable_dynamic_prio ≡ some true)
unfolding best_effort from_mysql_endpoint find_config
get-save_new_example =
    get-save_new manager nothing 100 best_effort refl refl (λ d q. refl) refl refl

abbrev limit_request : UpdateEndpointConfigRequest
limit_request = record {
  display_name = none;
  description = some "new";
  task_timeout = none;
  max_pending_tasks = some (pos 20);
  image_prefix = none;
  min_replicas = none;
  max_replicas = some (pos 8);
  priority = some (pos 0);
  scale_up_threshold = none;
  scale_down_idle_time = none;
  scale_up_cooldown = none;
  scale_down_cooldown = none;
  enable_dynamic_prio = none;
  high_load_threshold = none;
  priority_boost = none;
  autoscaler_enabled = none;
}

get-update_endpoint_example :
    let before = merge_autoscaler_config (from_mysql_endpoint row) config in
    (got : EndpointMetadata) × (get manager
        (update_endpoint true manager database 100 "e" (some limit_request)).0
        "e"
      ≡ some (some got))
    × (settings got ≡ requested limit_request before)
    × (got.max_pending_tasks ≡ pos 7)
unfolding find_config
get-update_endpoint_example =
    get-update_endpoint manager database 100 "e" limit_request {ep = row} {cfg = config} refl refl
      (λ d q. refl) refl refl

abbrev fine : ImageValidationResult
fine = record {
  valid = true;
  exists = true;
  accessible = true;
  error = "";
  warning = "";
  checked_at = 1;
}

abbrev response : DeployResponse
response = record { endpoint = "e"; message = "ok"; created_at = "" }

abbrev deployer : DeploymentManager
deployer = record {
  has_provider = true;
  has_metadata = true;
  metadata = manager;
  has_validator = true;
  image_config = some (record { enabled = true; skip_on_timeout = false });
  is_valid_format = λ image. true;
  check_image_exists = λ image credential. checked fine;
  deployed = λ req. some response;
  updated = λ req. some response;
  deleted = λ name. true;
}

abbrev deploy_request : DeployRequest
deploy_request = record {
  endpoint = "e";
  spec_name = "gpu";
  image = "i:2";
  replicas = pos 1;
  task_timeout = pos 0;
  validate_image = none;
  registry_credential = none;
}

abbrev begin : State
begin = record { db = database; calls = [] }

deploy-IsAdmitted_example :
    (((deploy deployer begin 100 (some deploy_request) none).0 ≡ begin)
      × ((e : DeployError) × ((deploy deployer begin 100 (some deploy_request) none).2 ≡ some e)))
    ⊎ (((deploy deployer begin 100 (some deploy_request) none).0.calls
          ≡ deploys deploy_request ∷ [])
        × IsAdmitted deployer deploy_request)
deploy-IsAdmitted_example = deploy-IsAdmitted deployer begin 100 deploy_request none

abbrev new_image : UpdateDeploymentRequest
new_image = record {
  endpoint = "e";
  spec_name = "";
  image = "i:2";
  replicas = some (pos 5);
  enable_ptrace = none;
  env = none;
  task_timeout = none;
}

update-unblocks_example :
    is_blocked_due_to_image_failure
      (λ d q. false)
      (update deployer begin 100 (some new_image)).0.db
      "e"
    ≡ some (false, "")
update-unblocks_example =
    update-unblocks deployer (λ d q. refl) begin 100 new_image refl refl
      (ground (arith, eq_iff "i:2" ""))

-- Fewer replicas of a blocked endpoint may be asked for.
abbrev shrinking : UpdateDeploymentRequest
shrinking = record new_image { image = ""; replicas = some (pos 1) }

shrinking_is_passed_on : (update deployer begin 100 (some shrinking)).0.calls ≢ []
unfolding update get save save_endpoint save_config get_endpoint get_config_row
    create_or_update_config from_mysql_endpoint merge_autoscaler_config ensure_metadata_defaults
    to_mysql_endpoint save_autoscaler_config
shrinking_is_passed_on e = let h : updates shrinking ∷ [] ≡ [] = e in cc

update-grows_example : leb_ℤ (pos 1) (pos 2) ≡ true
unfolding get_endpoint is_blocked_due_to_image_failure is_image_related_failure contains
    find_substring stands_from
update-grows_example =
    update-grows deployer begin 100 shrinking (pos 1) row "image is gone" refl refl refl refl refl
      shrinking_is_passed_on

abbrev scaler : ScalerManager
scaler = record {
  fails = λ d q. false;
  has_provider = true;
  has_endpoints = true;
  has_configs = true;
  scales = λ name replicas. true;
  app_status = λ name. none;
}

abbrev healthy_database : Db
healthy_database = record database { endpoints = record row { health_message = none } ∷ [] }

abbrev unscaled : Scaled
unscaled = record { db = healthy_database; calls = [] }

scale_up-Agrees_example :
    (leb_ℤ (pos 3) (pos 0) ≡ false)
    × (block_reason scaler healthy_database "e" ≡ none)
    × Agrees scaler 100 unscaled
        (scale_up scaler unscaled 100 "e" (pos 3)).0
        "e"
        (λ current. add_int current (pos 3))
unfolding scale_up scale_to get_endpoint is_blocked_due_to_image_failure update_endpoint_replicas
scale_up-Agrees_example = scale_up-Agrees scaler (λ d q. refl) unscaled 100 "e" (pos 3) refl

scale_down-Agrees_example :
    let target = at_least_zero scaler (sub_int (pos 2) (pos 3)) in
    Agrees scaler 100 unscaled
      (scale_down scaler unscaled 100 "e" (pos 3)).0
      "e"
      (λ current. at_least_zero scaler (sub_int current (pos 3)))
    × (pos 0 ≤ℤ target)
    × (target ≤ℤ pos 2)
unfolding scale_down scale_to get_endpoint update_endpoint_replicas
scale_down-Agrees_example =
    scale_down-Agrees scaler (λ d q. refl) unscaled 100 "e" (pos 3)
      (record row { health_message = none }) (omega arith, omega arith) (omega arith, omega arith)
      (omega arith) refl refl
