-- ===== src/Autoscaler/ManagerTests.antt =====
-- The theorems on the autoscaler's manager, the collector and the calculator at concrete inputs:
-- floats that are integers and one spec of one GPU.
use waverless.Base.{
  ◌≡◌, refl, true, false, ◌||◌, Option, none, some, [], ◌∷◌, String, ℤ, pos, pos_part, add_int,
  sub_int, mul_int, quot_int, ltb_ℤ, leb_ℤ, Float64,
}
use waverless.Base.Dict.{load}
use waverless.Tasks.Table.{Task, pending, in_progress}
use waverless.Tasks.Names.{has_name, Distinct}
use waverless.Endpoints.Conversion.{EndpointMetadata}
use waverless.Autoscaler.Types.{Config, EndpointConfig, named, DecisionEngine, subtract}
use waverless.Autoscaler.World.{Worker, Env}
use waverless.Autoscaler.Collector.{
  Reading, collect_single_endpoint, count_pending, count_at, get_running_task_count,
}
use waverless.Autoscaler.Calculator.{
  ResourceSpec, ResourceCalculator, ClusterResources, calculate_cluster_resources, no_resources,
}
use waverless.Autoscaler.Calculator.BySpec.{sum_all, sum_of, calculate_cluster_resources-sums}
use waverless.Autoscaler.Control.{
  Manager, idle, collect_targets, ConfigStore, load_persisted_config, update_global_config,
}
use waverless.Autoscaler.Control.Targets.{enqueue_all, collect_targets-enqueue_all}
use waverless.Autoscaler.Control.Settings.{InRange, load_persisted_config-update_global_config}
use waverless.Autoscaler.Cycle.{run_once}
use waverless.Autoscaler.Cycle.Overrides.{Only, IsOn, run_once-Only}

abbrev whole : Float64 ℤ
whole = record {
  of_int = λ n. n;
  to_int = λ x. x;
  ceil = λ x. x;
  add = add_int;
  sub = sub_int;
  mul = mul_int;
  div = λ a b. quot_int a (pos_part b);
  lt = ltb_ℤ;
  le = leb_ℤ;
}

abbrev small : ResourceSpec
small = record { name = "small"; category = "gpu"; gpu = "1"; cpu = "1"; memory = "1" }

abbrev calculator : ResourceCalculator ℤ
calculator = record {
  fl = whole;
  atoi = λ text. some (pos 1);
  parse_float = λ text. some (pos 1);
  get_spec = λ name. some small;
  spec_name_of = λ name. none;
}

abbrev config : Config
config = record {
  enabled = true;
  interval = pos 10;
  max_gpu_count = pos 4;
  max_cpu_cores = pos 16;
  max_memory_gb = pos 64;
  starvation_time = pos 300;
}

abbrev manager : Manager
manager = record {
  config = config;
  enabled = true;
  running = true;
  stop_closed = false;
  panicked = false;
  trigger = idle;
  is_watching = true;
  target_queue = [];
  pending_targets = "a" ∷ [];
  snapshots = [];
}

abbrev on : EndpointConfig
on = record (named "a") {
  spec_name = "small";
  max_replicas = pos 3;
  replicas = pos 2;
  actual_replicas = pos 2;
  scale_down_idle_time = pos 300;
}

abbrev off : EndpointConfig
off = record on { name = "b"; autoscaler_enabled = some "disabled" }

abbrev lazy : Worker
lazy = record {
  id = "w";
  status = "ONLINE";
  current_jobs = pos 0;
  last_task_time = 5;
  registered_at = 0;
}

abbrev env : Env ℤ
env = record {
  has_endpoint_repo = true;
  has_k8s = false;
  now = λ log. 3000000000000;
  image_blocked = λ log name. none;
  deployment_updated = λ log name n. true;
  endpoint_of = λ log name. none;
  endpoint_updated = λ log meta. true;
  workers_of = λ log name. some (lazy ∷ []);
  worker_of = λ log name. some lazy;
  tasks_of = λ log name. some 0;
  app_exists = λ log name. true;
  last_event_of = λ log name. none;
}

abbrev engine : DecisionEngine ℤ
engine = record {
  fl = whole;
  calculate = λ ep n. some (no_resources calculator);
  now = 3000000000000;
  starvation_time = pos 300;
}

run_once-Only_example :
    Only
      (IsOn manager (on ∷ off ∷ []))
      []
      (run_once calculator env manager engine (some true) (some (on ∷ off ∷ [])) []).1
run_once-Only_example = run_once-Only calculator env manager engine (some true) (on ∷ off ∷ []) []

collect_targets-enqueue_all_example :
    let (targets, after) = collect_targets (enqueue_all manager ("b" ∷ "" ∷ "a" ∷ [])) in
    Distinct targets
    × (has_name targets "b" ≡ has_name ("a" ∷ []) "b" || has_name ("b" ∷ "" ∷ "a" ∷ []) "b")
    × (after.pending_targets ≡ [])
collect_targets-enqueue_all_example =
    collect_targets-enqueue_all manager ("b" ∷ "" ∷ "a" ∷ []) "b" refl (refl, tt)

-- A store of one value, and a codec that knows one configuration.
abbrev one_value : ConfigStore (Option String)
one_value = record {
  has_redis = true;
  get = λ r. r;
  set = λ r value. some value;
  marshal = λ c. some "{}";
  unmarshal = λ text. some config;
}

load_persisted_config-update_global_config_example :
    let loaded =
      load_persisted_config one_value
        (update_global_config one_value none manager config).0.0
        manager in
    (loaded.config ≡ config) × (loaded.enabled ≡ true) × InRange config
unfolding update_global_config
load_persisted_config-update_global_config_example =
    load_persisted_config-update_global_config one_value none manager manager config "{}" refl refl
      refl refl refl

cluster : ClusterResources ℤ
cluster = elim (calculate_cluster_resources calculator (on ∷ off ∷ []) (no_resources calculator)) [
  | none ↦ record {
    total = no_resources calculator;
    used = no_resources calculator;
    available = no_resources calculator;
    by_spec = [];
  }
  | some c ↦ c
]

calculate_cluster_resources-sums_example :
    (cluster.used ≡ sum_all calculator (no_resources calculator) (on ∷ off ∷ []))
    × (cluster.available ≡ subtract whole (no_resources calculator) cluster.used)
    × (load "small" cluster.by_spec ≡ sum_of calculator "small" none (on ∷ off ∷ []))
unfolding cluster calculate_cluster_resources
calculate_cluster_resources-sums_example =
    calculate_cluster_resources-sums calculator (on ∷ off ∷ []) (no_resources calculator) cluster
      "small" refl refl

abbrev task : Task
task = record {
  id = 1;
  task_id = "t";
  endpoint = "a";
  status = in_progress;
  output = "";
  error = "";
  worker_id = "w";
  webhook_url = "";
  created_at = 1;
  updated_at = 1;
  started_at = none;
  completed_at = none;
  extend = [];
}

abbrev reading : Reading
reading = record {
  tasks = task ∷ record task { task_id = "u"; status = pending } ∷ [];
  count_fails = λ name. false;
  list_fails = false;
  get_fails = λ id. false;
  snapshots = [];
  now = 9;
}

abbrev metadata : EndpointMetadata
metadata = record {
  name = "a";
  namespace = "";
  display_name = "";
  description = "";
  spec_name = "small";
  image = "i";
  image_prefix = "";
  image_digest = "";
  image_last_checked = none;
  latest_image = "";
  replicas = pos 1;
  gpu_count = pos 1;
  min_replicas = pos 0;
  max_replicas = pos 3;
  scale_up_threshold = pos 0;
  scale_down_idle_time = pos 0;
  scale_up_cooldown = pos 0;
  scale_down_cooldown = pos 0;
  priority = pos 50;
  enable_dynamic_prio = none;
  high_load_threshold = pos 0;
  priority_boost = pos 0;
  autoscaler_enabled = none;
  last_scale_time = 0;
  last_task_time = 0;
  first_pending_time = 4;
  env = none;
  labels = none;
  task_timeout = pos 0;
  enable_ptrace = false;
  max_pending_tasks = pos 0;
  status = "Running";
  ready_replicas = pos 1;
  available_replicas = pos 1;
  health_status = "";
  health_message = "";
  last_health_check_at = none;
  shm_size = "";
  created_at = 1;
  updated_at = 1;
}

-- One task waits, and has waited since the time that the metadata say.
waits_still : (collect_single_endpoint reading metadata).first_pending_time ≡ 4
unfolding collect_single_endpoint count_pending
waits_still = refl

one_task_runs : get_running_task_count reading "a" ≡ some 1
unfolding get_running_task_count count_at
one_task_runs = refl
