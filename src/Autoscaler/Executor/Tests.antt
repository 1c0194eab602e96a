-- ===== src/Autoscaler/Executor/Tests.antt =====
-- The theorems on the executor at concrete inputs.
use waverless.Base.{
  ℕ, since, ◌≡◌, ◌⊎◌, ◌&&◌, refl, true, false, none, some, List, [], ◌∷◌, ◌++◌, String, ℤ, pos,
  negsuc, All,
}
use waverless.Autoscaler.Types.{ScaleDecision, no_reason}
use waverless.Autoscaler.World.{Worker, Metadata, Env, get_endpoint, update_deployment}
use waverless.Autoscaler.Executor.{
  find_idle, scale_up, scale_down, without_idle, execute_decisions, unhealthy_endpoint,
}
use waverless.Autoscaler.Executor.Idle.{Found, find_idle-Found}
use waverless.Autoscaler.Executor.Abandoned.{metadata_writes}
use waverless.Autoscaler.Executor.Runs.{
  deployments, answer_blocks, IsNamed, scale_up-deployments, execute_decisions-IsNamed,
}

abbrev worker : String → ℤ → ℕ → Worker
worker name jobs time = record {
  id = name;
  status = "ONLINE";
  current_jobs = jobs;
  last_task_time = time;
  registered_at = 0;
}

abbrev pods : List Worker
pods =
    worker "a" (pos 1) 5 ∷ worker "b" (pos 0) 9 ∷ worker "c" (pos 0) 7 ∷ worker "d" (pos 0) 0 ∷ []

picks_c : find_idle none pods ≡ some (worker "c" (pos 0) 7)
unfolding find_idle
picks_c = refl

find_idle-Found_example : Found pods (find_idle none pods)
find_idle-Found_example = find_idle-Found pods

abbrev env : Env (Unit {0})
env = record {
  has_endpoint_repo = true;
  has_k8s = true;
  now = λ log. 3000000000000;
  image_blocked = λ log name. some (true, "bad image");
  deployment_updated = λ log name n. true;
  endpoint_of = λ log name. none;
  endpoint_updated = λ log meta. true;
  workers_of = λ log name. some pods;
  worker_of = λ log name. some (worker "c" (pos 0) 7);
  tasks_of = λ log name. some 1;
  app_exists = λ log name. true;
  last_event_of = λ log name. none;
}

abbrev decision : ScaleDecision (Unit {0})
decision = record {
  endpoint = "e";
  current_replicas = pos 2;
  desired_replicas = pos 1;
  scale_amount = negsuc 0;
  priority = pos 50;
  base_priority = pos 50;
  queue_length = pos 0;
  reason = no_reason;
  approved = true;
  blocked = false;
  blocked_reason = no_reason;
  preempted_from = [];
  required_resource = record { gpu_count = pos 0; cpu_cores = tt; memory_gb = tt };
}

scale_up-deployments_example :
    ((true && answer_blocks (some (true, "bad image")) ≡ true)
      × ((scale_up env decision []).0 ≡ some (some unhealthy_endpoint))
      × (deployments (scale_up env decision []).1 ≡ deployments {F = Unit {0}} []))
    ⊎ ((true && answer_blocks (some (true, "bad image")) ≡ false)
        × (deployments (scale_up env decision []).1 ≡ ("e", pos 1) ∷ deployments {F = Unit {0}} []))
scale_up-deployments_example = scale_up-deployments env decision []

execute_decisions-IsNamed_example :
    (added : List (String × ℤ)) × (deployments (execute_decisions env (decision ∷ []) []).1
      ≡ added ++ deployments {F = Unit {0}} [])
    × All (IsNamed env (decision ∷ [])) added
execute_decisions-IsNamed_example = execute_decisions-IsNamed env (decision ∷ []) []

-- Metadata that is nil without an error crashes the first of two scale-ups after it has updated its
-- deployment, and the second decision is not carried out.
abbrev nil_metadata : Env (Unit {0})
nil_metadata = record env { has_endpoint_repo = false; endpoint_of = λ log name. some none }

abbrev growing : ScaleDecision (Unit {0})
growing = record decision { desired_replicas = pos 3; scale_amount = pos 1 }

nil_metadata_crashes :
    execute_decisions nil_metadata (growing ∷ record growing { endpoint = "f" } ∷ []) []
    ≡ (none, get_endpoint "e" ∷ update_deployment "e" (pos 3) ∷ [])
unfolding execute_decisions
nil_metadata_crashes = refl

-- The endpoint of a deployment that is gone, with one busy worker on record.
abbrev old_metadata : Metadata
old_metadata = record {
  name = "e";
  replicas = pos 2;
  status = "Running";
  last_scale_time = 0;
  created_at = 1;
  updated_at = 1;
}

abbrev abandoned : Env (Unit {0})
abandoned = record env {
  app_exists = λ log name. false;
  endpoint_of = λ log name. some (some old_metadata);
  workers_of = λ log name. some (worker "a" (pos 1) 5 ∷ []);
}

orphan_is_stopped :
    metadata_writes (scale_down abandoned decision []).1
    ≡ record old_metadata { replicas = pos 0; status = "Stopped"; updated_at = 3000000000000 } ∷ []
unfolding scale_down metadata_writes since find_idle without_idle
orphan_is_stopped = refl
