-- ===== src/Autoscaler/Cycle.antt =====
-- pkg/autoscaler/manager.go: one run of the autoscaler. The distributed lock is in Autoscaler/Lock:
-- here `acquired` is the answer of its TryLock, and what Unlock does is left to it. The cleanup of
-- old events at the end of a run and the cache of the cluster's resources are left out.
pub mod Overrides
use waverless.Base.{
  Bool, true, false, not, ◌&&◌, ◌||◌, Option, none, some, List, [], ◌∷◌, String, str_eq, ℤ, pos,
  negsuc, sub_int, leb_ℤ, ltb_ℤ, select, if◌then◌else◌, Time, is_zero, since, of_seconds,
}
use waverless.Tasks.Names.{has_name}
use waverless.Autoscaler.Types.{
  Config, EndpointConfig, Resources, ScaleDecision, DecisionEngine, no_reason, worker_idle_for,
}
use waverless.Autoscaler.World.{Worker, Log, Env, M, pure, crash, ◌>>=◌, ◌>>◌, ask, list_workers}
use waverless.Autoscaler.Recorder.{clock}
use waverless.Autoscaler.Executor.{execute_decisions}
use waverless.Autoscaler.Engine.{make_decisions}
use waverless.Autoscaler.Calculator.{
  ResourceCalculator, ClusterResources, no_resources, calculate_cluster_resources,
}
use waverless.Autoscaler.Control.{Manager, should_process_endpoint}

pub data RunError : Type 0 where
  not_running lock_failed collect_failed : RunError

abbrev pub is_draining : Worker → Bool
is_draining w = str_eq w.status "DRAINING"

abbrev pub any_draining : List Worker → Bool
any_draining [] = false
any_draining (w ∷ ws) = let rest = any_draining ws in if is_draining w then true else rest

-- The time since the last task, or since the registration.
abbrev pub idle_time : Time → Worker → ℤ
idle_time now w =
    if is_zero w.last_task_time then since now w.registered_at else since now w.last_task_time

abbrev pub is_long_idle : Time → EndpointConfig → Worker → Bool
is_long_idle now ep w =
    not (ltb_ℤ (pos 0) w.current_jobs)
    && not (ltb_ℤ (idle_time now w) (of_seconds ep.scale_down_idle_time))

abbrev pub first_idle : Time → EndpointConfig → List Worker → Option Worker
first_idle now ep [] = none
first_idle now ep (w ∷ ws) =
    let rest = first_idle now ep ws in if is_long_idle now ep w then some w else rest

module _ {F : Type 0} (c : ResourceCalculator F) where
  abbrev pub max_resources : Config → Resources F
  max_resources config = record {
    gpu_count = config.max_gpu_count;
    cpu_cores = c.fl.of_int config.max_cpu_cores;
    memory_gb = c.fl.of_int config.max_memory_gb;
  }

  abbrev pub idle_decision : Time → EndpointConfig → Worker → ScaleDecision F
  idle_decision now ep w = record {
    endpoint = ep.name;
    current_replicas = ep.replicas;
    desired_replicas = sub_int ep.replicas (pos 1);
    scale_amount = negsuc 0;
    priority = ep.priority;
    base_priority = pos 0;
    queue_length = ep.pending_tasks;
    reason = worker_idle_for w.id (idle_time now w);
    approved = true;
    blocked = false;
    blocked_reason = no_reason;
    preempted_from = [];
    required_resource = no_resources c;
  }

  module _ (env : Env F) where
    abbrev pub shrink_idle : Time → EndpointConfig → Option Worker → M F (Unit {0})
    shrink_idle now ep none = pure tt
    shrink_idle now ep (some w) = execute_decisions env (idle_decision now ep w ∷ [])

    -- One round of the loop of `checkAndScaleDownIdleWorkers`, for the workers that were listed.
    abbrev pub check_workers : EndpointConfig → Option (List Worker) → M F (Unit {0})
    check_workers ep none = pure tt
    check_workers ep (some []) = pure tt
    check_workers ep (some (w ∷ ws)) =
        if leb_ℤ ep.replicas ep.min_replicas || any_draining (w ∷ ws)
        then pure tt
        else (do now ← clock env; shrink_idle now ep (first_idle now ep (w ∷ ws)))

    unfoldable pub check_endpoint : EndpointConfig → M F (Unit {0})
    unfolding execute_decisions
    check_endpoint ep = do
      workers ← ask (list_workers ep.name) (λ log. env.workers_of log ep.name)
      check_workers ep workers

    unfoldable pub check_and_scale_down_idle_workers : List EndpointConfig → M F (Unit {0})
    unfolding check_endpoint
    check_and_scale_down_idle_workers [] = pure tt
    check_and_scale_down_idle_workers (ep ∷ eps) = do
      check_endpoint ep
      check_and_scale_down_idle_workers eps

    module _ (m : Manager) (e : DecisionEngine F) where
      abbrev pub enabled_endpoints : List EndpointConfig → List EndpointConfig
      enabled_endpoints = select (should_process_endpoint m)

      -- Steps 3 to 4.5: no decisions, no check of the workers.
      abbrev pub carry_out : List EndpointConfig → List (ScaleDecision F) → M F (Option RunError)
      carry_out eps [] = pure none
      carry_out eps (d ∷ ds) = do
        execute_decisions env (d ∷ ds)
        check_and_scale_down_idle_workers eps
        pure none

      abbrev pub decide : List EndpointConfig → Option (ClusterResources F) → M F (Option RunError)
      decide eps none = crash
      decide eps (some cluster) = carry_out eps (make_decisions e eps cluster.available).0

      -- The resources are those of the enabled endpoints alone.
      abbrev pub run_enabled : List EndpointConfig → M F (Option RunError)
      run_enabled [] = pure none
      run_enabled (ep ∷ eps) =
          decide (ep ∷ eps) (calculate_cluster_resources c (ep ∷ eps) (max_resources m.config))

      abbrev pub run_collected : Option (List EndpointConfig) → M F (Option RunError)
      run_collected none = pure (some collect_failed)
      run_collected (some eps) = run_enabled (enabled_endpoints eps)

      -- `collected` is what the metrics collector answers.
      unfoldable pub run_once : Option Bool → Option (List EndpointConfig) → M F (Option RunError)
      unfolding check_and_scale_down_idle_workers calculate_cluster_resources make_decisions
      run_once none collected = pure (some lock_failed)
      run_once (some false) collected = pure none
      run_once (some true) collected = run_collected collected

      abbrev pub is_target : List String → EndpointConfig → Bool
      is_target targets ep = has_name targets ep.name && should_process_endpoint m ep

      abbrev pub carry_out_targets : List (ScaleDecision F) → M F (Option RunError)
      carry_out_targets [] = pure none
      carry_out_targets (d ∷ ds) = do execute_decisions env (d ∷ ds); pure none

      abbrev pub decide_targets :
          List EndpointConfig → Option (ClusterResources F) → M F (Option RunError)
      decide_targets eps none = crash
      decide_targets eps (some cluster) =
          carry_out_targets (make_decisions e eps cluster.available).0

      -- The resources are those of all endpoints.
      abbrev pub run_filtered : List EndpointConfig → List EndpointConfig → M F (Option RunError)
      run_filtered all [] = pure none
      run_filtered all (ep ∷ eps) =
          decide_targets (ep ∷ eps) (calculate_cluster_resources c all (max_resources m.config))

      abbrev pub run_targets_collected :
          List String → Option (List EndpointConfig) → M F (Option RunError)
      run_targets_collected targets none = pure (some collect_failed)
      run_targets_collected targets (some eps) = run_filtered eps (select (is_target targets) eps)

      -- From the lock on.
      abbrev pub run_targets_locked :
          List String → Option Bool → Option (List EndpointConfig) → M F (Option RunError)
      run_targets_locked targets none collected = pure (some lock_failed)
      run_targets_locked targets (some false) collected = pure none
      run_targets_locked targets (some true) collected = run_targets_collected targets collected

      unfoldable pub run_for_targets :
          List String → Option Bool → Option (List EndpointConfig) → M F (Option RunError)
      unfolding calculate_cluster_resources make_decisions execute_decisions
      run_for_targets [] acquired collected = pure none
      run_for_targets (t ∷ ts) acquired collected =
          if not m.running
          then pure (some not_running)
          else run_targets_locked (t ∷ ts) acquired collected
