-- ===== src/Autoscaler/ScaleDown.antt =====
-- `shouldScaleDown` of pkg/autoscaler/decision_engine.go.
pub mod Bounds
use waverless.Base.{
  Bool, true, false, not, ◌||◌, Option, none, some, [], ℤ, pos, add_int, sub_int, mul_int, ltb_ℤ,
  leb_ℤ, if◌then◌else◌, Time, is_zero, since, of_seconds, seconds,
}
use waverless.Autoscaler.Types.{
  EndpointConfig, Resources, ScaleDecision, DecisionEngine, idle_for, no_reason, named,
}
use waverless.Autoscaler.ScaleUp.{in_cooldown}

-- `minRequiredReplicas`: one replica for each running task, and one more as a buffer.
unfoldable pub min_required : EndpointConfig → ℤ
min_required ep =
    if ltb_ℤ (pos 0) ep.running_tasks then add_int ep.running_tasks (pos 1) else ep.running_tasks

-- `minSafeReplicas`
unfoldable pub min_safe : EndpointConfig → ℤ
min_safe ep = if ltb_ℤ (min_required ep) ep.min_replicas then ep.min_replicas else min_required ep

-- `idleDuration` of step 5.
unfoldable pub idle_duration : Time → EndpointConfig → ℤ
idle_duration now ep = if is_zero ep.last_task_time then pos 0 else since now ep.last_task_time

-- Step 5: down to the safe minimum after twice the idle time, else by one replica.
unfoldable pub desired_replicas : Time → EndpointConfig → ℤ
unfolding idle_duration
desired_replicas now ep =
    let double_idle_time = of_seconds (mul_int ep.scale_down_idle_time (pos 2)) in
    let one_less = sub_int ep.replicas (pos 1) in
    let gradual = if ltb_ℤ one_less (min_safe ep) then min_safe ep else one_less in
    let desired = if ltb_ℤ double_idle_time (idle_duration now ep) then min_safe ep else gradual in
    if ltb_ℤ desired (min_required ep) then min_required ep else desired

module _ {F : Type 0} (e : DecisionEngine F) where
  -- Step 3: the idle time is over, or no task was ever seen.
  unfoldable pub is_idle : EndpointConfig → Bool
  is_idle ep =
      is_zero ep.last_task_time
      || not (
          e.fl.lt (seconds e.fl (since e.now ep.last_task_time))
            (e.fl.of_int ep.scale_down_idle_time))

  -- The resources of a scale-down decision are left at Go's zero value.
  unfoldable pub scale_down_decision : EndpointConfig → ℤ → ScaleDecision F
  scale_down_decision ep desired = record {
    endpoint = ep.name;
    current_replicas = ep.replicas;
    desired_replicas = desired;
    scale_amount = sub_int desired ep.replicas;
    priority = ep.priority;
    base_priority = ep.priority;
    queue_length = ep.pending_tasks;
    reason = idle_for (idle_duration e.now ep);
    approved = true;
    blocked = false;
    blocked_reason = no_reason;
    preempted_from = [];
    required_resource = record {
      gpu_count = pos 0;
      cpu_cores = e.fl.of_int (pos 0);
      memory_gb = e.fl.of_int (pos 0);
    };
  }

  unfoldable pub should_scale_down : EndpointConfig → Option (ScaleDecision F)
  unfolding scale_down_decision
  should_scale_down ep =
      if leb_ℤ ep.replicas ep.min_replicas
      then none
      else if ltb_ℤ ep.replicas ep.actual_replicas
      then none
      else if ltb_ℤ (pos 0) ep.pending_tasks
      then none
      else if leb_ℤ ep.replicas (min_required ep)
      then none
      else if not (is_idle ep)
      then none
      else if in_cooldown e.now ep.last_scale_time ep.scale_down_cooldown
      then none
      else some (scale_down_decision ep (desired_replicas e.now ep))
