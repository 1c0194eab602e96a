-- ===== src/Autoscaler/ScaleUp.antt =====
-- `shouldScaleUp` of pkg/autoscaler/decision_engine.go.
pub mod Bounds
use waverless.Base.{
  Bool, not, ◌&&◌, Option, none, some, [], ℤ, pos, add_int, sub_int, ltb_ℤ, leb_ℤ, eqb_ℤ,
  if◌then◌else◌, Time, is_zero, since, of_seconds, Float64,
}
use waverless.Autoscaler.Types.{
  EndpointConfig, Resources, ScaleDecision, DecisionEngine, can_allocate, queue_exceeds, no_reason,
  insufficient_cluster,
}
use waverless.Autoscaler.Priority.{effective_priority}

-- The cooldown test that both directions make.
unfoldable pub in_cooldown : Time → Time → ℤ → Bool
in_cooldown now last_scale_time cooldown =
    not (is_zero last_scale_time) && ltb_ℤ (since now last_scale_time) (of_seconds cooldown)

-- Steps 5 and 6: at most `MaxReplicas`, and at least `MinReplicas` from below.
unfoldable pub limit_target : EndpointConfig → ℤ → ℤ
limit_target ep target =
    let capped = if ltb_ℤ ep.max_replicas target then ep.max_replicas else target in
    if ltb_ℤ ep.replicas ep.min_replicas && ltb_ℤ capped ep.min_replicas
    then ep.min_replicas
    else capped

module _ {F : Type 0} where
  -- `int(math.Ceil(float64(totalTasks)))`
  unfoldable pub target_replicas : Float64 F → EndpointConfig → ℤ
  target_replicas fl ep =
      fl.to_int (fl.ceil (fl.of_int (add_int ep.pending_tasks ep.running_tasks)))

  -- The decision that is built once the amount and the resources are known.
  unfoldable pub scale_up_decision :
      EndpointConfig → ℤ → ℤ → ℤ → Resources F → Bool → ScaleDecision F
  scale_up_decision ep target amount prio required blocked = record {
    endpoint = ep.name;
    current_replicas = ep.replicas;
    desired_replicas = target;
    scale_amount = amount;
    priority = prio;
    base_priority = ep.priority;
    queue_length = ep.pending_tasks;
    reason = queue_exceeds ep.pending_tasks ep.scale_up_threshold;
    approved = not blocked;
    blocked = blocked;
    blocked_reason = if blocked then insufficient_cluster else no_reason;
    preempted_from = [];
    required_resource = required;
  }

  module _ (e : DecisionEngine F) (ep : EndpointConfig) (available : Resources F) where
    -- From the limited target on: the amount, the resources and the verdict.
    unfoldable pub plan_scale_up : ℤ → Option (ScaleDecision F)
    plan_scale_up target =
        let amount = sub_int target ep.replicas in
        let prio = effective_priority e.fl e.now ep e.starvation_time in
        if leb_ℤ amount (pos 0) then none else elim (e.calculate ep amount) [
          | none ↦ none
          | some required ↦ some (
              scale_up_decision ep target amount prio required
                (not (can_allocate e.fl available required)))
        ]

    unfoldable pub should_scale_up : Option (ScaleDecision F)
    unfolding in_cooldown
    should_scale_up =
        let target = target_replicas e.fl ep in
        if leb_ℤ ep.max_replicas ep.replicas
        then none
        else if in_cooldown e.now ep.last_scale_time ep.scale_up_cooldown
        then none
        else if leb_ℤ target ep.replicas
        then none
        else if eqb_ℤ ep.replicas (pos 0) && ltb_ℤ ep.pending_tasks ep.scale_up_threshold
        then none
        else plan_scale_up (limit_target ep target)
