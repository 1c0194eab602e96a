-- ===== src/Autoscaler/ScaleUp/Bounds.antt =====
-- What a scale-up decision promises, and when one is made.
use waverless.Base.{
  ◌^◌, ◌<◌, ◌≡◌, ◌≢◌, ◌↔◌, ◌⊎◌, false, not, none, some, ℤ, pos, pos_part, neg_part, add_int,
  sub_int, ◌<ℤ◌, ◌≤ℤ◌, IsSmall, sub_int-parts, Float64, arith,
}
use waverless.Autoscaler.Types.{
  EndpointConfig, Resources, ScaleDecision, DecisionEngine, can_allocate,
}
use waverless.Autoscaler.ScaleUp.{
  in_cooldown, limit_target, target_replicas, plan_scale_up, should_scale_up, scale_up_decision,
}

-- The counts of an endpoint are far from the bounds of Go's `int`.
pub record IsSane (ep : EndpointConfig) : Type 0 where
  pub replicas_small : IsSmall ep.replicas
  pub min_small : IsSmall ep.min_replicas
  pub max_small : IsSmall ep.max_replicas
  pub pending_small : IsSmall ep.pending_tasks
  pub running_small : IsSmall ep.running_tasks

-- What a decision to scale up `ep` says, for the target that it names.
pub record GrowsTo {F : Type 0} (e : DecisionEngine F) (ep : EndpointConfig)
    (available : Resources F) (d : ScaleDecision F) : Type 0 where
  pub current : d.current_replicas ≡ ep.replicas
  pub amount : d.scale_amount ≡ sub_int d.desired_replicas ep.replicas
  pub grows : ep.replicas <ℤ d.desired_replicas
  pub limited : (d.desired_replicas ≤ℤ ep.max_replicas) ⊎ (d.desired_replicas ≡ ep.min_replicas)
  pub approved : d.approved ≡ can_allocate e.fl available d.required_resource
  pub blocked : d.blocked ≡ not (can_allocate e.fl available d.required_resource)
  pub priced : e.calculate ep d.scale_amount ≡ some d.required_resource

limit_target_bounds :
    (ep : EndpointConfig) (target : ℤ)
    → ep.replicas <ℤ target
    → ep.replicas <ℤ ep.max_replicas
    → (ep.replicas <ℤ limit_target ep target)
      × ((limit_target ep target ≤ℤ ep.max_replicas) ⊎ (limit_target ep target ≡ ep.min_replicas))
unfolding limit_target
limit_target_bounds ep target grows room = ground arith

limit_target-IsSmall :
    (ep : EndpointConfig) (target : ℤ)
    → IsSane ep
    → ep.replicas <ℤ target
    → ep.replicas <ℤ ep.max_replicas
    → IsSmall (limit_target ep target)
unfolding limit_target
limit_target-IsSmall ep target sane grows room = ground arith

module _ {F : Type 0} (e : DecisionEngine F) (ep : EndpointConfig) (available : Resources F) where
  plan-GrowsTo :
      (target : ℤ) {d : ScaleDecision F}
      → (ep.replicas <ℤ target) × ((target ≤ℤ ep.max_replicas) ⊎ (target ≡ ep.min_replicas))
      → plan_scale_up e ep available target ≡ some d
      → GrowsTo e ep available d
  unfolding plan_scale_up scale_up_decision
  plan-GrowsTo target ok h = ground arith

  -- The tests that come before the plan.
  should_scale_up-eq-some :
      {d : ScaleDecision F}
      → should_scale_up e ep available ≡ some d
      → (ep.replicas <ℤ target_replicas e.fl ep)
        × (ep.replicas <ℤ ep.max_replicas)
        × (plan_scale_up e ep available (limit_target ep (target_replicas e.fl ep)) ≡ some d)
  unfolding should_scale_up
  should_scale_up-eq-some h = ground arith

  -- A decision to scale up starts from the endpoint's replicas, names more of them, at most
  -- `MaxReplicas` unless it is `MinReplicas`, carries the difference and the resources that the
  -- calculator gives for it, and is approved exactly when these can be allocated.
  pub should_scale_up-GrowsTo :
      {d : ScaleDecision F} → should_scale_up e ep available ≡ some d → GrowsTo e ep available d
  should_scale_up-GrowsTo h =
      let (grows, room, plan) = should_scale_up-eq-some h in
      let target = target_replicas e.fl ep in
      plan-GrowsTo (limit_target ep target) (limit_target_bounds ep target grows room) plan

-- `int(math.Ceil(float64(n)))` is `n` where a float64 holds every integer.
abbrev pub IsExact : {F : Type 0} → Float64 F → Type 0
IsExact fl =
    (n : ℤ) → pos_part n < 2 ^ 53 → neg_part n < 2 ^ 53 → fl.to_int (fl.ceil (fl.of_int n)) ≡ n

module _ {F : Type 0} (e : DecisionEngine F) (ep : EndpointConfig) (available : Resources F)
    (sane : IsSane ep) where
  abbrev tasks : ℤ
  tasks = add_int ep.pending_tasks ep.running_tasks

  plan_scale_up-ne-none :
      (target : ℤ)
      → ((amount : ℤ) → e.calculate ep amount ≢ none)
      → (ep.replicas <ℤ target) × IsSmall target
      → plan_scale_up e ep available target ≢ none
  unfolding plan_scale_up
  plan_scale_up-ne-none target priced ok =
      ground (arith, priced (sub_int target ep.replicas), sub_int-parts target ep.replicas)

  -- An endpoint is scaled up exactly when it is below its maximum, out of its cooldown, has more
  -- tasks than replicas and, if it has no replica, as many queued tasks as its threshold; this
  -- where the calculator knows the endpoint.
  pub should_scale_up_iff :
      IsExact e.fl
      → pos_part tasks < 2 ^ 53
      → neg_part tasks < 2 ^ 53
      → ((amount : ℤ) → e.calculate ep amount ≢ none)
      → (should_scale_up e ep available ≢ none) ↔ (
          (ep.replicas <ℤ ep.max_replicas)
          × (in_cooldown e.now ep.last_scale_time ep.scale_up_cooldown ≡ false)
          × (ep.replicas <ℤ tasks)
          × ((ep.replicas ≢ pos 0) ⊎ (ep.scale_up_threshold ≤ℤ ep.pending_tasks)))
  unfolding should_scale_up target_replicas
  should_scale_up_iff exact high low priced = (
    λ h. ground (arith, exact tasks high low),
    λ h. ground (
      arith,
      exact tasks high low,
      limit_target_bounds ep tasks,
      limit_target-IsSmall ep tasks sane,
      plan_scale_up-ne-none (limit_target ep tasks) priced,
    ),
  )
