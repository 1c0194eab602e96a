-- ===== src/Autoscaler/ScaleDown/Bounds.antt =====
-- What a scale-down decision promises, when one is made, and that it never meets a scale-up.
use waverless.Base.{
  ℕ, ◌^◌, ◌<◌, ◌≡◌, ◌≢◌, ◌↔◌, true, false, none, some, ℤ, pos, pos_part, neg_part, add_int, sub_int,
  ◌<ℤ◌, ◌≤ℤ◌, add_int-parts, sub_int-parts, arith,
}
use waverless.Autoscaler.Types.{EndpointConfig, Resources, ScaleDecision, DecisionEngine}
use waverless.Autoscaler.ScaleUp.{in_cooldown, should_scale_up}
use waverless.Autoscaler.ScaleUp.Bounds.{IsSane, IsExact, should_scale_up_iff}
use waverless.Autoscaler.ScaleDown.{
  min_required, min_safe, desired_replicas, is_idle, should_scale_down,
}

-- What a decision to scale `ep` down says.
pub record Shrinks {F : Type 0} (ep : EndpointConfig) (d : ScaleDecision F) : Type 0 where
  pub current : d.current_replicas ≡ ep.replicas
  pub amount : d.scale_amount ≡ sub_int d.desired_replicas ep.replicas
  pub shrinks : d.desired_replicas <ℤ ep.replicas
  pub above_min : ep.min_replicas ≤ℤ d.desired_replicas
  pub above_running : pos 0 <ℤ ep.running_tasks → ep.running_tasks <ℤ d.desired_replicas
  pub nothing_queued : ep.pending_tasks ≤ℤ pos 0
  pub settled : ep.actual_replicas ≤ℤ ep.replicas
  pub approved : d.approved ≡ true

min_required_bounds :
    (ep : EndpointConfig)
    → IsSane ep
    → (ep.running_tasks ≤ℤ min_required ep)
      × (pos 0 <ℤ ep.running_tasks → ep.running_tasks <ℤ min_required ep)
unfolding min_required
min_required_bounds ep sane = ground (arith, add_int-parts ep.running_tasks (pos 1))

desired_replicas_bounds :
    (now : ℕ) (ep : EndpointConfig)
    → IsSane ep
    → ep.min_replicas <ℤ ep.replicas
    → min_required ep <ℤ ep.replicas
    → (desired_replicas now ep <ℤ ep.replicas)
      × (ep.min_replicas ≤ℤ desired_replicas now ep)
      × (min_required ep ≤ℤ desired_replicas now ep)
unfolding desired_replicas min_safe
desired_replicas_bounds now ep sane room busy = ground (arith, sub_int-parts ep.replicas (pos 1))

module _ {F : Type 0} (e : DecisionEngine F) (ep : EndpointConfig) where
  -- An endpoint is scaled down exactly when it is above its minimum, has no scale-down under way,
  -- nothing queued, more replicas than its running tasks and the buffer need, has been idle for
  -- its idle time or never had a task, and is out of its cooldown.
  pub should_scale_down_iff : (should_scale_down e ep ≢ none) ↔ (
      (ep.min_replicas <ℤ ep.replicas)
      × (ep.actual_replicas ≤ℤ ep.replicas)
      × (ep.pending_tasks ≤ℤ pos 0)
      × (min_required ep <ℤ ep.replicas)
      × (is_idle e ep ≡ true)
      × (in_cooldown e.now ep.last_scale_time ep.scale_down_cooldown ≡ false))
  unfolding should_scale_down
  should_scale_down_iff = (λ h. ground arith, λ h. ground arith)

  -- Where the counts of an endpoint are below 2^62 in size, a decision to scale it down names fewer
  -- replicas than it has, never fewer than `MinReplicas`, and more than its running tasks if it has
  -- any; it is approved, carries the difference, and is made only with nothing queued and no
  -- scale-down under way.
  pub should_scale_down-Shrinks :
      {d : ScaleDecision F} → IsSane ep → should_scale_down e ep ≡ some d → Shrinks ep d
  unfolding should_scale_down
  should_scale_down-Shrinks sane h =
      ground (arith, min_required_bounds ep sane, desired_replicas_bounds e.now ep sane)

  -- `shouldScaleUp` and `shouldScaleDown` never both decide for an endpoint: where its counts are
  -- below 2^62 in size, the sum of its queued and running tasks is below 2^53 in size and a float64
  -- holds every integer so far, and the calculator knows the endpoint, an endpoint for which the one
  -- decides to scale up gets no decision from the other.
  pub scale_up_excludes_down :
      (available : Resources F)
      → IsSane ep
      → IsExact e.fl
      → pos_part (add_int ep.pending_tasks ep.running_tasks) < 2 ^ 53
      → neg_part (add_int ep.pending_tasks ep.running_tasks) < 2 ^ 53
      → ((amount : ℤ) → e.calculate ep amount ≢ none)
      → should_scale_up e ep available ≢ none
      → should_scale_down e ep ≡ none
  scale_up_excludes_down available sane exact high low known up = ground (
    arith,
    (should_scale_up_iff e ep available sane exact high low known).0 up,
    should_scale_down_iff.0,
    min_required_bounds ep sane,
    add_int-parts ep.pending_tasks ep.running_tasks,
  )
