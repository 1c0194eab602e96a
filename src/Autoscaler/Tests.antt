-- ===== src/Autoscaler/Tests.antt =====
-- The theorems on the autoscaler at concrete inputs: floats that are integers, a calculator that
-- gives each replica one GPU and one core, and three endpoints.
use waverless.Base.{
  ◌+◌, ◌≡◌, refl, true, none, some, [], ◌∷◌, ℤ, pos, pos_part, add_int, sub_int, mul_int, quot_int,
  rem_int, wrap, ltb_ℤ, leb_ℤ, ◌≤ℤ◌, since, of_seconds, seconds, Float64, All, total, select, arith,
}
use waverless.Base.Sort.{sort, insert}
use waverless.Autoscaler.Types.{
  EndpointConfig, named, Resources, ScaleDecision, DecisionEngine, add, subtract, can_allocate,
  Calculate,
}
use waverless.Autoscaler.Priority.{effective_priority}
use waverless.Autoscaler.ScaleUp.{
  in_cooldown, limit_target, target_replicas, plan_scale_up, should_scale_up, scale_up_decision,
}
use waverless.Autoscaler.ScaleUp.Bounds.{IsSane, GrowsTo, should_scale_up-GrowsTo}
use waverless.Autoscaler.ScaleDown.{
  min_required, min_safe, desired_replicas, is_idle, should_scale_down, scale_down_decision,
}
use waverless.Autoscaler.ScaleDown.Bounds.{
  Shrinks, should_scale_down-Shrinks, scale_up_excludes_down,
}
use waverless.Autoscaler.Fair.{is_eligible, fair_allocation, minimal_decision, remaining_decision}
use waverless.Autoscaler.Fair.Gpu.{IsNonneg, gpu_cost, fair_allocation-gpus}
use waverless.Autoscaler.Fair.Amounts.{amount, fair_allocation-amounts}
use waverless.Autoscaler.Preempt.{preempt_all, approve, lose_one, gain, preemption_decision}
use waverless.Autoscaler.Preempt.Victims.{HasCause, preempt_all-HasCause}

abbrev whole : Float64 ℤ
whole = record {
  of_int = λ n. n;
  to_int = λ x. x;
  ceil = λ x. x;
  add = add_int;
  sub = sub_int;
  mul = mul_int;
  div = λ a b. quot_int a (pos_part b);
  lt = ltb_ℤ;
  le = leb_ℤ;
}

abbrev flat : Calculate ℤ
flat ep n = some (record { gpu_count = pos (pos_part n); cpu_cores = n; memory_gb = n })

abbrev engine : DecisionEngine ℤ
engine = record { fl = whole; calculate = flat; now = 1000000000000; starvation_time = pos 300 }

abbrev busy : EndpointConfig
busy = record (named "busy") {
  max_replicas = pos 5;
  replicas = pos 1;
  priority = pos 60;
  pending_tasks = pos 3;
  running_tasks = pos 1;
}

abbrev quiet : EndpointConfig
quiet = record (named "quiet") {
  min_replicas = pos 1;
  max_replicas = pos 5;
  replicas = pos 4;
  actual_replicas = pos 4;
  priority = pos 10;
  running_tasks = pos 1;
}

abbrev pool : Resources ℤ
pool = record { gpu_count = pos 2; cpu_cores = pos 8; memory_gb = pos 8 }

program : Unit {0}
unfolding add_int sub_int mul_int quot_int rem_int wrap since of_seconds seconds sort insert add
    subtract can_allocate effective_priority in_cooldown limit_target target_replicas plan_scale_up
    should_scale_up scale_up_decision min_required min_safe desired_replicas is_idle
    should_scale_down scale_down_decision fair_allocation minimal_decision remaining_decision
    preempt_all approve lose_one gain preemption_decision
program = tt

busy-IsSane : IsSane busy
busy-IsSane = omega arith

quiet-IsSane : IsSane quiet
quiet-IsSane = omega arith

abbrev growth : ScaleDecision ℤ
growth =
    scale_up_decision busy (pos 4) (pos 3) (pos 60)
      (record { gpu_count = pos 3; cpu_cores = pos 3; memory_gb = pos 3 }) true

busy_grows : should_scale_up engine busy pool ≡ some growth
unfolding program
busy_grows = refl

should_scale_up-GrowsTo_example : GrowsTo engine busy pool growth
should_scale_up-GrowsTo_example = should_scale_up-GrowsTo engine busy pool busy_grows

quiet_shrinks : should_scale_down engine quiet ≡ some (scale_down_decision engine quiet (pos 3))
unfolding program
quiet_shrinks = refl

should_scale_down-Shrinks_example : Shrinks quiet (scale_down_decision engine quiet (pos 3))
should_scale_down-Shrinks_example =
    should_scale_down-Shrinks engine quiet quiet-IsSane quiet_shrinks

scale_up_excludes_down_example : should_scale_down engine busy ≡ none
unfolding program
scale_up_excludes_down_example =
    scale_up_excludes_down engine busy pool busy-IsSane (λ n h k. refl) (omega arith) (omega arith)
      (λ n q. cc) (λ q. cc)

flat-IsNonneg : IsNonneg engine
flat-IsNonneg ep n r h = ground arith

fair_allocation-gpus_example :
    (total (gpu_cost engine) (fair_allocation engine (growth ∷ []) pool).0
        + pos_part (fair_allocation engine (growth ∷ []) pool).1.gpu_count
      ≡ 2)
    × (pos 0 ≤ℤ (fair_allocation engine (growth ∷ []) pool).1.gpu_count)
fair_allocation-gpus_example =
    fair_allocation-gpus engine flat-IsNonneg (growth ∷ []) pool (omega arith) (omega arith)

fair_allocation-amounts_example :
    total amount (fair_allocation engine (growth ∷ []) pool).0
    ≡ total amount (select is_eligible (growth ∷ []))
unfolding program
fair_allocation-amounts_example =
    fair_allocation-amounts engine (λ ep n q. cc) (growth ∷ []) pool (omega arith)

preempt_all-HasCause_example :
    All
      (HasCause engine (growth ∷ []))
      (preempt_all engine pool (quiet ∷ []) (growth ∷ [])).decisions
preempt_all-HasCause_example = preempt_all-HasCause engine pool (quiet ∷ []) (growth ∷ [])

abbrev freed : Resources ℤ
freed = record { gpu_count = pos 1; cpu_cores = pos 1; memory_gb = pos 1 }

abbrev spare : EndpointConfig
spare = record quiet { min_replicas = pos 3 }
