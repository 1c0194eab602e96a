-- ===== src/Autoscaler/Priority.antt =====
-- `EffectivePriority` of pkg/interfaces/autoscaler.go.
use waverless.Base.{
  not, ◌&&◌, ℤ, pos, add_int, mul_int, ltb_ℤ, leb_ℤ, ◌≤ℤ◌, if◌then◌else◌, Time, is_zero, since,
  Float64, seconds, arith,
}
use waverless.Autoscaler.Types.{EndpointConfig}

-- Priority with the boost for a long queue.
abbrev loaded : EndpointConfig → ℤ
loaded c =
    if c.enable_dynamic_prio && leb_ℤ c.high_load_threshold c.pending_tasks
    then add_int c.priority c.priority_boost
    else c.priority

-- The range of a priority is 0 to 150.
abbrev clamp : ℤ → ℤ
clamp p =
    let low = if ltb_ℤ (pos 150) p then pos 150 else p in if ltb_ℤ low (pos 0) then pos 0 else low

module _ {F : Type 0} (fl : Float64 F) (now : Time) where
  -- Ten points for each whole starvation time that the oldest task has waited, thirty at most.
  starved : EndpointConfig → ℤ → ℤ → ℤ
  starved c starvation_time priority =
      let waiting = seconds fl (since now c.first_pending_time) in
      let limit = fl.of_int starvation_time in
      let times = fl.to_int (fl.div waiting limit) in
      let multiplier = if ltb_ℤ (pos 3) times then pos 3 else times in
      if not (is_zero c.first_pending_time) && ltb_ℤ (pos 0) c.pending_tasks && fl.lt limit waiting
      then add_int priority (mul_int multiplier (pos 10))
      else priority

  unfoldable pub effective_priority : EndpointConfig → ℤ → ℤ
  unfolding starved
  effective_priority c starvation_time = clamp (starved c starvation_time (loaded c))

  clamp_bounds : (p : ℤ) → (pos 0 ≤ℤ clamp p) × (clamp p ≤ℤ pos 150)
  clamp_bounds p = ground arith

  -- The effective priority lies between 0 and 150, whatever the endpoint and the clock are.
  pub effective_priority_bounds :
      (c : EndpointConfig) (starvation_time : ℤ)
      → (pos 0 ≤ℤ effective_priority c starvation_time)
        × (effective_priority c starvation_time ≤ℤ pos 150)
  unfolding effective_priority
  effective_priority_bounds c starvation_time = clamp_bounds (starved c starvation_time (loaded c))
