-- ===== src/Autoscaler/Preempt/Sharing.antt =====
-- Two requests that want the same victim (considerPreemption of pkg/autoscaler/decision_engine.go).
use waverless.Base.{◌≡◌, refl, true, some, [], ◌∷◌, pos, ◌<ℤ◌, arith}
use waverless.Autoscaler.Types.{
  EndpointConfig, Resources, ScaleDecision, DecisionEngine, add, can_allocate,
}
use waverless.Autoscaler.Priority.{effective_priority}
use waverless.Autoscaler.Preempt.{
  gain, sweep, attend, preempt_all, preemption_decision, approve, lose_one, rank,
}

module _ {F : Type 0} (e : DecisionEngine F) where
  gain-eq-some :
      (d : ScaleDecision F) (v : EndpointConfig) {freed : Resources F}
      → rank e v <ℤ d.priority
      → e.calculate v (pos 1) ≡ some freed
      → gain e d v ≡ some freed
  unfolding gain
  gain-eq-some d v below priced = ground arith

  -- A blocked request that fits after one preemption.
  attend_once :
      (pool freed : Resources F) (d : ScaleDecision F) (v : EndpointConfig)
      → d.blocked ≡ true
      → rank e v <ℤ d.priority
      → e.calculate v (pos 1) ≡ some freed
      → can_allocate e.fl (add e.fl pool freed) d.required_resource ≡ true
      → attend e pool d (v ∷ []) ≡ record {
        left = add e.fl pool freed;
        request = approve e d (v.name ∷ []);
        victims = lose_one v ∷ [];
        made = preemption_decision e d v ∷ [];
      }
  unfolding attend
  attend_once pool freed d v wants below priced fits =
      simp (wants, gain-eq-some d v below priced, fits, sweep, attend)

  -- Two blocked requests that both outrank the only candidate `v`, of which one replica frees
  -- `freed` each time: if the first fits with `freed` added to the pool and the second with it
  -- added twice, both are approved, although the first takes nothing out of the pool, and `v` loses
  -- two replicas, whatever its `MinReplicas` is.
  pub preempt_all-shared :
      (v : EndpointConfig) (pool freed : Resources F) (a b : ScaleDecision F)
      → a.blocked ≡ true
      → b.blocked ≡ true
      → rank e v <ℤ a.priority
      → rank e v <ℤ b.priority
      → e.calculate v (pos 1) ≡ some freed
      → e.calculate (lose_one v) (pos 1) ≡ some freed
      → can_allocate e.fl (add e.fl pool freed) a.required_resource ≡ true
      → can_allocate e.fl (add e.fl (add e.fl pool freed) freed) b.required_resource ≡ true
      → let r = preempt_all e pool (v ∷ []) (a ∷ b ∷ []) in
        (r.endpoints ≡ lose_one (lose_one v) ∷ [])
        × (r.requests ≡ approve e a (v.name ∷ []) ∷ approve e b (v.name ∷ []) ∷ [])
        × (r.pool ≡ add e.fl (add e.fl pool freed) freed)
  unfolding preempt_all
  preempt_all-shared v pool freed a b wa wb ra rb pv pw fa fb =
      let rank_kept : rank e v <ℤ b.priority → rank e (lose_one v) <ℤ b.priority =
        unfold lose_one effective_priority in λ h. h in
      let second = attend_once (add e.fl pool freed) freed b (lose_one v) wb (rank_kept rb) pw fb in
      rw (attend_once pool freed a v wa ra pv fa, second) (refl, (unfold lose_one in refl), refl)
