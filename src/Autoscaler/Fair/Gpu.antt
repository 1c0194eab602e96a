-- ===== src/Autoscaler/Fair/Gpu.antt =====
-- The fair allocation never promises more GPUs than were available.
use waverless.Base.{
  keep, ℕ, ◌+◌, ◌≡◌, inl, inr, true, Option, none, some, List, [], ◌∷◌, ◌++◌, Option-cases, ℤ, pos,
  pos_part, sub_int, ◌≤ℤ◌, IsInt, wrap, total, total-append, arith, if◌then◌else◌,
}
use waverless.Base.Sort.{sort}
use waverless.Autoscaler.Types.{
  EndpointConfig, Resources, ScaleDecision, DecisionEngine, can_allocate, subtract, named,
}
use waverless.Autoscaler.Fair.{
  Granted, grant, left_after, note, grant_all, allocate, allocate_all, fair_allocation, more_urgent,
  minimal_decision,
}

module _ {F : Type 0} (e : DecisionEngine F) where
  -- The calculator asks for no negative number of GPUs.
  abbrev pub IsNonneg : Type 0
  IsNonneg =
      (ep : EndpointConfig) (n : ℤ) (r : Resources F)
      → e.calculate ep n ≡ some r
      → pos 0 ≤ℤ r.gpu_count

  -- The GPUs that the calculator gives for `n` replicas of an endpoint.
  abbrev gpus_of : Option (Resources F) → ℕ
  gpus_of none = 0
  gpus_of (some r) = pos_part r.gpu_count

  -- The GPUs that an approved decision takes.
  abbrev pub gpu_cost : ScaleDecision F → ℕ
  gpu_cost d = if d.approved then gpus_of (e.calculate (named d.endpoint) d.scale_amount) else 0

  abbrev IsCount : ℤ → Type 0
  IsCount n = (pos 0 ≤ℤ n) × IsInt n

  subtract_gpus :
      (available r : Resources F)
      → IsCount available.gpu_count
      → pos 0 ≤ℤ r.gpu_count
      → can_allocate e.fl available r ≡ true
      → IsCount (subtract e.fl available r).gpu_count
        × (pos_part (subtract e.fl available r).gpu_count + pos_part r.gpu_count
            ≡ pos_part available.gpu_count)
  unfolding subtract can_allocate sub_int wrap
  subtract_gpus available r ha hr h = ground arith

  -- What is left after a round of phase 1, and the cost of what the round adds.
  grant_gpus :
      IsNonneg
      → (available : Resources F) (d : ScaleDecision F) (g : Granted F)
      → IsCount available.gpu_count
      → IsCount (left_after e available (grant e available d)).gpu_count
        × (total gpu_cost (note e d (grant e available d) g).minimal
              + pos_part (left_after e available (grant e available d)).gpu_count
            ≡ total gpu_cost g.minimal + pos_part available.gpu_count)
        × (total gpu_cost (note e d (grant e available d) g).refusals ≡ total gpu_cost g.refusals)
        × ((note e d (grant e available d) g).left ≡ g.left)
  unfolding grant left_after note minimal_decision
  grant_gpus nonneg available d g ha =
      elim (Option-cases (e.calculate (named d.endpoint) (pos 1))) [
        | inl failed ↦ ground arith
        | inr (single, priced) ↦
            let hr = nonneg (named d.endpoint) (pos 1) single priced in
            ground (arith, subtract_gpus available single ha hr)
      ]

  grant_all_gpus :
      IsNonneg
      → (available : Resources F) (ds : List (ScaleDecision F)) → IsCount available.gpu_count
      → IsCount (grant_all e available ds).left.gpu_count
        × (total gpu_cost (grant_all e available ds).minimal
              + pos_part (grant_all e available ds).left.gpu_count
            ≡ pos_part available.gpu_count)
        × (total gpu_cost (grant_all e available ds).refusals ≡ 0)
  unfolding grant_all
  grant_all_gpus nonneg available [] ha = ground arith
  grant_all_gpus nonneg available (d ∷ ds) ha =
      let outcome = grant e available d in
      let step =
        grant_gpus nonneg available d (grant_all e (left_after e available outcome) ds) ha in
      ground (arith, grant_all_gpus nonneg (left_after e available outcome) ds step.0)

  allocate_gpus :
      IsNonneg
      → (available : Resources F) (d : ScaleDecision F) (ds : List (ScaleDecision F))
      → IsCount available.gpu_count
      → IsCount (allocate e available d).1.gpu_count
        × (total gpu_cost (keep (allocate e available d).0 ds)
              + pos_part (allocate e available d).1.gpu_count
            ≡ total gpu_cost ds + pos_part available.gpu_count)
  unfolding allocate
  allocate_gpus nonneg available d ds ha =
      elim (Option-cases (e.calculate (named d.endpoint) d.scale_amount)) [
        | inl failed ↦ ground arith
        | inr (r, priced) ↦
            let hr = nonneg (named d.endpoint) d.scale_amount r priced in
            ground (arith, subtract_gpus available r ha hr)
      ]

  allocate_all_gpus :
      IsNonneg
      → (available : Resources F) (ds : List (ScaleDecision F)) → IsCount available.gpu_count
      → IsCount (allocate_all e available ds).1.gpu_count
        × (total gpu_cost (allocate_all e available ds).0
              + pos_part (allocate_all e available ds).1.gpu_count
            ≡ pos_part available.gpu_count)
  unfolding allocate_all
  allocate_all_gpus nonneg available [] ha = ground arith
  allocate_all_gpus nonneg available (d ∷ ds) ha =
      let next = (allocate e available d).1 in
      let step = allocate_gpus nonneg available d (allocate_all e next ds).0 ha in
      ground (arith, allocate_all_gpus nonneg next ds step.0)

  -- From a pool that is not over-committed, and with a calculator that asks for no negative number
  -- of GPUs: the GPUs of all decisions that come out approved and the GPUs left make up the pool,
  -- and what is left is not negative.
  pub fair_allocation-gpus :
      IsNonneg
      → (ds : List (ScaleDecision F)) (available : Resources F) → pos 0 ≤ℤ available.gpu_count
      → IsInt available.gpu_count
      → (total gpu_cost (fair_allocation e ds available).0
            + pos_part (fair_allocation e ds available).1.gpu_count
          ≡ pos_part available.gpu_count)
        × (pos 0 ≤ℤ (fair_allocation e ds available).1.gpu_count)
  unfolding fair_allocation
  fair_allocation-gpus nonneg ds available h0 hi =
      let g = grant_all e available ds in
      let first = grant_all_gpus nonneg available ds (h0, hi) in
      let second = allocate_all_gpus nonneg g.left (sort more_urgent g.remaining) first.0 in
      let out = (allocate_all e g.left (sort more_urgent g.remaining)).0 in
      omega (
        arith,
        total-append gpu_cost g.refusals (g.minimal ++ out),
        total-append gpu_cost g.minimal out,
      )
