-- ===== src/Autoscaler/Fair/Amounts.antt =====
-- The fair allocation splits the decisions and loses none of the replicas that they ask for.
use waverless.Base.{
  keep, ℕ, ◌+◌, ◌≡◌, ◌≢◌, inl, inr, none, List, [], ◌∷◌, ◌++◌, ℤ, pos, pos_part, sub_int, IsInt,
  wrap, All, total, total-append, select, length, Bool-cases, if◌then◌else◌, arith,
}
use waverless.Base.Sort.{sort, total-sort}
use waverless.Autoscaler.Types.{EndpointConfig, Resources, ScaleDecision, DecisionEngine, named}
use waverless.Autoscaler.Fair.{
  Granted, is_eligible, grant, left_after, note, grant_all, allocate, allocate_all, fair_allocation,
  more_urgent, minimal_decision, remaining_decision,
}

abbrev pub amount : {F : Type 0} → ScaleDecision F → ℕ
amount d = pos_part d.scale_amount

module _ {F : Type 0} (e : DecisionEngine F) where
  -- The calculator knows every endpoint.
  abbrev pub IsTotal : Type 0
  IsTotal = (ep : EndpointConfig) (n : ℤ) → e.calculate ep n ≢ none

  module _ (known : IsTotal) where
    grant_amounts :
        (available : Resources F) (d : ScaleDecision F) (g : Granted F)
        → IsInt d.scale_amount
        → let h = note e d (grant e available d) g in
          (total amount h.refusals + total amount h.minimal + total amount h.remaining
            ≡ (if is_eligible d then amount d else 0)
              + (total amount g.refusals + total amount g.minimal + total amount g.remaining))
          × (length h.refusals + length h.minimal
              ≡ (if is_eligible d then 1 else 0) + (length g.refusals + length g.minimal))
    unfolding grant note minimal_decision remaining_decision sub_int wrap
    grant_amounts available d g fits = ground (arith, known (named d.endpoint) (pos 1))

    grant_all_amounts :
        (available : Resources F) (ds : List (ScaleDecision F))
        → All (λ d. IsInt d.scale_amount) ds
        → let g = grant_all e available ds in
          (total amount g.refusals + total amount g.minimal + total amount g.remaining
            ≡ total amount (select is_eligible ds))
          × (length g.refusals + length g.minimal ≡ length (select is_eligible ds))
    unfolding grant_all
    grant_all_amounts available [] fits = ground arith
    grant_all_amounts available (d ∷ ds) fits =
        let next = left_after e available (grant e available d) in
        let step = grant_amounts available d (grant_all e next ds) fits.0 in
        let rest = grant_all_amounts next ds fits.1 in
        elim (Bool-cases (is_eligible d)) [ inl p ↦ ground arith | inr p ↦ ground arith ]

    allocate_amount :
        (available : Resources F) (d : ScaleDecision F) (ds : List (ScaleDecision F))
        → total amount (keep (allocate e available d).0 ds) ≡ amount d + total amount ds
    unfolding allocate
    allocate_amount available d ds = ground (arith, known (named d.endpoint) d.scale_amount)

    allocate_all_amounts :
        (available : Resources F) (ds : List (ScaleDecision F))
        → total amount (allocate_all e available ds).0 ≡ total amount ds
    unfolding allocate_all
    allocate_all_amounts available [] = omega arith
    allocate_all_amounts available (d ∷ ds) =
        let next = (allocate e available d).1 in
        omega (
          arith,
          allocate_amount available d (allocate_all e next ds).0,
          allocate_all_amounts next ds,
        )

    -- Where the calculator knows every endpoint and the amounts are values of Go's `int`, the
    -- decisions that come out ask together for as many replicas as the decisions with queued tasks
    -- and a positive amount that went in.
    pub fair_allocation-amounts :
        (ds : List (ScaleDecision F)) (available : Resources F)
        → All (λ d. IsInt d.scale_amount) ds
        → total amount (fair_allocation e ds available).0 ≡ total amount (select is_eligible ds)
    unfolding fair_allocation
    fair_allocation-amounts ds available fits =
        let g = grant_all e available ds in
        let sorted = sort more_urgent g.remaining in
        let out = (allocate_all e g.left sorted).0 in
        omega (
          arith,
          (grant_all_amounts available ds fits).0,
          allocate_all_amounts g.left sorted,
          total-sort more_urgent amount g.remaining,
          total-append amount g.refusals (g.minimal ++ out),
          total-append amount g.minimal out,
        )
