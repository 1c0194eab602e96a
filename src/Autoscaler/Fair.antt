-- ===== src/Autoscaler/Fair.antt =====
-- `fairAllocation` of pkg/autoscaler/decision_engine.go.
pub mod Amounts
pub mod Gpu
use waverless.Base.{
  keep, Bool, true, false, ◌&&◌, Option, none, some, List, [], ◌∷◌, ◌++◌, ℤ, pos, add_int, sub_int,
  ltb_ℤ, eqb_ℤ, not, if◌then◌else◌,
}
use waverless.Base.Sort.{sort}
use waverless.Autoscaler.Types.{
  Resources, ScaleDecision, DecisionEngine, can_allocate, subtract, named, no_reason,
  minimal_guarantee, priority_based, insufficient_for_minimal, insufficient_after_minimal,
}

module _ {F : Type 0} where
  -- The order of both sorts: higher priority first, then the longer queue.
  unfoldable pub more_urgent : ScaleDecision F → ScaleDecision F → Bool
  more_urgent a b =
      if not (eqb_ℤ a.priority b.priority)
      then ltb_ℤ b.priority a.priority
      else ltb_ℤ b.queue_length a.queue_length

  -- The guard of phase 1.
  abbrev pub is_eligible : ScaleDecision F → Bool
  is_eligible d = ltb_ℤ (pos 0) d.scale_amount && ltb_ℤ (pos 0) d.queue_length

  unfoldable pub minimal_decision : ScaleDecision F → Resources F → ScaleDecision F
  minimal_decision d single = record {
    endpoint = d.endpoint;
    current_replicas = d.current_replicas;
    desired_replicas = add_int d.current_replicas (pos 1);
    scale_amount = pos 1;
    priority = d.priority;
    base_priority = d.base_priority;
    queue_length = d.queue_length;
    reason = minimal_guarantee;
    approved = true;
    blocked = false;
    blocked_reason = no_reason;
    preempted_from = [];
    required_resource = single;
  }

  unfoldable pub remaining_decision : ScaleDecision F → ScaleDecision F
  remaining_decision d =
      let current = add_int d.current_replicas (pos 1) in
      let amount = sub_int d.scale_amount (pos 1) in
      record d {
        current_replicas = current;
        scale_amount = amount;
        desired_replicas = add_int current amount;
      }

  abbrev pub refuse : ScaleDecision F → ScaleDecision F
  refuse d = record d {
    approved = false;
    blocked = true;
    blocked_reason = insufficient_for_minimal;
  }

-- What one round of phase 1 does with a decision.
pub data Grant (F : Type 0) : Type 0 where
  skip : Grant F
  refused : Grant F
  granted : Resources F → Grant F

-- What the loop of phase 1 has built: the resources left, the blocked decisions, the minimal
-- allocations and the remaining decisions.
pub record Granted (F : Type 0) : Type 0 where
  pub left : Resources F
  pub refusals : List (ScaleDecision F)
  pub minimal : List (ScaleDecision F)
  pub remaining : List (ScaleDecision F)

module _ {F : Type 0} (e : DecisionEngine F) where
  unfoldable pub grant : Resources F → ScaleDecision F → Grant F
  grant available d =
      if is_eligible d
      then elim (e.calculate (named d.endpoint) (pos 1)) [
        | none ↦ skip
        | some single ↦ if can_allocate e.fl available single then granted single else refused
      ]
      else skip

  unfoldable pub left_after : Resources F → Grant F → Resources F
  left_after available skip = available
  left_after available refused = available
  left_after available (granted single) = subtract e.fl available single

  -- The lists grow at the front here and at the back in the source, over the same rounds.
  unfoldable pub note : ScaleDecision F → Grant F → Granted F → Granted F
  note d skip g = g
  note d refused g = record g { refusals = refuse d ∷ g.refusals }
  note d (granted single) g = record g {
    minimal = minimal_decision d single ∷ g.minimal;
    remaining =
        if ltb_ℤ (pos 1) d.scale_amount then remaining_decision d ∷ g.remaining else g.remaining;
  }

  -- Phase 1: one replica for each decision with queued tasks.
  unfoldable pub grant_all : Resources F → List (ScaleDecision F) → Granted F
  unfolding grant left_after note
  grant_all available [] = record { left = available; refusals = []; minimal = []; remaining = [] }
  grant_all available (d ∷ ds) =
      let outcome = grant available d in
      note d outcome (grant_all (left_after available outcome) ds)

  -- A round of phase 2: the decision with its verdict, unless the calculator fails, and what is
  -- left.
  unfoldable pub allocate : Resources F → ScaleDecision F → Option (ScaleDecision F) × Resources F
  allocate available d = elim (e.calculate (named d.endpoint) d.scale_amount) [
    | none ↦ (none, available)
    | some resources ↦
        if can_allocate e.fl available resources
        then (
          some (record d { approved = true; reason = priority_based }),
          subtract e.fl available resources,
        )
        else (
          some (record d {
            approved = false;
            blocked = true;
            blocked_reason = insufficient_after_minimal;
          }),
          available,
        )
  ]

  -- Phase 2: the remaining decisions by priority.
  unfoldable pub allocate_all :
      Resources F → List (ScaleDecision F) → List (ScaleDecision F) × Resources F
  unfolding allocate
  allocate_all available [] = ([], available)
  allocate_all available (d ∷ ds) =
      let (verdict, left) = allocate available d in
      let (out, rest) = allocate_all left ds in (keep verdict out, rest)

  unfoldable pub fair_allocation :
      List (ScaleDecision F) → Resources F → List (ScaleDecision F) × Resources F
  unfolding grant_all allocate_all more_urgent
  fair_allocation decisions available =
      let g = grant_all available decisions in
      let (out, left) = allocate_all g.left (sort more_urgent g.remaining) in
      (g.refusals ++ (g.minimal ++ out), left)
