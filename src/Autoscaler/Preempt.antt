-- ===== src/Autoscaler/Preempt.antt =====
-- `considerPreemption` of pkg/autoscaler/decision_engine.go. The source walks over pointers: it
-- changes the blocked decisions in the merged list and the replicas of the candidates. Here each
-- walk returns the lists with those changes.
pub mod Victims
pub mod Sharing
use waverless.Base.{
  Bool, true, false, not, ◌&&◌, Option, none, some, List, [], ◌∷◌, ◌++◌, ℤ, pos, negsuc, sub_int,
  ltb_ℤ, leb_ℤ, eqb_ℤ, String, select, if◌then◌else◌,
}
use waverless.Base.Sort.{sort}
use waverless.Autoscaler.Types.{
  EndpointConfig, Resources, ScaleDecision, DecisionEngine, add, can_allocate, no_reason,
  preempted_by, after_preemption,
}
use waverless.Autoscaler.Priority.{effective_priority}

-- Candidates have a replica to spare and nothing queued.
unfoldable pub is_preemptable : EndpointConfig → Bool
is_preemptable ep = ltb_ℤ ep.min_replicas ep.replicas && eqb_ℤ ep.pending_tasks (pos 0)

-- `victim.Replicas--`
unfoldable pub lose_one : EndpointConfig → EndpointConfig
lose_one v = record v { replicas = sub_int v.replicas (pos 1) }

-- The state after the inner loop for one blocked decision.
pub record Sweep (F : Type 0) : Type 0 where
  pub left : Resources F
  pub request : ScaleDecision F
  pub victims : List EndpointConfig
  pub made : List (ScaleDecision F)

-- The state after the outer loop.
pub record Preemption (F : Type 0) : Type 0 where
  pub pool : Resources F
  pub requests : List (ScaleDecision F)
  pub endpoints : List EndpointConfig
  pub decisions : List (ScaleDecision F)

module _ {F : Type 0} (e : DecisionEngine F) where
  abbrev pub rank : EndpointConfig → ℤ
  rank ep = effective_priority e.fl e.now ep e.starvation_time

  -- The candidates with low priority come first.
  unfoldable pub ranks_below : EndpointConfig → EndpointConfig → Bool
  ranks_below a b = ltb_ℤ (rank a) (rank b)

  -- What one replica of the victim frees: nothing if it does not rank below the request.
  unfoldable pub gain : ScaleDecision F → EndpointConfig → Option (Resources F)
  gain request victim =
      if leb_ℤ request.priority (rank victim) then none else e.calculate victim (pos 1)

  unfoldable pub preemption_decision : ScaleDecision F → EndpointConfig → ScaleDecision F
  preemption_decision request victim = record {
    endpoint = victim.name;
    current_replicas = victim.replicas;
    desired_replicas = sub_int victim.replicas (pos 1);
    scale_amount = negsuc 0;
    priority = rank victim;
    base_priority = victim.priority;
    queue_length = victim.pending_tasks;
    reason = preempted_by request.endpoint;
    approved = true;
    blocked = false;
    blocked_reason = no_reason;
    preempted_from = [];
    required_resource = record {
      gpu_count = pos 0;
      cpu_cores = e.fl.of_int (pos 0);
      memory_gb = e.fl.of_int (pos 0);
    };
  }

  unfoldable pub approve : ScaleDecision F → List String → ScaleDecision F
  approve request from = record request {
    approved = true;
    blocked = false;
    preempted_from = from;
    reason = after_preemption from;
  }

  -- The victim is passed over.
  unfoldable pub pass_over : EndpointConfig → Sweep F → Sweep F
  pass_over v s = record s { victims = v ∷ s.victims }

  -- The victim loses a replica, and the walk goes on.
  unfoldable pub take_one : ScaleDecision F → EndpointConfig → Sweep F → Sweep F
  take_one request v s = record s {
    victims = lose_one v ∷ s.victims;
    made = preemption_decision request v ∷ s.made;
  }

  -- The inner loop, over the candidates that are left. It ends once the request fits.
  unfoldable pub sweep : Resources F → ScaleDecision F → List String → List EndpointConfig → Sweep F
  unfolding gain pass_over take_one
  sweep pool request from [] = record { left = pool; request = request; victims = []; made = [] }
  sweep pool request from (v ∷ vs) = elim (gain request v) [
    | none ↦ pass_over v (sweep pool request from vs)
    | some freed ↦
        let pool' = add e.fl pool freed in
        let from' = from ++ v.name ∷ [] in
        elim (can_allocate e.fl pool' request.required_resource) [
          | true ↦ record {
            left = pool';
            request = approve request from';
            victims = lose_one v ∷ vs;
            made = preemption_decision request v ∷ [];
          }
          | false ↦ take_one request v (sweep pool' request from' vs)
        ]
  ]

  -- The outer loop. A decision that is not blocked is no request.
  unfoldable pub attend : Resources F → ScaleDecision F → List EndpointConfig → Sweep F
  unfolding sweep
  attend pool d victims =
      if d.blocked
      then sweep pool d [] victims
      else record { left = pool; request = d; victims = victims; made = [] }

  unfoldable pub preempt_all :
      Resources F → List EndpointConfig → List (ScaleDecision F) → Preemption F
  unfolding attend
  preempt_all pool victims [] = record {
    pool = pool;
    requests = [];
    endpoints = victims;
    decisions = [];
  }
  preempt_all pool victims (d ∷ ds) =
      let s = attend pool d victims in
      let rest = preempt_all s.left s.victims ds in
      record rest { requests = s.request ∷ rest.requests; decisions = s.made ++ rest.decisions }

  unfoldable pub consider_preemption :
      List (ScaleDecision F) → List EndpointConfig → Resources F → Preemption F
  unfolding preempt_all
  consider_preemption requests endpoints pool =
      preempt_all pool (sort ranks_below (select is_preemptable endpoints)) requests
