-- ===== src/Autoscaler/Preempt/Victims.antt =====
-- Who can be preempted, and when a request is approved.
use waverless.Base.{
  ◌≡◌, ◌≢◌, refl, true, some, List, [], ◌∷◌, ◌++◌, pos, negsuc, sub_int, ◌<ℤ◌, String, All,
  All-append, All-map, Option-cases, Bool-cases, inl, inr, arith,
}
use mathlib.Core.List.{Memᴰ}
use waverless.Autoscaler.Types.{
  EndpointConfig, Resources, ScaleDecision, DecisionEngine, add, can_allocate,
}
use waverless.Autoscaler.Preempt.{
  Sweep, gain, sweep, attend, preempt_all, preemption_decision, approve, pass_over, take_one,
}

module _ {F : Type 0} (e : DecisionEngine F) where
  -- One replica is taken, from an endpoint that ranks below the request.
  pub record Outranked (request p : ScaleDecision F) : Type 0 where
    pub lower : p.priority <ℤ request.priority
    pub one : p.scale_amount ≡ negsuc 0
    pub fewer : p.desired_replicas ≡ sub_int p.current_replicas (pos 1)
    pub approved : p.approved ≡ true

  gain-Outranked :
      (request : ScaleDecision F) (v : EndpointConfig) {freed : Resources F}
      → gain e request v ≡ some freed
      → Outranked request (preemption_decision e request v)
  unfolding gain preemption_decision
  gain-Outranked request v h = ground arith

  sweep-Outranked :
      (pool : Resources F) (request : ScaleDecision F) (from : List String)
      (vs : List EndpointConfig)
      → All (Outranked request) (sweep e pool request from vs).made
  unfolding sweep
  sweep-Outranked pool request from [] = tt
  sweep-Outranked pool request from (v ∷ vs) = elim (Option-cases (gain e request v)) [
    | inl skipped ↦ rw (skipped, sweep) (sweep-Outranked pool request from vs)
    | inr (freed, taken) ↦
        let pool' = add e.fl pool freed in
        let first = gain-Outranked request v taken in
        elim (Bool-cases (can_allocate e.fl pool' request.required_resource)) [
          | inl fits ↦ rw (taken, fits, sweep) (first, tt)
          | inr short ↦
              rw (taken, short, sweep)
                (first, sweep-Outranked pool' request (from ++ v.name ∷ []) vs)
        ]
  ]

  -- The request is blocked, and outranks the victim of `p`.
  pub record Causes (request p : ScaleDecision F) : Type 0 where
    pub wants : request.blocked ≡ true
    pub outranked : Outranked request p

  attend-Causes :
      (pool : Resources F) (d : ScaleDecision F) (vs : List EndpointConfig)
      → All (Causes d) (attend e pool d vs).made
  unfolding attend
  attend-Causes pool d vs = elim (Bool-cases d.blocked) [
    | inl wants ↦
        simp (wants, attend)
          (All-map (Outranked d) (Causes d) (sweep e pool d [] vs).made
            (λ p o. record { wants = wants; outranked = o }) (sweep-Outranked pool d [] vs))
    | inr idle ↦ simp (idle, attend) tt
  ]

  -- A blocked request of the list outranks the victim of `p`.
  abbrev pub HasCause : List (ScaleDecision F) → ScaleDecision F → Type 0
  HasCause ds p = (d : ScaleDecision F) × Memᴰ d ds × Causes d p

  -- Every preemption takes one replica, for a blocked request of strictly higher priority.
  pub preempt_all-HasCause :
      (pool : Resources F) (vs : List EndpointConfig) (ds : List (ScaleDecision F))
      → All (HasCause ds) (preempt_all e pool vs ds).decisions
  unfolding preempt_all
  preempt_all-HasCause pool vs [] = tt
  preempt_all-HasCause pool vs (d ∷ ds) =
      let s = attend e pool d vs in
      let rest = preempt_all e s.left s.victims ds in
      All-append (HasCause (d ∷ ds)) s.made rest.decisions
        (All-map (Causes d) (HasCause (d ∷ ds)) s.made (λ p h. (d, Memᴰ.head refl, h))
          (attend-Causes pool d vs))
        (All-map (HasCause ds) (HasCause (d ∷ ds)) rest.decisions (λ p h. (h.0, Memᴰ.tail h.1, h.2))
          (preempt_all-HasCause s.left s.victims ds))

  -- A walk for a request that is not yet approved leaves the request alone, or approves it on a
  -- pool in which its resources fit, after at least one preemption.
  pub data Verdict (request : ScaleDecision F) (s : Sweep F) : Type 0 where
    refused : s.request ≡ request → Verdict request s
    fits :
        (from : List String)
        → s.request ≡ approve e request from
        → can_allocate e.fl s.left request.required_resource ≡ true
        → s.made ≢ []
        → Verdict request s

  pub sweep-Verdict :
      (pool : Resources F) (request : ScaleDecision F) (from : List String)
      (vs : List EndpointConfig)
      → Verdict request (sweep e pool request from vs)
  unfolding sweep
  sweep-Verdict pool request from [] = refused refl
  sweep-Verdict pool request from (v ∷ vs) = elim (Option-cases (gain e request v)) [
    | inl skipped ↦ rw (skipped, sweep) (passed (sweep-Verdict pool request from vs))
    | inr (freed, taken) ↦
        let pool' = add e.fl pool freed in
        let from' = from ++ v.name ∷ [] in
        elim (Bool-cases (can_allocate e.fl pool' request.required_resource)) [
          | inl enough ↦ rw (taken, enough, sweep) (fits from' refl enough (λ q. cc))
          | inr short ↦ rw (taken, short, sweep) (took (sweep-Verdict pool' request from' vs))
        ]
  ]
    where
      passed : {s : Sweep F} → Verdict request s → Verdict request (pass_over e v s)
      passed (refused q) = refused q
      passed (fits f q c m) = fits f q c m

      took : {s : Sweep F} → Verdict request s → Verdict request (take_one e request v s)
      took (refused q) = refused q
      took (fits f q c m) = fits f q c (λ r. cc)
