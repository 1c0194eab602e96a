-- ===== src/Autoscaler/Engine/Names.antt =====
-- pkg/autoscaler/decision_engine.go: whose decisions a pass makes.
use waverless.Base.{
  ◌≡◌, some, List, [], ◌∷◌, ◌++◌, String, All, All-append, All-gather, All-mem, All-keep, pos,
  ltb_ℤ, All-select_of, select, gather, Option-cases, Bool-cases, inl, inr, arith,
}
use mathlib.Core.Path.{subst}
use waverless.Base.Sort.{sort, All-sort}
use waverless.Autoscaler.Types.{
  EndpointConfig, Resources, ScaleDecision, DecisionEngine, add, can_allocate,
}
use waverless.Autoscaler.ScaleUp.{should_scale_up, plan_scale_up, scale_up_decision}
use waverless.Autoscaler.ScaleDown.{should_scale_down, scale_down_decision}
use waverless.Autoscaler.Fair.{
  Granted, Grant, skip, refused, granted, grant, left_after, note, grant_all, allocate,
  allocate_all, more_urgent, fair_allocation, minimal_decision, remaining_decision,
}
use waverless.Autoscaler.Preempt.{
  Sweep, gain, pass_over, take_one, sweep, attend, preempt_all, consider_preemption, is_preemptable,
  ranks_below, lose_one, approve, preemption_decision,
}
use waverless.Autoscaler.Engine.{
  filter_blocked, identify_scale_up, identify_scale_down, has_any, make_decisions,
}

module _ {F : Type 0} (e : DecisionEngine F) (P : String → Type 0) where
  -- The decision is about an endpoint of which the predicate holds.
  abbrev pub Concerns : ScaleDecision F → Type 0
  Concerns d = P d.endpoint

  abbrev pub Holds : EndpointConfig → Type 0
  Holds ep = P ep.name

  up-Concerns :
      (ep : EndpointConfig) (pool : Resources F) (d : ScaleDecision F)
      → Holds ep
      → should_scale_up e ep pool ≡ some d
      → Concerns d
  unfolding should_scale_up plan_scale_up scale_up_decision
  up-Concerns ep pool d h made =
      let same : ep.name ≡ d.endpoint = ground (arith, made) in subst P same h

  down-Concerns :
      (ep : EndpointConfig) (d : ScaleDecision F)
      → Holds ep
      → should_scale_down e ep ≡ some d
      → Concerns d
  unfolding should_scale_down scale_down_decision
  down-Concerns ep d h made =
      let same : ep.name ≡ d.endpoint = ground (arith, made) in subst P same h

  AllGranted : Granted F → Type 0
  AllGranted g = All Concerns g.refusals × All Concerns g.minimal × All Concerns g.remaining

  note-Concerns :
      (d : ScaleDecision F) (o : Grant F) (g : Granted F)
      → Concerns d
      → AllGranted g
      → AllGranted (note e d o g)
  unfolding AllGranted note minimal_decision remaining_decision
  note-Concerns d skip g h hg = hg
  note-Concerns d refused g h hg = ((h, hg.0), hg.1, hg.2)
  note-Concerns d (granted single) g h hg = (
    hg.0,
    (h, hg.1),
    elim (Bool-cases (ltb_ℤ (pos 1) d.scale_amount)) [
      | inl several ↦ rw several (h, hg.2)
      | inr one ↦ rw one hg.2
    ],
  )

  grant_all-Concerns :
      (pool : Resources F) (ds : List (ScaleDecision F))
      → All Concerns ds
      → AllGranted (grant_all e pool ds)
  unfolding AllGranted grant_all
  grant_all-Concerns pool [] h = (tt, tt, tt)
  grant_all-Concerns pool (d ∷ ds) h =
      let o = grant e pool d in
      note-Concerns d o (grant_all e (left_after e pool o) ds) h.0
        (grant_all-Concerns (left_after e pool o) ds h.1)

  allocate-Concerns :
      (pool : Resources F) (d verdict : ScaleDecision F)
      → Concerns d
      → (allocate e pool d).0 ≡ some verdict
      → Concerns verdict
  unfolding allocate
  allocate-Concerns pool d verdict h made =
      let same : d.endpoint ≡ verdict.endpoint = ground (arith, made) in subst P same h

  allocate_all-Concerns :
      (pool : Resources F) (ds : List (ScaleDecision F))
      → All Concerns ds
      → All Concerns (allocate_all e pool ds).0
  unfolding allocate_all
  allocate_all-Concerns pool [] h = tt
  allocate_all-Concerns pool (d ∷ ds) h =
      All-keep {A = ScaleDecision F} Concerns (λ x. (allocate e pool x).0) (allocate e pool d).0 _
        (λ verdict. allocate-Concerns pool d verdict h.0)
        (allocate_all-Concerns (allocate e pool d).1 ds h.1)

  fair_allocation-Concerns :
      (ds : List (ScaleDecision F)) (pool : Resources F)
      → All Concerns ds
      → All Concerns (fair_allocation e ds pool).0
  unfolding fair_allocation AllGranted
  fair_allocation-Concerns ds pool h =
      let g = grant_all e pool ds in
      let (refusals, minimal, remaining) = grant_all-Concerns pool ds h in
      All-append Concerns g.refusals _ refusals (
        All-append Concerns g.minimal _ minimal (
          allocate_all-Concerns g.left (sort more_urgent g.remaining)
            (All-sort more_urgent Concerns g.remaining remaining)))

  -- The three lists of a walk over the victims.
  AllSwept : Sweep F → Type 0
  AllSwept s = Concerns s.request × All Holds s.victims × All Concerns s.made

  pass_over-Concerns :
      (v : EndpointConfig) (s : Sweep F) → Holds v → AllSwept s → AllSwept (pass_over e v s)
  unfolding AllSwept pass_over
  pass_over-Concerns v s h hs = (hs.0, (h, hs.1), hs.2)

  take_one-Concerns :
      (d : ScaleDecision F) (v : EndpointConfig) (s : Sweep F)
      → Holds v
      → AllSwept s
      → AllSwept (take_one e d v s)
  unfolding AllSwept take_one lose_one preemption_decision
  take_one-Concerns d v s h hs = (hs.0, (h, hs.1), (h, hs.2))

  sweep-Concerns :
      (pool : Resources F) (d : ScaleDecision F) (from : List String) (vs : List EndpointConfig)
      → Concerns d
      → All Holds vs
      → AllSwept (sweep e pool d from vs)
  unfolding sweep
  sweep-Concerns pool d from [] h hs = unfold AllSwept in (h, tt, tt)
  sweep-Concerns pool d from (v ∷ vs) h hs = elim (Option-cases (gain e d v)) [
    | inl skipped ↦
        rw (skipped, sweep)
          (pass_over-Concerns v (sweep e pool d from vs) hs.0
            (sweep-Concerns pool d from vs h hs.1))
    | inr (freed, taken) ↦
        let pool' = add e.fl pool freed in
        let from' = from ++ v.name ∷ [] in
        elim (Bool-cases (can_allocate e.fl pool' d.required_resource)) [
          | inl fits ↦
              rw (taken, sweep)
                (rw fits (
                  unfold AllSwept lose_one approve preemption_decision in
                  (h, (hs.0, hs.1), (hs.0, tt))))
          | inr short ↦
              rw (taken, sweep)
                (rw short (
                  take_one-Concerns d v (sweep e pool' d from' vs) hs.0
                    (sweep-Concerns pool' d from' vs h hs.1)))
        ]
  ]

  attend-Concerns :
      (pool : Resources F) (d : ScaleDecision F) (vs : List EndpointConfig)
      → Concerns d
      → All Holds vs
      → AllSwept (attend e pool d vs)
  unfolding attend
  attend-Concerns pool d vs h hs = elim (Bool-cases d.blocked) [
    | inl blocked ↦ simp blocked (sweep-Concerns pool d [] vs h hs)
    | inr free ↦ simp free (unfold AllSwept in (h, hs, tt))
  ]

  preempt_all-Concerns :
      (pool : Resources F) (vs : List EndpointConfig) (ds : List (ScaleDecision F))
      → All Holds vs
      → All Concerns ds
      → All Concerns (preempt_all e pool vs ds).requests
        × All Concerns (preempt_all e pool vs ds).decisions
  unfolding preempt_all AllSwept
  preempt_all-Concerns pool vs [] hs h = (tt, tt)
  preempt_all-Concerns pool vs (d ∷ ds) hs h =
      let s = attend e pool d vs in
      let (request, victims, made) = attend-Concerns pool d vs h.0 hs in
      let (requests, decisions) = preempt_all-Concerns s.left s.victims ds victims h.1 in
      ((request, requests), All-append Concerns s.made _ made decisions)

  ups-Concerns :
      (eps : List EndpointConfig) (pool : Resources F)
      → All Holds eps
      → All Concerns (identify_scale_up e eps pool).0
  unfolding identify_scale_up
  ups-Concerns eps pool h = fair_allocation-Concerns _ pool (
      All-sort more_urgent Concerns (gather (λ ep. should_scale_up e ep pool) eps) (
        All-gather Concerns (λ ep. should_scale_up e ep pool) eps
          (λ ep m d. up-Concerns ep pool d (All-mem Holds eps h m))))

  downs-Concerns :
      (eps : List EndpointConfig) → All Holds eps → All Concerns (identify_scale_down e eps)
  unfolding identify_scale_down
  downs-Concerns eps h =
      All-gather Concerns (should_scale_down e) eps
        (λ ep m d. down-Concerns ep d (All-mem Holds eps h m))

  -- Every decision of a pass is about one of the endpoints that it was given: what holds of all
  -- their names holds of the endpoint of each decision.
  pub make_decisions-Concerns :
      (eps : List EndpointConfig) (pool : Resources F)
      → All Holds eps
      → All Concerns (make_decisions e eps pool).0
  unfolding make_decisions consider_preemption
  make_decisions-Concerns eps pool h =
      let ups = (identify_scale_up e eps pool).0 in
      let left = (identify_scale_up e eps pool).1 in
      let downs = identify_scale_down e eps in
      let hups = ups-Concerns eps pool h in
      let hdowns = downs-Concerns eps h in
      let vs = sort (ranks_below e) (select is_preemptable eps) in
      let (requests, decisions) =
        preempt_all-Concerns left vs ups
          (All-sort (ranks_below e) Holds (select is_preemptable eps)
            (All-select_of Holds is_preemptable eps h))
          hups in
      elim (Bool-cases (has_any e (filter_blocked ups))) [
        | inl any ↦
            rw any (All-append Concerns _ _ requests (All-append Concerns downs _ hdowns decisions))
        | inr clear ↦ rw clear (All-append Concerns ups downs hups hdowns)
      ]
