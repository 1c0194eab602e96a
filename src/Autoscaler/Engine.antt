-- ===== src/Autoscaler/Engine.antt =====
-- `MakeDecisions`, `identifyScaleUp` and `identifyScaleDown` of
-- pkg/autoscaler/decision_engine.go.
pub mod Passes
pub mod Names
use waverless.Base.{
  Bool, true, false, Option, none, some, List, [], ◌∷◌, ◌++◌, select, gather, if◌then◌else◌,
}
use waverless.Base.Sort.{sort}
use waverless.Autoscaler.Types.{EndpointConfig, Resources, ScaleDecision, DecisionEngine}
use waverless.Autoscaler.ScaleUp.{should_scale_up}
use waverless.Autoscaler.ScaleDown.{should_scale_down}
use waverless.Autoscaler.Fair.{more_urgent, fair_allocation}
use waverless.Autoscaler.Preempt.{Preemption, consider_preemption}

module _ {F : Type 0} where
  unfoldable pub filter_blocked : List (ScaleDecision F) → List (ScaleDecision F)
  filter_blocked ds = select (λ d. d.blocked) ds

  module _ (e : DecisionEngine F) where
    -- Each endpoint is weighed against the same pool; the fair allocation then draws on it.
    unfoldable pub identify_scale_up :
        List EndpointConfig → Resources F → List (ScaleDecision F) × Resources F
    identify_scale_up endpoints available =
        fair_allocation e
          (sort more_urgent (gather (λ ep. should_scale_up e ep available) endpoints)) available

    unfoldable pub identify_scale_down : List EndpointConfig → List (ScaleDecision F)
    identify_scale_down endpoints = gather (should_scale_down e) endpoints

    abbrev pub has_any : List (ScaleDecision F) → Bool
    has_any [] = false
    has_any (d ∷ ds) = true

    -- The decisions, in the order of the source: scale-ups as preemption leaves them, scale-downs,
    -- preemptions. With them the endpoints and the pool as the pass leaves them.
    unfoldable pub make_decisions :
        List EndpointConfig → Resources F → List (ScaleDecision F) × Resources F
    unfolding filter_blocked identify_scale_up identify_scale_down
    make_decisions endpoints available =
        let (ups, pool) = identify_scale_up endpoints available in
        let downs = identify_scale_down endpoints in
        let p = consider_preemption e ups endpoints pool in
        if has_any (filter_blocked ups)
        then (p.requests ++ (downs ++ p.decisions), p.pool)
        else (ups ++ downs, pool)
