-- ===== src/Autoscaler/Cycle/Overrides.antt =====
-- pkg/autoscaler/manager.go: whose deployments a run updates.
use mathlib.Core.List.{Memᴰ, append_assoc}
use mathlib.Core.Path.{subst}
use waverless.Base.{
  ◌≡◌, refl, ap, sym, ◌∙◌, Bool, true, false, not, ◌||◌, Option, none, some, List, [], ◌∷◌, ◌++◌,
  String, ℤ, leb_ℤ, All, All-append, All-map, All-mem, select, Bool-cases, inl, inr, if◌then◌else◌,
  arith, Time,
}
use waverless.Autoscaler.Types.{EndpointConfig, ScaleDecision, DecisionEngine}
use waverless.Autoscaler.World.{Worker, Log, Env, M, pure, after, ◌>>=◌, list_workers}
use waverless.Autoscaler.Executor.{execute_decisions}
use waverless.Autoscaler.Executor.Runs.{deployments, IsNamed, execute_decisions-IsNamed}
use waverless.Autoscaler.Engine.{make_decisions}
use waverless.Autoscaler.Engine.Names.{make_decisions-Concerns}
use waverless.Autoscaler.Calculator.{
  ResourceCalculator, ClusterResources, calculate_cluster_resources,
}
use waverless.Autoscaler.Control.{Manager, should_process_endpoint}
use waverless.Autoscaler.Cycle.{
  not_running, any_draining, first_idle, max_resources, idle_decision, shrink_idle, check_workers,
  check_endpoint, check_and_scale_down_idle_workers, enabled_endpoints, carry_out, decide,
  run_enabled, run_once, is_target, carry_out_targets, decide_targets, run_filtered,
  run_targets_locked, run_for_targets,
}

module _ {F : Type 0} where
  -- What a log adds to the deployment updates is about names of which `P` holds.
  abbrev pub Only : (String → Type 0) → Log F → Log F → Type 0
  Only P before later =
      (added : List (String × ℤ)) × (deployments later ≡ added ++ deployments before)
      × All (λ u. P u.0) added

  Only-refl : (P : String → Type 0) (log : Log F) → Only P log log
  Only-refl P log = ([], refl, tt)

  Only-trans : (P : String → Type 0) (a b c : Log F) → Only P a b → Only P b c → Only P a c
  Only-trans P a b c (first, e, h) (second, f, k) = (
    second ++ first,
    f ∙ ap (λ l. second ++ l) e ∙ sym (append_assoc second first (deployments a)),
    All-append (λ u. P u.0) second first k h,
  )

  -- An action that goes on after another one, if this has a result.
  after-Only :
      {A B : Type 0} (P : String → Type 0) (before : Log F) (f : A → M F B) (s : Option A × Log F)
      → Only P before s.1
      → ((a : A) (log : Log F) → Only P log (f a log).1)
      → Only P before (after f s).1
  after-Only P before f (none, log) first rest = first
  after-Only P before f (some a, log) first rest =
      Only-trans P before log (f a log).1 first (rest a log)

  -- Both branches of a test.
  branch-Only :
      {A : Type 0} (P : String → Type 0) (b : Bool) (log : Log F) (x y : M F A)
      → Only P log (x log).1
      → Only P log (y log).1
      → Only P log ((if b then x else y) log).1
  branch-Only P true log x y hx hy = hx
  branch-Only P false log x y hx hy = hy

module _ {F : Type 0} (c : ResourceCalculator F) (env : Env F) (P : String → Type 0) where
  execute-Only :
      (ds : List (ScaleDecision F)) (log : Log F)
      → All (λ d. P d.endpoint) ds
      → Only P log (execute_decisions env ds log).1
  execute-Only ds log h =
      let (added, e, named) = execute_decisions-IsNamed env ds log in
      (
        added,
        e,
        All-map (IsNamed env ds) (λ u. P u.0) added
            (λ u n. subst P (sym (ap (λ v. v.0) n.3)) (All-mem (λ d. P d.endpoint) ds h n.1)) named,
      )

  shrink-Only :
      (now : Time) (ep : EndpointConfig) (w : Option Worker) (log : Log F)
      → P ep.name
      → Only P log (shrink_idle c env now ep w log).1
  shrink-Only now ep none log h = Only-refl P log
  shrink-Only now ep (some w) log h = execute-Only (idle_decision c now ep w ∷ []) log (h, tt)

  check_workers-Only :
      (ep : EndpointConfig) (ws : Option (List Worker)) (log : Log F)
      → P ep.name
      → Only P log (check_workers c env ep ws log).1
  check_workers-Only ep none log h = Only-refl P log
  check_workers-Only ep (some []) log h = Only-refl P log
  check_workers-Only ep (some (w ∷ ws)) log h =
      branch-Only P (leb_ℤ ep.replicas ep.min_replicas || any_draining (w ∷ ws)) log
        (λ log'. (some tt, log'))
        (λ log'. shrink_idle c env (env.now log') ep (first_idle (env.now log') ep (w ∷ ws)) log')
        (Only-refl P log)
        (shrink-Only (env.now log) ep (first_idle (env.now log) ep (w ∷ ws)) log h)

  check_idle-Only :
      (eps : List EndpointConfig) (log : Log F)
      → All (λ ep. P ep.name) eps
      → Only P log (check_and_scale_down_idle_workers c env eps log).1
  unfolding check_and_scale_down_idle_workers check_endpoint deployments
  check_idle-Only [] log h = Only-refl P log
  check_idle-Only (ep ∷ eps) log h =
      let listed = list_workers ep.name ∷ log in
      let workers = env.workers_of log ep.name in
      after-Only P log (λ _. check_and_scale_down_idle_workers c env eps)
        (check_workers c env ep workers listed) (check_workers-Only ep workers listed h.0)
        (λ u l. check_idle-Only eps l h.1)

  module _ (m : Manager) (e : DecisionEngine F) where
    carry_out-Only :
        (eps : List EndpointConfig) (ds : List (ScaleDecision F)) (log : Log F)
        → All (λ ep. P ep.name) eps
        → All (λ d. P d.endpoint) ds
        → Only P log (carry_out c env m e eps ds log).1
    carry_out-Only eps [] log h hd = Only-refl P log
    carry_out-Only eps (d ∷ ds) log h hd =
        after-Only P log (λ _. check_and_scale_down_idle_workers c env eps >>= λ _. pure none)
          (execute_decisions env (d ∷ ds) log) (execute-Only (d ∷ ds) log hd)
          (λ u l.
            after-Only P l (λ _. pure none) (check_and_scale_down_idle_workers c env eps l)
              (check_idle-Only eps l h) (λ u' l'. Only-refl P l'))

    decide-Only :
        (eps : List EndpointConfig) (cluster : Option (ClusterResources F)) (log : Log F)
        → All (λ ep. P ep.name) eps
        → Only P log (decide c env m e eps cluster log).1
    decide-Only eps none log h = Only-refl P log
    decide-Only eps (some cluster) log h =
        carry_out-Only eps (make_decisions e eps cluster.available).0 log h
          (make_decisions-Concerns e P eps cluster.available h)

    run_enabled-Only :
        (eps : List EndpointConfig) (log : Log F)
        → All (λ ep. P ep.name) eps
        → Only P log (run_enabled c env m e eps log).1
    run_enabled-Only [] log h = Only-refl P log
    run_enabled-Only (ep ∷ eps) log h =
        decide-Only (ep ∷ eps) (calculate_cluster_resources c (ep ∷ eps) (max_resources c m.config))
          log h

    targets-Only :
        (eps : List EndpointConfig) (cluster : Option (ClusterResources F)) (log : Log F)
        → All (λ ep. P ep.name) eps
        → Only P log (decide_targets c env m e eps cluster log).1
    targets-Only eps none log h = Only-refl P log
    targets-Only eps (some cluster) log h =
        decided (make_decisions e eps cluster.available).0
          (make_decisions-Concerns e P eps cluster.available h)
      where
        decided :
            (ds : List (ScaleDecision F))
            → All (λ d. P d.endpoint) ds
            → Only P log (carry_out_targets c env m e ds log).1
        decided [] hd = Only-refl P log
        decided (d ∷ ds) hd =
            after-Only P log (λ _. pure none) (execute_decisions env (d ∷ ds) log)
              (execute-Only (d ∷ ds) log hd) (λ u l. Only-refl P l)

    filtered-Only :
        (all eps : List EndpointConfig) (log : Log F)
        → All (λ ep. P ep.name) eps
        → Only P log (run_filtered c env m e all eps log).1
    filtered-Only all [] log h = Only-refl P log
    filtered-Only all (ep ∷ eps) log h =
        targets-Only (ep ∷ eps) (calculate_cluster_resources c all (max_resources c m.config)) log h

-- The name is that of a collected endpoint for which the autoscaler is on: by its override, or else
-- by the global switch.
abbrev pub IsOn : Manager → List EndpointConfig → String → Type 0
IsOn m eps name =
    (ep : EndpointConfig) × Memᴰ ep eps × (should_process_endpoint m ep ≡ true) × (ep.name ≡ name)

selected-IsOn :
    (m : Manager) (p : EndpointConfig → Bool)
    (on : (ep : EndpointConfig) → p ep ≡ true → should_process_endpoint m ep ≡ true)
    (all eps : List EndpointConfig)
    → ((ep : EndpointConfig) → Memᴰ ep eps → Memᴰ ep all)
    → All (λ ep. IsOn m all ep.name) (select p eps)
selected-IsOn m p on all [] sub = tt
selected-IsOn m p on all (ep ∷ eps) sub = elim (Bool-cases (p ep)) [
  | inl chosen ↦ rw chosen (
    (ep, sub ep (Memᴰ.head refl), on ep chosen, refl),
    selected-IsOn m p on all eps (λ x mem. sub x (Memᴰ.tail mem)),
  )
  | inr passed ↦ rw passed (selected-IsOn m p on all eps (λ x mem. sub x (Memᴰ.tail mem)))
]

module _ {F : Type 0} (c : ResourceCalculator F) (env : Env F) (m : Manager)
    (e : DecisionEngine F) where
  -- A run updates only deployments of endpoints for which the autoscaler is on, whatever the lock,
  -- the calculator, the provider and the repositories answer.
  pub run_once-Only :
      (acquired : Option Bool) (eps : List EndpointConfig) (log : Log F)
      → Only (IsOn m eps) log (run_once c env m e acquired (some eps) log).1
  unfolding run_once
  run_once-Only none eps log = Only-refl (IsOn m eps) log
  run_once-Only (some false) eps log = Only-refl (IsOn m eps) log
  run_once-Only (some true) eps log =
      run_enabled-Only c env (IsOn m eps) m e (enabled_endpoints c env m e eps) log
        (selected-IsOn m (should_process_endpoint m) (λ ep on. on) eps eps (λ ep mem. mem))

  locked-Only :
      (targets : List String) (acquired : Option Bool) (eps : List EndpointConfig) (log : Log F)
      → Only (IsOn m eps) log (run_targets_locked c env m e targets acquired (some eps) log).1
  locked-Only targets none eps log = Only-refl (IsOn m eps) log
  locked-Only targets (some false) eps log = Only-refl (IsOn m eps) log
  locked-Only targets (some true) eps log =
      filtered-Only c env (IsOn m eps) m e eps (select (is_target c env m e targets) eps) log (
        selected-IsOn m (is_target c env m e targets) (λ ep on. ground (arith, on)) eps eps
          (λ ep mem. mem))

  -- So does a run for some targets.
  pub run_for_targets-Only :
      (targets : List String) (acquired : Option Bool) (eps : List EndpointConfig) (log : Log F)
      → Only (IsOn m eps) log (run_for_targets c env m e targets acquired (some eps) log).1
  unfolding run_for_targets
  run_for_targets-Only [] acquired eps log = Only-refl (IsOn m eps) log
  run_for_targets-Only (t ∷ ts) acquired eps log =
      branch-Only (IsOn m eps) (not m.running) log (λ log'. (some (some not_running), log'))
        (run_targets_locked c env m e (t ∷ ts) acquired (some eps)) (Only-refl (IsOn m eps) log)
        (locked-Only (t ∷ ts) acquired eps log)
