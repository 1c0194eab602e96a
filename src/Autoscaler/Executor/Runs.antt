-- ===== src/Autoscaler/Executor/Runs.antt =====
-- Which deployments a run of decisions updates.
use waverless.Base.{
  ◌≡◌, ◌∙◌, refl, ap, sym, ◌⊎◌, inl, inr, Bool, true, false, Option, ◌&&◌, none, some, List, [],
  ◌∷◌, ◌++◌, String, ℤ, pos, ltb_ℤ, All, All-append, All-map, Option-cases, arith,
}
use mathlib.Core.List.{Memᴰ, append_assoc}
use waverless.Autoscaler.Types.{ScaleDecision}
use waverless.Autoscaler.World.{
  Log, Env, M, pure, after, ◌>>=◌, update_deployment, check_image, list_workers,
}
use waverless.Autoscaler.Orphan.{is_orphaned, fix_orphaned}
use waverless.Autoscaler.Executor.{
  image_block, apply_scale_up, scale_up, report_no_idle, without_idle, start_drain, scale_down,
  ExecError, execute_one, execute_decisions, unhealthy_endpoint, find_idle, execute_confirmed,
  revert_scale_down,
}

-- The deployment updates of a log: each endpoint with the replicas that were set.
unfoldable pub deployments : {F : Type 0} → Log F → List (String × ℤ)
deployments [] = []
deployments (update_deployment name n ∷ log) = (name, n) ∷ deployments log
deployments (c ∷ log) = deployments log

-- The decision is an approved scale-up.
abbrev pub is_growing : {F : Type 0} → ScaleDecision F → Bool
is_growing d = d.approved && ltb_ℤ (pos 0) d.scale_amount

module _ {F : Type 0} (env : Env F) (d : ScaleDecision F) where
  image_block_quiet : (log : Log F) → deployments (image_block env d log).1 ≡ deployments log
  unfolding image_block deployments
  image_block_quiet log = ground arith

  apply_scale_up_once :
      (log : Log F)
      → deployments (apply_scale_up env d log).1
        ≡ (d.endpoint, d.desired_replicas) ∷ deployments log
  unfolding apply_scale_up deployments
  apply_scale_up_once log = ground arith

  is_orphaned_quiet : (log : Log F) → deployments (is_orphaned env d log).1 ≡ deployments log
  unfolding is_orphaned deployments
  is_orphaned_quiet log = ground arith

  fix_orphaned_quiet : (log : Log F) → deployments (fix_orphaned env d log).1 ≡ deployments log
  unfolding fix_orphaned deployments
  fix_orphaned_quiet log = ground arith

  report_no_idle_quiet : (log : Log F) → deployments (report_no_idle env d log).1 ≡ deployments log
  unfolding report_no_idle deployments
  report_no_idle_quiet log = ground arith

  start_drain_quiet :
      (pod : String) (log : Log F) → deployments (start_drain env d pod log).1 ≡ deployments log
  unfolding start_drain deployments
  start_drain_quiet pod log = ground arith

  pub revert_quiet :
      (pod : String) (log : Log F)
      → deployments (revert_scale_down env d pod log).1 ≡ deployments log
  unfolding revert_scale_down deployments
  revert_quiet pod log = ground arith

  execute_confirmed_once :
      (pod : String) (log : Log F)
      → deployments (execute_confirmed env d pod log).1
        ≡ (d.endpoint, d.desired_replicas) ∷ deployments log
  unfolding execute_confirmed deployments
  execute_confirmed_once pod log = ground arith

module _ {F : Type 0} where
  -- An action that goes on after another one, if this has a result, updates no deployment of its own.
  after_quiet :
      {A B : Type 0} (f : A → M F B) (s : Option A × Log F)
      → ((a : A) (log : Log F) → deployments (f a log).1 ≡ deployments log)
      → deployments (after f s).1 ≡ deployments s.1
  after_quiet f (none, log) quiet = refl
  after_quiet f (some a, log) quiet = quiet a log

-- What the check of the image says; a check that fails says nothing against it.
abbrev pub answer_blocks : Option (Bool × String) → Bool
answer_blocks none = false
answer_blocks (some (is_blocked, reason)) = is_blocked

module _ {F : Type 0} (env : Env F) (d : ScaleDecision F) where
  decide_orphan_quiet :
      (orphaned : Bool) (log : Log F)
      → deployments
          ((elim orphaned as (λ x. M F (Option ExecError)) [
            | true ↦ fix_orphaned env d >>= λ _. pure none
            | false ↦ report_no_idle env d
          ])
            log).1
        ≡ deployments log
  decide_orphan_quiet true log =
      after_quiet (λ _. pure none) (fix_orphaned env d log) (λ a l. refl)
      ∙ fix_orphaned_quiet env d log
  decide_orphan_quiet false log = report_no_idle_quiet env d log

  without_idle_quiet : (log : Log F) → deployments (without_idle env d log).1 ≡ deployments log
  unfolding without_idle
  without_idle_quiet log =
      after_quiet _ (is_orphaned env d log) decide_orphan_quiet ∙ is_orphaned_quiet env d log

  scale_down_quiet : (log : Log F) → deployments (scale_down env d log).1 ≡ deployments log
  unfolding scale_down deployments
  scale_down_quiet log =
      let log' = list_workers d.endpoint ∷ log in
      elim (Option-cases (env.workers_of log d.endpoint)) [
        | inl failed ↦ rw (failed, scale_down) refl
        | inr (ws, known) ↦ elim (Option-cases (find_idle none ws)) [
          | inl nobody ↦ rw (known, scale_down) (rw nobody (without_idle_quiet log'))
          | inr (w, found) ↦ rw (known, scale_down) (rw found (start_drain_quiet env d w.id log'))
        ]
      ]

  -- A scale-up goes one of two ways. Where there is an endpoint repository and its check of the image
  -- answers that the endpoint is blocked, the scale-up fails and updates no deployment; where there
  -- is none, or the check fails or answers that the endpoint is not blocked, it asks the provider once
  -- to update the deployment of the endpoint, to the replicas of the decision.
  pub scale_up-deployments :
      (log : Log F)
      → let is_shut = env.has_endpoint_repo && answer_blocks (env.image_blocked log d.endpoint) in
        ((is_shut ≡ true)
          × ((scale_up env d log).0 ≡ some (some unhealthy_endpoint))
          × (deployments (scale_up env d log).1 ≡ deployments log))
        ⊎ ((is_shut ≡ false)
            × (deployments (scale_up env d log).1
                ≡ (d.endpoint, d.desired_replicas) ∷ deployments log))
  unfolding scale_up image_block deployments
  scale_up-deployments log = ground (
    arith,
    apply_scale_up_once env d log,
    apply_scale_up_once env d (check_image d.endpoint ∷ log),
  )

  -- What one decision adds to the deployment updates: nothing, or the one that it names.
  execute_one_cases :
      (log : Log F)
      → (deployments (execute_one env d log).1 ≡ deployments log)
        ⊎ ((is_growing d ≡ true)
            × (deployments (execute_one env d log).1
                ≡ (d.endpoint, d.desired_replicas) ∷ deployments log))
  unfolding execute_one deployments
  execute_one_cases log =
      let grown : deployments (after (λ _. pure tt) (scale_up env d log)).1
          ≡ deployments (scale_up env d log).1 =
        after_quiet (λ _. pure tt) (scale_up env d log) (λ a l. refl) in
      let shrunk : deployments (after (λ _. pure tt) (scale_down env d log)).1 ≡ deployments log =
        after_quiet (λ _. pure tt) (scale_down env d log) (λ a l. refl) ∙ scale_down_quiet log in
      ground (arith, scale_up-deployments log, grown, shrunk)

module _ {F : Type 0} (env : Env F) where
  -- The update was named by an approved scale-up of the list.
  abbrev pub IsNamed : List (ScaleDecision F) → String × ℤ → Type 0
  IsNamed ds u =
      (d : ScaleDecision F) × Memᴰ d ds
      × (is_growing d ≡ true)
      × (u ≡ (d.endpoint, d.desired_replicas))

  -- What is added after an action that may have panicked.
  after-IsNamed :
      {A B : Type 0} (ds : List (ScaleDecision F)) (f : A → M F B) (s : Option A × Log F)
      → ((a : A) (log : Log F)
          → (added : List (String × ℤ)) × (deployments (f a log).1 ≡ added ++ deployments log)
            × All (IsNamed ds) added)
      → (added : List (String × ℤ)) × (deployments (after f s).1 ≡ added ++ deployments s.1)
        × All (IsNamed ds) added
  after-IsNamed ds f (none, log) rest = ([], refl, tt)
  after-IsNamed ds f (some a, log) rest = rest a log

  -- The deployments that a run of decisions updates are those of approved scale-ups of the list, at
  -- the replicas that these name. A blocked decision updates none, and a scale-down leaves the
  -- update to the background task.
  pub execute_decisions-IsNamed :
      (ds : List (ScaleDecision F)) (log : Log F)
      → (added : List (String × ℤ)) × (deployments (execute_decisions env ds log).1
          ≡ added ++ deployments log)
        × All (IsNamed ds) added
  unfolding execute_decisions
  execute_decisions-IsNamed [] log = ([], refl, tt)
  execute_decisions-IsNamed (d ∷ ds) log =
      let (later, split, named) =
        after-IsNamed ds (λ _. execute_decisions env ds) (execute_one env d log)
          (λ u l. execute_decisions-IsNamed ds l) in
      let widened =
        All-map (IsNamed ds) (IsNamed (d ∷ ds)) later (λ u n. (n.0, Memᴰ.tail n.1, n.2, n.3))
          named in
      elim (execute_one_cases env d log) [
        | inl same ↦ (later, split ∙ ap (λ us. later ++ us) same, widened)
        | inr (grows, one) ↦ (
          later ++ (d.endpoint, d.desired_replicas) ∷ [],
          split
              ∙ ap (λ us. later ++ us) one
              ∙ sym (append_assoc later ((d.endpoint, d.desired_replicas) ∷ []) (deployments log)),
          All-append (IsNamed (d ∷ ds)) later ((d.endpoint, d.desired_replicas) ∷ []) widened
              ((d, Memᴰ.head refl, grows, refl), tt),
        )
      ]
