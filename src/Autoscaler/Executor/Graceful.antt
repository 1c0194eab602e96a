-- ===== src/Autoscaler/Executor/Graceful.antt =====
-- How the background task of a scale-down ends.
use mathlib.Core.Path.{subst}
use waverless.Base.{
  ℕ, zero, suc, ◌<◌, ◌≡◌, ◌∙◌, ap, sym, ◌⊎◌, inl, inr, refl, Bool, true, false, Option, none, some,
  Time, [], ◌∷◌, ◌++◌, String, ℤ, pos, negsuc, ◌<ℤ◌, ◌≤ℤ◌, Option-cases, Bool-cases, if◌then◌else◌,
  arith,
}
use waverless.Autoscaler.Types.{ScaleDecision}
use waverless.Autoscaler.World.{
  Worker, Event, Action, Log, Env, M, pure, ◌>>◌, confirmed_idle, get_worker, get_tasks,
  get_endpoint, update_endpoint, update_deployment, create_event, set_deletion_cost,
  scale_down_aborted, running_tasks_detected,
}
use waverless.Autoscaler.Recorder.{save, scaled_down, write_metadata}
use waverless.Autoscaler.Executor.{
  Tick, retry, busy, idle, read_tick, graceful_scale_down, execute_confirmed, revert_scale_down,
}
use waverless.Autoscaler.Executor.Runs.{deployments}

module _ {F : Type 0} (env : Env F) (d : ScaleDecision F) (pod : String) where
  -- The log after a tick has read the worker and its tasks.
  abbrev pub ticked : Log F → Log F
  ticked log = get_tasks pod ∷ get_worker pod ∷ log

  -- A tick at `log` finds the worker, but cannot read its tasks.
  pub record Unread (log : Log F) : Type 0 where
    pub worker : Worker
    pub exists : env.worker_of log pod ≡ some worker
    pub unread : env.tasks_of (get_worker pod ∷ log) pod ≡ none

  -- A tick at `log` finds the worker with a task in the table or a job of its own.
  pub record Works (log : Log F) : Type 0 where
    pub worker : Worker
    pub tasks : ℕ
    pub exists : env.worker_of log pod ≡ some worker
    pub has_read : env.tasks_of (get_worker pod ∷ log) pod ≡ some tasks
    pub works : (0 < tasks) ⊎ (pos 0 <ℤ worker.current_jobs)

  -- A tick at `log` finds the worker with neither.
  pub record Rests (log : Log F) : Type 0 where
    pub worker : Worker
    pub exists : env.worker_of log pod ≡ some worker
    pub has_read : env.tasks_of (get_worker pod ∷ log) pod ≡ some 0
    pub rests : worker.current_jobs ≤ℤ pos 0

  -- `n` ticks in a row could not read the tasks and lead from one log to another.
  abbrev pub Retries : ℕ → Log F → Log F → Type 0
  Retries zero log log' = log' ≡ log
  Retries (suc n) log log' = Unread log × Retries n (ticked log) log'

  -- The log after the deletion cost of the pod was set, where there is a Kubernetes provider.
  abbrev pub priced : ℤ → Log F → Log F
  priced cost log = if env.has_k8s then set_deletion_cost pod cost ∷ log else log

  -- The scale-down is taken back: the deletion cost is 0 again, and one event says so.
  abbrev pub IsReverted : Log F → Log F → Type 0
  IsReverted log end =
      end
      ≡ create_event (record {
        endpoint = d.endpoint;
        timestamp = env.now (priced (pos 0) log);
        action = scale_down_aborted;
        from_replicas = d.current_replicas;
        to_replicas = d.current_replicas;
        reason = running_tasks_detected pod;
        queue_length = d.queue_length;
        priority = d.priority;
        preempted_from = [];
      })
        ∷ priced (pos 0) log

  -- The scale-down is carried out: the pod is made the first to be deleted, then the deployment is
  -- updated to the replicas of the decision, and no deployment after that.
  abbrev pub IsCarriedOut : Log F → Log F → Type 0
  IsCarriedOut log end =
      (rest : Log F) × (end
        ≡ rest ++ update_deployment d.endpoint d.desired_replicas ∷ priced (negsuc 999) log)
      × (deployments rest ≡ [])

  -- The ways in which the task ends, for `ticks` ticks before the timeout.
  pub data Ending (ticks : ℕ) (log end : Log F) : Type 0 where
    gone :
        (n : ℕ) (at_log : Log F)
        → n < ticks
        → Retries n log at_log
        → env.worker_of at_log pod ≡ none
        → end ≡ get_worker pod ∷ at_log
        → Ending ticks log end
    reverted :
        (n : ℕ) (at_log : Log F)
        → n < ticks
        → Retries n log at_log
        → Works at_log
        → IsReverted (ticked at_log) end
        → Ending ticks log end
    confirmed :
        (n : ℕ) (at_log : Log F)
        → n < ticks
        → Retries n log at_log
        → Rests at_log
        → IsCarriedOut (ticked at_log) end
        → Ending ticks log end
    timed_out :
        (at_log : Log F) → Retries ticks log at_log → IsCarriedOut at_log end → Ending ticks log end

  -- One more retry in front.
  Ending-suc :
      (ticks : ℕ) (log end : Log F)
      → Unread log
      → Ending ticks (ticked log) end
      → Ending (suc ticks) log end
  Ending-suc ticks log end r (gone n l lt h w e) = gone (suc n) l (omega (arith, lt)) (r, h) w e
  Ending-suc ticks log end r (reverted n l lt h b e) =
      reverted (suc n) l (omega (arith, lt)) (r, h) b e
  Ending-suc ticks log end r (confirmed n l lt h i e) =
      confirmed (suc n) l (omega (arith, lt)) (r, h) i e
  Ending-suc ticks log end r (timed_out l h e) = timed_out l (r, h) e

  revert-IsReverted : (log : Log F) → IsReverted log (revert_scale_down env d pod log).1
  unfolding revert_scale_down
  revert-IsReverted log = elim (Bool-cases env.has_k8s) [
    | inl on ↦ rw on refl
    | inr off ↦ rw off refl
  ]

  -- The log has grown by calls that update no deployment.
  abbrev GrewQuietly : Log F → Log F → Type 0
  GrewQuietly log end = (rest : Log F) × (end ≡ rest ++ log) × (deployments rest ≡ [])

  abbrev confirmed_event : Time → Event
  confirmed_event now = record {
    endpoint = d.endpoint;
    timestamp = now;
    action = Action.scale_down;
    from_replicas = d.current_replicas;
    to_replicas = d.desired_replicas;
    reason = confirmed_idle d.reason pod;
    queue_length = d.queue_length;
    priority = d.priority;
    preempted_from = [];
  }

  -- The end of a scale-down that is carried out, for what was read of the metadata.
  abbrev record_done : M F (Unit {0})
  record_done =
      write_metadata env d (scaled_down env d)
      >> save env d Action.scale_down d.current_replicas d.desired_replicas
          (confirmed_idle d.reason pod) []

  record_done-GrewQuietly : (log : Log F) → GrewQuietly log (record_done log).1
  unfolding deployments
  record_done-GrewQuietly log =
      let log' = get_endpoint d.endpoint ∷ log in
      elim (Option-cases (env.endpoint_of log d.endpoint)) [
        | inl failed ↦ rw failed (
          create_event (confirmed_event (env.now log')) ∷ get_endpoint d.endpoint ∷ [],
          refl,
          refl,
        )
        | inr (found, e) ↦ elim (Option-cases found) [
          | inl nil ↦
              let crashed : env.endpoint_of log d.endpoint ≡ some none = e ∙ ap some nil in
              rw crashed (get_endpoint d.endpoint ∷ [], refl, refl)
          | inr (meta, there) ↦
              let known : env.endpoint_of log d.endpoint ≡ some (some meta) = e ∙ ap some there in
              let written = update_endpoint (scaled_down env d (env.now log') meta) in
              rw known (
                create_event (confirmed_event (env.now (written ∷ log')))
                    ∷ written
                    ∷ get_endpoint d.endpoint
                    ∷ [],
                refl,
                refl,
              )
        ]
      ]

  -- A deployment that cannot be updated ends the task.
  update-GrewQuietly :
      (updated : Bool) (log : Log F)
      → GrewQuietly log
          ((elim updated as (λ b. M F (Unit {0})) [ false ↦ pure tt | true ↦ record_done ]) log).1
  unfolding deployments
  update-GrewQuietly false log = ([], refl, refl)
  update-GrewQuietly true log = record_done-GrewQuietly log

  execute-IsCarriedOut : (log : Log F) → IsCarriedOut log (execute_confirmed env d pod log).1
  unfolding execute_confirmed
  execute-IsCarriedOut log = elim (Bool-cases env.has_k8s) [
    | inl on ↦ rw on (update-GrewQuietly _ _)
    | inr off ↦ rw off (update-GrewQuietly _ _)
  ]

  at_tick :
      (w : Worker) {read : Option ℕ} {tasks : ℕ} {state : Tick}
      → read ≡ some tasks
      → read_tick w (some tasks) ≡ state
      → read_tick w read ≡ state
  at_tick w known e = rw known e

  read_tick-cases :
      (w : Worker) (tasks : ℕ)
      → ((read_tick w (some tasks) ≡ busy) × ((0 < tasks) ⊎ (pos 0 <ℤ w.current_jobs)))
        ⊎ ((read_tick w (some tasks) ≡ idle) × (tasks ≡ 0) × (w.current_jobs ≤ℤ pos 0))
  unfolding read_tick
  read_tick-cases w tasks = ground arith

  -- What a tick at `log` does with what it found, before `ticks` more.
  abbrev respond : ℕ → Tick → M F (Unit {0})
  respond ticks retry = graceful_scale_down env ticks d pod
  respond ticks busy = revert_scale_down env d pod
  respond ticks idle = execute_confirmed env d pod

  abbrev EndsBy : ℕ → Log F → Tick → Type 0
  EndsBy ticks log state = Ending (suc ticks) log (respond ticks state (ticked log)).1

  pub graceful_scale_down-Ending :
      (ticks : ℕ) (log : Log F) → Ending ticks log (graceful_scale_down env ticks d pod log).1
  unfolding graceful_scale_down
  graceful_scale_down-Ending zero log = timed_out log refl (execute-IsCarriedOut log)
  graceful_scale_down-Ending (suc ticks) log = elim (Option-cases (env.worker_of log pod)) [
    | inl absent ↦ rw (absent, graceful_scale_down) (gone 0 log (omega arith) refl absent refl)
    | inr (w, present) ↦ elim (Option-cases (env.tasks_of (get_worker pod ∷ log) pod)) [
      | inl unread ↦
          rw (present, graceful_scale_down)
            (rw unread (
              unfold read_tick in
              Ending-suc ticks log _ (record { worker = w; exists = present; unread = unread })
                (graceful_scale_down-Ending ticks (ticked log))))
      | inr (tasks, known) ↦ elim (read_tick-cases w tasks) [
        | inl (working, why) ↦
            rw (present, graceful_scale_down)
              (subst (EndsBy ticks log) (sym (at_tick w known working)) (
                reverted 0 log (omega arith) refl
                  (record {
                    worker = w;
                    tasks = tasks;
                    exists = present;
                    has_read = known;
                    works = why;
                  })
                  (revert-IsReverted (ticked log))))
        | inr (free, nothing, rests) ↦
            rw (present, graceful_scale_down)
              (subst (EndsBy ticks log) (sym (at_tick w known free)) (
                confirmed 0 log (omega arith) refl
                  (record {
                    worker = w;
                    exists = present;
                    has_read = known ∙ ap some nothing;
                    rests = rests;
                  })
                  (execute-IsCarriedOut (ticked log))))
      ]
    ]
  ]

  -- Reading updates no deployment.
  deployments-Retries :
      (n : ℕ) (log log' : Log F) → Retries n log log' → deployments log' ≡ deployments log
  unfolding deployments
  deployments-Retries zero log log' h = rw h
  deployments-Retries (suc n) log log' h = deployments-Retries n (ticked log) log' h.1

  reverted_quiet : (log : Log F) → deployments (priced (pos 0) log) ≡ deployments log
  unfolding deployments
  reverted_quiet log = ground arith

  -- A worker that every tick finds gone or busy keeps its pod: no deployment is updated, as long as
  -- there is a tick before the timeout.
  pub graceful_scale_down-keeps :
      (ticks : ℕ) (log : Log F)
      → ((l : Log F) → ¬ Unread l)
      → ((l : Log F) → ¬ Rests l)
      → deployments (graceful_scale_down env (suc ticks) d pod log).1 ≡ deployments log
  graceful_scale_down-keeps ticks log sure never =
      keeps (graceful_scale_down-Ending (suc ticks) log)
    where
      keeps : {end : Log F} → Ending (suc ticks) log end → deployments end ≡ deployments log
      keeps (gone n l lt h w e) = rw e (unfold deployments in deployments-Retries n log l h)
      keeps (reverted n l lt h b e) =
          rw e (unfold deployments in reverted_quiet (ticked l) ∙ deployments-Retries n log l h)
      keeps (confirmed n l lt h i e) = absurd (never l i)
      keeps (timed_out l h e) = absurd (sure log h.0)
