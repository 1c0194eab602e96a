-- ===== src/Autoscaler/Executor.antt =====
-- pkg/autoscaler/executor.go. A method is an action on the log of calls, and an error is a value.
pub mod Idle
pub mod Graceful
pub mod Runs
pub mod Abandoned
mod Tests
use waverless.Base.{
  ℕ, zero, suc, ◌*◌, Bool, true, false, not, ◌&&◌, ◌||◌, Option, none, some, List, [], ◌∷◌, String,
  str_eq, ℤ, pos, negsuc, ltb, ltb_ℤ, leb_ℤ, eqb_ℤ, if◌then◌else◌, Time, is_zero, since,
}
use waverless.Autoscaler.Types.{ScaleDecision}
use waverless.Autoscaler.World.{
  Worker, Metadata, Action, EventText, Event, Call, Log, Env, M, pure, ◌>>=◌, ◌>>◌, ask, send,
  check_image, update_deployment, get_endpoint, update_endpoint, create_event, list_workers,
  get_worker, get_tasks, mark_draining, set_deletion_cost, get_app, latest_event, spawn_graceful,
  blocked, scale_up_blocked_image_failure, preempted, scale_down_aborted, scale_down_blocked,
  orphan_fixed, reason_of, unhealthy_image, confirmed_idle, running_tasks_detected,
  no_idle_worker_available, deployment_not_found,
}
use waverless.Autoscaler.Recorder.{clock, save, scaled_up, scaled_down, write_metadata, set_cost}
use waverless.Autoscaler.Orphan.{is_orphaned, fix_orphaned}

pub data ExecError : Type 0 where
  unhealthy_endpoint update_failed workers_unknown no_idle_worker : ExecError

-- The body of the loop of `scaleDown`: the idle worker with the earliest task time that is set.
unfoldable pub choose : Option Worker → Worker → Option Worker
choose best w =
    if eqb_ℤ w.current_jobs (pos 0)
    then elim best [
      | none ↦ some w
      | some b ↦
          if not (is_zero w.last_task_time)
            && (is_zero b.last_task_time || ltb w.last_task_time b.last_task_time)
          then some w
          else some b
    ]
    else best

unfoldable pub find_idle : Option Worker → List Worker → Option Worker
unfolding choose
find_idle best [] = best
find_idle best (w ∷ ws) = find_idle (choose best w) ws

-- What a tick of `gracefulScaleDown` finds of a worker that still exists.
pub data Tick : Type 0 where
  retry busy idle : Tick

unfoldable pub read_tick : Worker → Option ℕ → Tick
read_tick w none = retry
read_tick w (some tasks) = if ltb 0 tasks || ltb_ℤ (pos 0) w.current_jobs then busy else idle

module _ {F : Type 0} (env : Env F) where
  -- `IsBlockedDueToImageFailure`, where a failed check blocks nothing.
  unfoldable pub image_block : ScaleDecision F → M F (Option String)
  image_block d =
      if env.has_endpoint_repo
      then (do
        answer ← ask (check_image d.endpoint) (λ log. env.image_blocked log d.endpoint)
        pure (elim answer [
          | none ↦ none
          | some (is_blocked, reason) ↦ if is_blocked then some reason else none
        ]))
      else pure none

  unfoldable pub has_names : List String → Bool
  has_names [] = false
  has_names (n ∷ ns) = true

  -- `scaleUp` behind the check of the image.
  unfoldable pub apply_scale_up : ScaleDecision F → M F (Option ExecError)
  unfolding has_names
  apply_scale_up d = do
    updated ←
        ask (update_deployment d.endpoint d.desired_replicas)
          (λ log. env.deployment_updated log d.endpoint d.desired_replicas)
    elim updated [
      | false ↦ pure (some update_failed)
      | true ↦ do
        write_metadata env d (scaled_up env d)
        save env d (if has_names d.preempted_from then preempted else Action.scale_up)
            d.current_replicas d.desired_replicas (reason_of d.reason) d.preempted_from
        pure none
    ]

  unfoldable pub scale_up : ScaleDecision F → M F (Option ExecError)
  unfolding image_block apply_scale_up
  scale_up d = do
    refusal ← image_block d
    elim refusal [
      | some reason ↦ do
        save env d scale_up_blocked_image_failure d.current_replicas d.desired_replicas
            (unhealthy_image reason) []
        pure (some unhealthy_endpoint)
      | none ↦ apply_scale_up d
    ]

  -- Steps 4 to 6 of `scaleDown`: mark the pod, and leave the rest to the background task.
  unfoldable pub start_drain : ScaleDecision F → String → M F (Option ExecError)
  start_drain d pod = do
    if env.has_k8s then send (mark_draining pod) else pure tt
    set_cost env pod (negsuc 999)
    send (spawn_graceful d pod)
    pure none

  abbrev is_scale_down_blocked : Action → Bool
  is_scale_down_blocked scale_down_blocked = true
  is_scale_down_blocked _ = false

  -- A blocked scale-down is recorded once in five minutes.
  abbrev is_due : Option Event → Time → Bool
  is_due none now = true
  is_due (some recent) now =
      not (is_scale_down_blocked recent.action)
      || ltb_ℤ (pos (300 * 1000000000)) (since now recent.timestamp)

  unfoldable pub report_no_idle : ScaleDecision F → M F (Option ExecError)
  report_no_idle d = do
    recent ← ask (latest_event d.endpoint) (λ log. env.last_event_of log d.endpoint)
    now ← clock env
    elim (is_due recent now) [
      | false ↦ pure (some no_idle_worker)
      | true ↦ do
        save env d scale_down_blocked d.current_replicas d.desired_replicas no_idle_worker_available
            []
        pure (some no_idle_worker)
    ]

  -- Step 3 of `scaleDown`, where no worker is idle.
  unfoldable pub without_idle : ScaleDecision F → M F (Option ExecError)
  unfolding is_orphaned fix_orphaned report_no_idle
  without_idle d = do
    orphaned ← is_orphaned env d
    elim orphaned [ true ↦ do fix_orphaned env d; pure none | false ↦ report_no_idle d ]

  unfoldable pub scale_down : ScaleDecision F → M F (Option ExecError)
  scale_down d = do
    workers ← ask (list_workers d.endpoint) (λ log. env.workers_of log d.endpoint)
    elim workers [
      | none ↦ pure (some workers_unknown)
      | some ws ↦ elim (find_idle none ws) [ none ↦ without_idle d | some w ↦ start_drain d w.id ]
    ]

  unfoldable pub execute_confirmed : ScaleDecision F → String → M F (Unit {0})
  execute_confirmed d pod = do
    set_cost env pod (negsuc 999)
    updated ←
        ask (update_deployment d.endpoint d.desired_replicas)
          (λ log. env.deployment_updated log d.endpoint d.desired_replicas)
    elim updated [
      | false ↦ pure tt
      | true ↦ do
        write_metadata env d (scaled_down env d)
        save env d Action.scale_down d.current_replicas d.desired_replicas
            (confirmed_idle d.reason pod) []
    ]

  unfoldable pub revert_scale_down : ScaleDecision F → String → M F (Unit {0})
  revert_scale_down d pod = do
    set_cost env pod (pos 0)
    save env d scale_down_aborted d.current_replicas d.current_replicas (running_tasks_detected pod)
        []

  -- The loop of `gracefulScaleDown`, over the ticks that come before the timeout.
  unfoldable pub graceful_scale_down : ℕ → ScaleDecision F → String → M F (Unit {0})
  unfolding execute_confirmed revert_scale_down read_tick
  graceful_scale_down zero d pod = execute_confirmed d pod
  graceful_scale_down (suc ticks) d pod = do
    found ← ask (get_worker pod) (λ log. env.worker_of log pod)
    elim found [
      | none ↦ pure tt
      | some w ↦ do
        tasks ← ask (get_tasks pod) (λ log. env.tasks_of log pod)
        elim (read_tick w tasks) [
          | retry ↦ graceful_scale_down ticks d pod
          | busy ↦ revert_scale_down d pod
          | idle ↦ execute_confirmed d pod
        ]
    ]

  unfoldable pub execute_one : ScaleDecision F → M F (Unit {0})
  unfolding scale_up scale_down
  execute_one d =
      if not d.approved
      then save env d blocked d.current_replicas d.desired_replicas (reason_of d.blocked_reason) []
      else if ltb_ℤ (pos 0) d.scale_amount
      then (do error ← scale_up d; pure tt)
      else if ltb_ℤ d.scale_amount (pos 0)
      then (do error ← scale_down d; pure tt)
      else pure tt

  -- `ExecuteDecisions`: an error of one decision does not stop the next.
  unfoldable pub execute_decisions : List (ScaleDecision F) → M F (Unit {0})
  unfolding execute_one
  execute_decisions [] = pure tt
  execute_decisions (d ∷ ds) = do execute_one d; execute_decisions ds
