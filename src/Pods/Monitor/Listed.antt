-- ===== src/Pods/Monitor/Listed.antt =====
-- pkg/deploy/k8s/worker_status_monitor.go against pkg/store/mysql/worker_repository.go: a failing
-- pod is among the workers that the releaser asks for.
use mathlib.Core.List.{Memᴰ}
use waverless.Base.{
  ◌≡◌, refl, ap, eq_iff, ◌∙◌, Bool, true, false, not, ◌&&◌, Option, none, some, List, [], ◌∷◌,
  String, str_eq, select, All, Bool-cases, inl, inr, if◌then◌else◌, arith, Time,
}
use text.Mathlib.TextPositions.{eq_refl}
use waverless.Store.{WorkerRow, Db, Fails, Query}
use waverless.Store.Workers.{
  find_row, is_offline, find_pod, with_failure, first_time, update_pod, update_worker_failure,
  get_workers_by_failure_type,
}
use waverless.Pods.Sanitizer.{
  WorkerFailureInfo, StatusSanitizer, image_pull, container_crash, resource_limit,
}
use waverless.Pods.Monitor.{
  PodInfo, failure_type_of, failure_of, is_failure_state, classify_k8s_failure, detect_failure,
  or_empty_object, sanitized_message, store_failure,
}

-- The types that the reasons of Kubernetes stand for.
abbrev pub known_reasons : List (String × String)
known_reasons =
    ("ImagePullBackOff", image_pull)
    ∷ ("ErrImagePull", image_pull)
    ∷ ("InvalidImageName", image_pull)
    ∷ ("ImageInspectError", image_pull)
    ∷ ("CrashLoopBackOff", container_crash)
    ∷ ("Error", container_crash)
    ∷ ("OOMKilled", container_crash)
    ∷ ("ContainerCannotRun", container_crash)
    ∷ ("CreateContainerError", container_crash)
    ∷ ("OutOfMemory", resource_limit)
    ∷ ("OutOfCpu", resource_limit)
    ∷ ("Unschedulable", resource_limit)
    ∷ ("FailedScheduling", resource_limit)
    ∷ []

-- Each of these reasons is classified as its type, whatever the message says.
classify_k8s_failure-known :
    (message : String) → All (λ known. classify_k8s_failure known.0 message ≡ known.1) known_reasons
unfolding classify_k8s_failure
classify_k8s_failure-known message = (
  refl,
  (
    refl,
    (refl, (refl, (refl, (refl, (refl, (refl, (refl, (refl, (refl, (refl, (refl, tt))))))))))),
  ),
)

some_eq : {A : Type 0} {x y : A} → some x ≡ some y → x ≡ y
some_eq e = ground (arith, e)

-- A worker of the pod with the failure, in a list.
abbrev pub Listed : (pod kind reason : String) → List WorkerRow → Type 0
Listed pod kind reason ws =
    (w : WorkerRow) × Memᴰ w ws
    × (w.pod_name ≡ pod)
    × (w.failure_type ≡ kind)
    × (w.failure_reason ≡ reason)

module _ (pod kind reason details : String) where
  abbrev failing : WorkerRow → Bool
  failing w = str_eq w.failure_type kind && not (is_offline w)

  -- The changed row comes first.
  first-Listed :
      (t : Option Time) (x : WorkerRow) (ws : List WorkerRow)
      → str_eq x.pod_name pod ≡ true
      → is_offline x ≡ false
      → let changed = with_failure kind reason details t x in
        Listed pod kind reason (if failing changed then changed ∷ ws else ws)
  first-Listed none x ws here active =
      rw (eq_refl kind, active)
        (_, Memᴰ.head refl, ground (arith, eq_iff x.pod_name pod, here), refl, refl)
  first-Listed (some t) x ws here active =
      rw (eq_refl kind, active)
        (_, Memᴰ.head refl, ground (arith, eq_iff x.pod_name pod, here), refl, refl)

  later-Listed :
      (p : Bool) (w : WorkerRow) (ws : List WorkerRow)
      → Listed pod kind reason ws
      → Listed pod kind reason (if p then w ∷ ws else ws)
  later-Listed true w ws (x, mem, named, type, told) = (x, Memᴰ.tail mem, named, type, told)
  later-Listed false w ws h = h

  update_pod-Listed :
      (t : Option Time) (ws : List WorkerRow) (w : WorkerRow)
      → find_row (λ x. str_eq x.pod_name pod) ws ≡ some w
      → is_offline w ≡ false
      → Listed pod kind reason
          (select failing (update_pod pod (with_failure kind reason details t) ws))
  update_pod-Listed t [] w found active = cc
  update_pod-Listed t (x ∷ ws) w found active = elim (Bool-cases (str_eq x.pod_name pod)) [
    | inl here ↦
        let same : some x ≡ some w = simp here at found in
        let still : is_offline x ≡ false = ap is_offline (some_eq same) ∙ active in
        rw here (
          first-Listed t x (select failing (update_pod pod (with_failure kind reason details t) ws))
            here still)
    | inr other ↦ rw other (
        later-Listed (failing x) x
          (select failing (update_pod pod (with_failure kind reason details t) ws))
          (update_pod-Listed t ws w (simp other at found) active))
  ]

module _ (fails : Fails) (marshal : WorkerFailureInfo → Option String) where
  update_worker_failure-found :
      (db : Db) (pod kind reason details : String) (time : Time) (w : WorkerRow)
      → ((d : Db) (q : Query) → fails d q ≡ false)
      → find_row (λ x. str_eq x.pod_name pod) db.workers ≡ some w
      → update_worker_failure fails db pod kind reason details time ≡ record db {
        workers =
            update_pod pod
              (with_failure kind reason details (first_time w.failure_occurred_at time))
              db.workers;
      }
  unfolding update_worker_failure find_pod
  update_worker_failure-found db pod kind reason details time w works found =
      simp (works, found, update_worker_failure, find_pod)

  update_worker_failure-Listed :
      (db : Db) (pod kind reason details : String) (time : Time) (w : WorkerRow)
      → ((d : Db) (q : Query) → fails d q ≡ false)
      → find_row (λ x. str_eq x.pod_name pod) db.workers ≡ some w
      → is_offline w ≡ false
      → (ws : List WorkerRow) × (get_workers_by_failure_type fails
            (update_worker_failure fails db pod kind reason details time)
            kind
          ≡ some ws)
        × Listed pod kind reason ws
  unfolding get_workers_by_failure_type
  update_worker_failure-Listed db pod kind reason details time w works found active =
      let t = first_time w.failure_occurred_at time in
      (
        select (failing pod kind reason details)
            (update_pod pod (with_failure kind reason details t) db.workers),
        rw (update_worker_failure-found db pod kind reason details time w works found)
            (rw works refl),
        update_pod-Listed pod kind reason details t db.workers w found active,
      )

  detect_failure-finds :
      (s : Option StatusSanitizer) (now : Time) (info : PodInfo)
      → info.deletion_timestamp ≡ ""
      → is_failure_state info.reason info.status ≡ true
      → detect_failure s now (some info) ≡ some (failure_of s now info)
  unfolding detect_failure
  detect_failure-finds s now info stays poor = rw (stays, poor) refl

  -- A failing pod is listed: where no statement fails and the repository is there, and a pod that is
  -- not being deleted and whose reason or status says that it failed has a worker that is not
  -- offline, the failure that is detected and stored makes GetWorkersByFailureType, for the type of
  -- the failure, answer a list with a worker of the pod, whose reason is the sanitized message.
  pub store_failure-Listed :
      (s : Option StatusSanitizer) (now : Time) (db : Db) (pod : String) (info : PodInfo)
      (w : WorkerRow)
      → ((d : Db) (q : Query) → fails d q ≡ false)
      → info.deletion_timestamp ≡ ""
      → is_failure_state info.reason info.status ≡ true
      → find_row (λ x. str_eq x.pod_name pod) db.workers ≡ some w
      → is_offline w ≡ false
      → let kind = failure_type_of info in
        let after = store_failure fails marshal true db pod (detect_failure s now (some info)) in
        (ws : List WorkerRow) × (get_workers_by_failure_type fails after kind ≡ some ws)
        × Listed pod kind (sanitized_message s kind info) ws
  unfolding store_failure
  store_failure-Listed s now db pod info w works stays poor found active =
      let kind = failure_type_of info in
      rw (detect_failure-finds s now info stays poor) (
        update_worker_failure-Listed db pod kind (sanitized_message s kind info)
          (or_empty_object (marshal (failure_of s now info))) now w works found active)
