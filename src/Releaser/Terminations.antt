-- ===== src/Releaser/Terminations.antt =====
-- Which termination a round asks for, and under which name it is counted.
use waverless.Base.{
  ◌≡◌, ◌⊎◌, inl, inr, refl, Bool, true, false, some, ◌∷◌, String, str_eq, pos, leb_ℤ, ◌≤ℤ◌, ◌<ℤ◌,
  ap, ◌∙◌, Time, since, Option-cases, Bool-cases, arith,
}
use waverless.Base.Dict.{load, load-store, load-delete}
use text.Mathlib.TextPositions.{eq_refl}
use waverless.Store.{WorkerRow}
use waverless.Releaser.{
  FailedWorkerInfo, State, Setting, get_or_create, update_worker_timeout_status, after_termination,
  terminate_worker, check_worker,
}
use waverless.Releaser.Retries.{check_tracked}

-- The reasons for a termination: the worker has failed for the timeout, counted from the tracked
-- time, has retries left, and the provider can terminate.
pub record IsDue (e : Setting) (s : State) (w : WorkerRow) : Type 0 where
  pub time : Time
  pub failed : w.failure_occurred_at ≡ some time
  pub late :
      e.image_pull_timeout ≤ℤ since e.now (get_or_create e s w.pod_name time).0.first_failure_time
  pub left : (get_or_create e s w.pod_name time).0.retry_count <ℤ e.max_retries
  pub able : e.can_terminate ≡ true

terminate_worker_cases :
    (e : Setting) (s : State) (w : WorkerRow) (info : FailedWorkerInfo)
    → ((terminate_worker e s w info).terminations ≡ s.terminations)
      ⊎ (((terminate_worker e s w info).terminations ≡ (w.endpoint, w.worker_id) ∷ s.terminations)
          × (info.retry_count <ℤ e.max_retries)
          × (e.can_terminate ≡ true))
unfolding terminate_worker after_termination
terminate_worker_cases e s w info = ground arith

get_or_create_terminations :
    (e : Setting) (s : State) (id : String) (time : Time)
    → (get_or_create e s id time).1.terminations ≡ s.terminations
unfolding get_or_create
get_or_create_terminations e s id time = ground arith

-- A round asks the provider for at most one termination, that of its worker, and only if it is due.
pub check_worker-IsDue :
    (e : Setting) (s : State) (w : WorkerRow)
    → ((check_worker e s w).terminations ≡ s.terminations)
      ⊎ (((check_worker e s w).terminations ≡ (w.endpoint, w.worker_id) ∷ s.terminations)
          × IsDue e s w)
check_worker-IsDue e s w = elim (Option-cases w.failure_occurred_at) [
  | inl never ↦ inl (unfold check_worker in simp (never, check_worker))
  | inr (time, at) ↦
      let step = check_tracked e e.max_retries s w time at in
      let info : FailedWorkerInfo = (get_or_create e s w.pod_name time).0 in
      let s' : State = (get_or_create e s w.pod_name time).1 in
      let same = get_or_create_terminations e s w.pod_name time in
      elim (Bool-cases (leb_ℤ e.image_pull_timeout (since e.now info.first_failure_time))) [
        | inr early ↦ inl (rw step (rw early same))
        | inl late ↦ elim (terminate_worker_cases e s' w info) [
          | inl kept ↦ inl (rw step (rw late (kept ∙ same)))
          | inr (one, left, able) ↦ inr (
            rw step (rw late (one ∙ ap (◌∷◌ (w.endpoint, w.worker_id)) same)),
            record { time = time; failed = at; late = ground arith; left = left; able = able },
          )
        ]
      ]
]

get_or_create_tracked :
    (e : Setting) (s : State) (id : String) (time : Time)
    → load id (get_or_create e s id time).1.tracked ≡ some (get_or_create e s id time).0
unfolding get_or_create
get_or_create_tracked e s id time = elim (Option-cases (load id s.tracked)) [
  | inl new ↦
      let info : FailedWorkerInfo = record { first_failure_time = time; retry_count = pos 0 } in
      rw (new, get_or_create) (load-store id id info s.tracked ∙ rw (eq_refl id) refl)
  | inr (info, old) ↦ rw (old, get_or_create) old
]

load-after_termination :
    (e : Setting) (s : State) (w : WorkerRow) (info : FailedWorkerInfo) (done : Bool)
    → str_eq w.worker_id w.pod_name ≡ false
    → load w.pod_name (after_termination e s w info done).tracked ≡ load w.pod_name s.tracked
unfolding after_termination update_worker_timeout_status
load-after_termination e s w info false other =
    load-store w.worker_id w.pod_name _ s.tracked ∙ rw other refl
load-after_termination e s w info true other =
    load-delete w.worker_id w.pod_name s.tracked ∙ rw other refl

load-terminate_worker :
    (e : Setting) (s : State) (w : WorkerRow) (info : FailedWorkerInfo)
    → str_eq w.worker_id w.pod_name ≡ false
    → load w.pod_name (terminate_worker e s w info).tracked ≡ load w.pod_name s.tracked
unfolding terminate_worker update_worker_timeout_status
load-terminate_worker e s w info other = elim (Bool-cases (leb_ℤ e.max_retries info.retry_count)) [
  | inl spent ↦ simp (spent, terminate_worker)
  | inr below ↦ elim (Bool-cases e.can_terminate) [
    | inr cannot ↦ simp (below, cannot, terminate_worker)
    | inl can ↦
        simp (below, can, terminate_worker)
          (load-after_termination e _ w info (e.terminates s w.endpoint w.worker_id) other)
  ]
]

-- A worker whose id is not its pod's name is tracked under the pod's name, and its failed
-- terminations are counted under its id: the count that the next check reads does not grow.
pub check_worker-uncounted :
    (e : Setting) (s : State) (w : WorkerRow) (time : Time)
    → w.failure_occurred_at ≡ some time
    → str_eq w.worker_id w.pod_name ≡ false
    → load w.pod_name (check_worker e s w).tracked ≡ some (get_or_create e s w.pod_name time).0
check_worker-uncounted e s w time at other =
    let info : FailedWorkerInfo = (get_or_create e s w.pod_name time).0 in
    let s' : State = (get_or_create e s w.pod_name time).1 in
    let tracked = get_or_create_tracked e s w.pod_name time in
    rw (check_tracked e e.max_retries s w time at)
      (elim (Bool-cases (leb_ℤ e.image_pull_timeout (since e.now info.first_failure_time))) [
        | inl late ↦ rw late (load-terminate_worker e s' w info other ∙ tracked)
        | inr early ↦ rw early tracked
      ])
