-- ===== src/Releaser/Retries.antt =====
-- Which workers are terminated, and how often it is tried.
use waverless.Base.{
  ◌≡◌, inl, inr, refl, Bool, true, false, some, List, [], ◌∷◌, ◌++◌, String, ℤ, pos, add_int, wrap,
  leb_ℤ, ◌≤ℤ◌, IsInt, ◌∙◌, All-select_of, Time, since, Option-cases, Bool-cases, if◌then◌else◌,
  arith,
}
use waverless.Base.Dict.{load, AllValues, AllValues-store, AllValues-delete, AllValues-load}
use waverless.Store.{WorkerRow}
use waverless.Store.Workers.{get_workers_by_failure_type}
use waverless.Releaser.{
  FailedWorkerInfo, State, Setting, get_or_create, after_termination, terminate_worker,
  check_worker, check_workers, update_endpoint_health_status, update_endpoints, release,
  cleanup_tracked_workers, check_and_release, still_failed,
}

-- The number of failed terminations of a worker is at most `max`.
pub record IsBounded (max : ℤ) (info : FailedWorkerInfo) : Type 0 where
  pub nonneg : pos 0 ≤ℤ info.retry_count
  pub bounded : info.retry_count ≤ℤ max

abbrev pub IsCapped : ℤ → State → Type 0
IsCapped max s = AllValues (IsBounded max) s.tracked

counted-IsBounded :
    (max : ℤ) (info : FailedWorkerInfo)
    → IsInt max
    → IsBounded max info
    → leb_ℤ max info.retry_count ≡ false
    → IsBounded max (record info { retry_count = add_int info.retry_count (pos 1) })
unfolding add_int wrap
counted-IsBounded max info fits b below = ground arith

module _ (e : Setting) (max : ℤ) where
  get_or_create-IsCapped :
      (s : State) (id : String) (time : Time)
      → pos 0 ≤ℤ max
      → IsCapped max s
      → IsBounded max (get_or_create e s id time).0 × IsCapped max (get_or_create e s id time).1
  unfolding get_or_create
  get_or_create-IsCapped s id time room h = elim (Option-cases (load id s.tracked)) [
    | inl new ↦
        let info : FailedWorkerInfo = record { first_failure_time = time; retry_count = pos 0 } in
        let none_yet : IsBounded max info = omega arith in
        rw (new, get_or_create)
          (none_yet, AllValues-store (IsBounded max) id info s.tracked none_yet h)
    | inr (info, old) ↦
        rw (old, get_or_create) (AllValues-load (IsBounded max) id s.tracked h old, h)
  ]

  after_termination-IsCapped :
      (s : State) (w : WorkerRow) (info : FailedWorkerInfo) (done : Bool)
      → IsBounded max (record info { retry_count = add_int info.retry_count (pos 1) })
      → IsCapped max s
      → IsCapped max (after_termination e s w info done)
  unfolding after_termination
  after_termination-IsCapped s w info false b h =
      AllValues-store (IsBounded max) w.worker_id _ s.tracked b h
  after_termination-IsCapped s w info true b h =
      AllValues-delete (IsBounded max) w.worker_id s.tracked h

  pub check_tracked :
      (s : State) (w : WorkerRow) (time : Time)
      → w.failure_occurred_at ≡ some time
      → let (info, s') = get_or_create e s w.pod_name time in
        check_worker e s w ≡ (
          if leb_ℤ e.image_pull_timeout (since e.now info.first_failure_time)
          then terminate_worker e s' w info
          else s')
  unfolding check_worker
  check_tracked s w time at = simp (at, check_worker)

-- A check keeps the retries of every tracked worker between 0 and `MaxRetries`.
module _ (e : Setting) (room : pos 0 ≤ℤ e.max_retries) (fits : IsInt e.max_retries) where
  terminate_worker-IsCapped :
      (s : State) (w : WorkerRow) (info : FailedWorkerInfo)
      → IsBounded e.max_retries info
      → IsCapped e.max_retries s
      → IsCapped e.max_retries (terminate_worker e s w info)
  unfolding terminate_worker
  terminate_worker-IsCapped s w info b h =
      elim (Bool-cases (leb_ℤ e.max_retries info.retry_count)) [
        | inl spent ↦ simp (spent, terminate_worker) h
        | inr below ↦ elim (Bool-cases e.can_terminate) [
          | inr cannot ↦ simp (below, cannot, terminate_worker) h
          | inl can ↦
              simp (below, can, terminate_worker)
                (after_termination-IsCapped e e.max_retries _ w info
                  (e.terminates s w.endpoint w.worker_id)
                  (counted-IsBounded e.max_retries info fits b below) h)
        ]
      ]

  check_worker-IsCapped :
      (s : State) (w : WorkerRow)
      → IsCapped e.max_retries s
      → IsCapped e.max_retries (check_worker e s w)
  check_worker-IsCapped s w h = elim (Option-cases w.failure_occurred_at) [
    | inl never ↦ unfold check_worker in simp (never, check_worker) h
    | inr (time, at) ↦
        let made = get_or_create-IsCapped e e.max_retries s w.pod_name time room h in
        let info : FailedWorkerInfo = (get_or_create e s w.pod_name time).0 in
        rw (check_tracked e e.max_retries s w time at)
          (elim (Bool-cases (leb_ℤ e.image_pull_timeout (since e.now info.first_failure_time))) [
            | inl late ↦ rw late (terminate_worker-IsCapped _ w info made.0 made.1)
            | inr early ↦ rw early made.1
          ])
  ]

  check_workers-IsCapped :
      (s : State) (ws : List WorkerRow)
      → IsCapped e.max_retries s
      → IsCapped e.max_retries (check_workers e s ws)
  unfolding check_workers
  check_workers-IsCapped s [] h = h
  check_workers-IsCapped s (w ∷ ws) h =
      check_workers-IsCapped (check_worker e s w) ws (check_worker-IsCapped s w h)

update_health_tracked :
    (e : Setting) (s : State) (name : String)
    → (update_endpoint_health_status e s name).tracked ≡ s.tracked
unfolding update_endpoint_health_status
update_health_tracked e s name = ground arith

pub update_endpoints_tracked :
    (e : Setting) (s : State) (names : List String)
    → (update_endpoints e s names).tracked ≡ s.tracked
unfolding update_endpoints
update_endpoints_tracked e s [] = refl
update_endpoints_tracked e s (n ∷ ns) =
    update_endpoints_tracked e (update_endpoint_health_status e s n) ns
    ∙ update_health_tracked e s n

module _ (e : Setting) (room : pos 0 ≤ℤ e.max_retries) (fits : IsInt e.max_retries) where
  release-IsCapped :
      (s : State) (ws : List WorkerRow)
      → IsCapped e.max_retries s
      → IsCapped e.max_retries (release e s ws)
  unfolding release
  release-IsCapped s [] h = h
  release-IsCapped s (w ∷ ws) h =
      rw (update_endpoints_tracked e) (check_workers-IsCapped e room fits s (w ∷ ws) h)

  -- A check keeps the retry count that is stored for every tracked name between 0 and `MaxRetries`,
  -- where that is a value of Go's `int` and not negative and the counts are between them before. It
  -- says nothing of how often a worker is terminated.
  pub check_and_release-IsCapped :
      (s : State) → IsCapped e.max_retries s → IsCapped e.max_retries (check_and_release e s)
  unfolding check_and_release cleanup_tracked_workers
  check_and_release-IsCapped s h =
      elim (Option-cases (get_workers_by_failure_type e.fails s.db "IMAGE_PULL_FAILED")) [
        | inl failed ↦ rw (failed, check_and_release) h
        | inr (pulls, found) ↦
            elim (Option-cases (get_workers_by_failure_type e.fails s.db "CONTAINER_CRASH")) [
              | inl failed ↦ rw (found, check_and_release) (rw failed h)
              | inr (crashes, more) ↦
                  rw (found, check_and_release)
                    (rw more (
                      All-select_of (λ t. IsBounded e.max_retries t.1)
                        (λ t. still_failed e (release e s (pulls ++ crashes)).db t.0)
                        (release e s (pulls ++ crashes)).tracked
                        (release-IsCapped s (pulls ++ crashes) h)))
            ]
      ]
