-- ===== src/Releaser/Cleanup.antt =====
-- Which workers stay tracked after a check.
use waverless.Base.{◌≡◌, refl, true, some, List, [], ◌++◌, All, All-select}
use waverless.Store.Workers.{get_workers_by_failure_type}
use waverless.Releaser.{
  State, Setting, release, cleanup_tracked_workers, check_and_release, still_failed,
}

-- When the failed workers can be listed, a check leaves tracked only names under which the database
-- has, after the check, a worker that pulls its image in vain or crashes.
pub check_and_release-tracked :
    (e : Setting) (s : State) {pulls crashes : List _}
    → get_workers_by_failure_type e.fails s.db "IMAGE_PULL_FAILED" ≡ some pulls
    → get_workers_by_failure_type e.fails s.db "CONTAINER_CRASH" ≡ some crashes
    → All
        (λ t. still_failed e (check_and_release e s).db t.0 ≡ true)
        (check_and_release e s).tracked
unfolding check_and_release cleanup_tracked_workers
check_and_release-tracked e s {pulls} {crashes} found more =
    let s' = release e s (pulls ++ crashes) in
    simp (found, more, check_and_release) (All-select (λ t. still_failed e s'.db t.0) s'.tracked)

-- When no worker is listed as failed, a check changes no row and scales no endpoint: an endpoint
-- that is marked as unhealthy stays so.
pub check_and_release-stale :
    (e : Setting) (s : State)
    → get_workers_by_failure_type e.fails s.db "IMAGE_PULL_FAILED" ≡ some []
    → get_workers_by_failure_type e.fails s.db "CONTAINER_CRASH" ≡ some []
    → ((check_and_release e s).db ≡ s.db) × ((check_and_release e s).scaled ≡ s.scaled)
unfolding check_and_release cleanup_tracked_workers release
check_and_release-stale e s pulls crashes = simp (pulls, crashes, check_and_release) (refl, refl)
