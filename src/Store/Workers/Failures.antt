-- ===== src/Store/Workers/Failures.antt =====
-- The time of the first failure of a pod is kept.
use waverless.Base.{
  Pointwise, ◌≡◌, false, none, some, List, [], ◌∷◌, String, str_eq, Time, Bool-cases, inl, inr,
  if◌then◌else◌, arith,
}
use waverless.Store.Tables.{WorkerRow, Db, Fails, failure_update}
use waverless.Store.Workers.{find_pod, update_worker_failure, with_failure, update_pod}

-- What an update of a pod leaves of each row: all of a row of another pod, and the names, the status
-- and the failure time of its own.
pub record KeepsTime (pod : String) (before after : WorkerRow) : Type 0 where
  pub others : str_eq before.pod_name pod ≡ false → after ≡ before
  pub same_id : after.worker_id ≡ before.worker_id
  pub same_endpoint : after.endpoint ≡ before.endpoint
  pub same_pod : after.pod_name ≡ before.pod_name
  pub same_status : after.status ≡ before.status
  pub same_time : after.failure_occurred_at ≡ before.failure_occurred_at

with_failure-KeepsTime :
    (pod kind reason details : String) (w : WorkerRow)
    → KeepsTime pod w (if str_eq w.pod_name pod then with_failure kind reason details none w else w)
with_failure-KeepsTime pod kind reason details w = ground arith

update_pod-Pointwise :
    (pod kind reason details : String) (ws : List WorkerRow)
    → Pointwise (KeepsTime pod) ws (update_pod pod (with_failure kind reason details none) ws)
update_pod-Pointwise pod kind reason details [] = tt
update_pod-Pointwise pod kind reason details (w ∷ ws) = (
  with_failure-KeepsTime pod kind reason details w,
  update_pod-Pointwise pod kind reason details ws,
)

Pointwise-refl : (pod : String) (ws : List WorkerRow) → Pointwise (KeepsTime pod) ws ws
Pointwise-refl pod [] = tt
Pointwise-refl pod (w ∷ ws) = (ground arith, Pointwise-refl pod ws)

-- A later failure of a pod whose row has a failure time leaves that time, in every row, and leaves
-- the rows of other pods alone.
pub update_worker_failure-KeepsTime :
    (fails : Fails) (db : Db) (pod kind reason details : String) (now : Time) {w : WorkerRow}
    {t : Time}
    → find_pod fails db pod ≡ some w
    → w.failure_occurred_at ≡ some t
    → Pointwise
        (KeepsTime pod)
        db.workers
        (update_worker_failure fails db pod kind reason details now).workers
unfolding update_worker_failure
update_worker_failure-KeepsTime fails db pod kind reason details now found time =
    elim (Bool-cases (fails db (failure_update pod))) [
      | inl failed ↦ rw (found, update_worker_failure) (rw failed (Pointwise-refl pod db.workers))
      | inr done ↦
          rw (found, update_worker_failure)
            (rw done (rw time (update_pod-Pointwise pod kind reason details db.workers)))
    ]
