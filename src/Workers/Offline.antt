-- ===== src/Workers/Offline.antt =====
-- Whose tasks CleanupOfflineWorkers reclaims.
use waverless.Base.{
  ℕ, ◌≡◌, String, ◌+◌, ◌&&◌, ltb, inl, inr, refl, Bool, true, false, not, List, [], ◌∷◌, str_eq,
  pos, ltb_ℤ, All, All-select_of, Bool-cases, Time, since, arith,
}
use waverless.Store.{WorkerRow}
use waverless.Store.Workers.{is_offline}
use waverless.Store.Heartbeats.{is_silent, mark_offline, get_all}
use waverless.Tasks.Table.{Table}
use waverless.Tasks.Service.{Faults}
use waverless.Workers.{State, silent_workers, reclaim_all, cleanup_offline_workers}

abbrev pub is_starting : WorkerRow → Bool
is_starting w = str_eq w.status "STARTING"

-- The heartbeat grows too old for the timeout after the first of two readings of the clock, and by
-- the second.
abbrev pub grows_old : Time → Time → ℕ → WorkerRow → Bool
grows_old marked_at now timeout w =
    ltb (w.last_heartbeat + timeout) now && not (ltb (w.last_heartbeat + timeout) marked_at)

-- A worker whose heartbeat is too old for the loop is one that was marked, unless it starts or its
-- heartbeat grew too old in between.
late_is_silent :
    (marked_at now : Time) (timeout : ℕ) (w : WorkerRow)
    → ltb_ℤ (pos timeout) (since now w.last_heartbeat) ≡ true
    → is_offline w ≡ false
    → is_starting w ≡ false
    → grows_old marked_at now timeout w ≡ false
    → is_silent marked_at timeout w ≡ true
unfolding since
late_is_silent marked_at now timeout w late active ready steady =
    ground (arith, late, active, ready, steady)

-- The workers whose tasks CleanupOfflineWorkers reclaims all have the status STARTING, where no
-- heartbeat grows too old in between: the silent ones that it has just marked as offline are not
-- among them.
pub silent_workers-starting :
    (marked_at now : Time) (timeout : ℕ) (ws : List WorkerRow)
    → All (λ w. grows_old marked_at now timeout w ≡ false) ws
    → All (λ w. is_starting w ≡ true) (silent_workers marked_at now timeout ws)
unfolding silent_workers mark_offline
silent_workers-starting marked_at now timeout [] steady = tt
silent_workers-starting marked_at now timeout (w ∷ ws) steady =
    let rest = silent_workers-starting marked_at now timeout ws steady.1 in
    elim (Bool-cases (is_silent marked_at timeout w)) [
      | inl silent ↦ simp silent rest
      | inr heard ↦ elim (Bool-cases (is_offline w)) [
        | inl off ↦ rw heard (simp off rest)
        | inr active ↦ elim (Bool-cases (ltb_ℤ (pos timeout) (since now w.last_heartbeat))) [
          | inr early ↦ rw heard (simp (active, early) rest)
          | inl late ↦ elim (Bool-cases (is_starting w)) [
            | inl starts ↦ rw heard (simp (active, late) (starts, rest))
            | inr ready ↦
                let silent = late_is_silent marked_at now timeout w late active ready steady.0 in cc
          ]
        ]
      ]
    ]

silent_workers-sub :
    (marked_at now : Time) (timeout : ℕ) (ws : List WorkerRow)
    → All (λ w. is_starting w ≡ false) ws
    → All (λ w. is_starting w ≡ false) (silent_workers marked_at now timeout ws)
unfolding silent_workers mark_offline
silent_workers-sub marked_at now timeout ws none_starts =
    All-select_of (λ w. is_starting w ≡ false)
      (λ w. ltb_ℤ (pos timeout) (since now w.last_heartbeat))
      (get_all (mark_offline marked_at timeout ws))
      (All-select_of (λ w. is_starting w ≡ false) (λ w. not (is_offline w))
        (mark_offline marked_at timeout ws) (kept ws none_starts))
  where
    kept :
        (ws : List WorkerRow)
        → All (λ w. is_starting w ≡ false) ws
        → All (λ w. is_starting w ≡ false) (mark_offline marked_at timeout ws)
    kept [] h = tt
    kept (w ∷ ws) h = elim (Bool-cases (is_silent marked_at timeout w)) [
      | inl silent ↦ rw silent (refl, kept ws h.1)
      | inr heard ↦ rw heard (h.0, kept ws h.1)
    ]

reclaim_all_none :
    (timeout : ℕ) (f : Faults) (clock : String → Time) (ws : List WorkerRow) (table : Table)
    → All (λ w. is_starting w ≡ true) ws
    → All (λ w. is_starting w ≡ false) ws
    → reclaim_all timeout f clock ws table ≡ table
unfolding reclaim_all
reclaim_all_none timeout f clock [] table h k = refl
reclaim_all_none timeout f clock (w ∷ ws) table h k = cc

-- CleanupOfflineWorkers reclaims no task where no worker has the status STARTING and no heartbeat
-- grows too old between the time that MarkOffline reads and the time that the loop over the listed
-- workers reads.
pub cleanup_offline_workers-idle :
    (timeout : ℕ) (f : Faults) (marked_at now : Time) (clock : String → Time) (s : State)
    → All (λ w. is_starting w ≡ false) s.workers
    → All (λ w. grows_old marked_at now timeout w ≡ false) s.workers
    → (cleanup_offline_workers timeout f marked_at now clock s).tasks ≡ s.tasks
unfolding cleanup_offline_workers
cleanup_offline_workers-idle timeout f marked_at now clock s none_starts steady =
    reclaim_all_none timeout f clock (silent_workers marked_at now timeout s.workers) s.tasks
      (silent_workers-starting marked_at now timeout s.workers steady)
      (silent_workers-sub marked_at now timeout s.workers none_starts)
