-- ===== src/Workers/Draining.antt =====
-- A worker that drains is given no task.
use waverless.Base.{
  ℕ, ◌≡◌, inl, inr, refl, true, Option, some, List, [], ◌∷◌, String, str_eq, ℤ, Bool-cases, ap,
  Time, arith,
}
use waverless.Store.{WorkerRow}
use waverless.Store.Heartbeats.{has_row, update_worker, beaten, current_jobs_of, update_heartbeat}
use waverless.Tasks.Table.{Task}
use waverless.Tasks.Service.{or_default}
use waverless.Workers.{State, Setting, Report, row_of, pull_for, beat, pull_jobs}

-- A change of the rows of one worker that keeps its name is found again.
row_of-update_worker :
    (id : String) (change : WorkerRow → WorkerRow) (ws : List WorkerRow) {w : WorkerRow}
    → ((r : WorkerRow) → (change r).worker_id ≡ r.worker_id)
    → row_of id ws ≡ some w
    → row_of id (update_worker id change ws) ≡ some (change w)
row_of-update_worker id change [] same found = cc
row_of-update_worker id change (r ∷ ws) {w} same found = elim (Bool-cases (str_eq r.worker_id id)) [
  | inl here ↦
      let is_w : r ≡ w = ground (arith, found) in
      simp (here, same r) (ap (λ x. some (change x)) is_w)
  | inr other ↦
      let later : row_of id ws ≡ some w = ground (arith, found) in
      simp other (row_of-update_worker id change ws same later)
]

row_of-has_row :
    (id : String) (ws : List WorkerRow) {w : WorkerRow}
    → row_of id ws ≡ some w
    → has_row id ws ≡ true
row_of-has_row id [] found = cc
row_of-has_row id (r ∷ ws) {w} found = elim (Bool-cases (str_eq r.worker_id id)) [
  | inl here ↦ simp here
  | inr other ↦
      let later : row_of id ws ≡ some w = ground (arith, found) in
      simp (other, row_of-has_row id ws later)
]

-- The worker has a row, and drains.
pub record Drains (id : String) (ws : List WorkerRow) : Type 0 where
  pub row : WorkerRow
  pub there : row_of id ws ≡ some row
  pub draining : row.status ≡ "DRAINING"

update_heartbeat-Drains :
    (now : Time) (id endpoint : String) (named : ℕ) (count : ℤ) (ws : List WorkerRow)
    → Drains id ws
    → Drains id (update_heartbeat now id endpoint named count ws)
unfolding update_heartbeat
update_heartbeat-Drains now id endpoint named count ws h = record {
  row = beaten now endpoint (current_jobs_of named count) h.row;
  there =
      simp (row_of-has_row id ws h.there, update_heartbeat)
        (row_of-update_worker id (beaten now endpoint (current_jobs_of named count)) ws (λ r. refl)
          h.there);
  draining = simp h.draining;
}

-- What a pull gives a worker that drains: no task, or an error.
pub record GivesNone (id : String) (before after : State) (given : Option (List Task))
    : Type 0 where
  pub nothing : (ts : List Task) → given ≡ some ts → ts ≡ []
  pub same_tasks : after.tasks ≡ before.tasks
  pub still : Drains id after.workers

pull_for-GivesNone :
    (e : Setting) (now : Time) (id endpoint : String) (batch : ℤ) (s : State)
    → Drains id s.workers
    → GivesNone id s (pull_for e now id endpoint batch s).1 (pull_for e now id endpoint batch s).0
unfolding pull_for
pull_for-GivesNone e now id endpoint batch s h = elim (Bool-cases e.get_fails) [
  | inl failed ↦
      simp (failed, pull_for) (record { nothing = λ ts e. cc; same_tasks = refl; still = h })
  | inr read ↦
      simp (read, h.there, h.draining, pull_for)
        (record { nothing = λ ts e. cc; same_tasks = refl; still = h })
]

beat-Drains :
    (e : Setting) (now : Time) (id endpoint : String) (report : Report) (ws : List WorkerRow)
    → Drains id ws
    → Drains id (beat e now id endpoint report ws)
unfolding beat
beat-Drains e now id endpoint report ws h = elim (Bool-cases e.heartbeat_fails) [
  | inl lost ↦ rw lost h
  | inr heard ↦ rw heard (update_heartbeat-Drains now id endpoint report.named report.count ws h)
]

-- A worker that drains is given no task by a pull, whatever it reports and whatever fails, and
-- drains still afterwards.
pub pull_jobs-GivesNone :
    (e : Setting) (now : Time) (id endpoint : String) (report : Report) (batch : ℤ) (s : State)
    → Drains id s.workers
    → GivesNone id s
        (pull_jobs e now id endpoint report batch s).1
        (pull_jobs e now id endpoint report batch s).0
unfolding pull_jobs
pull_jobs-GivesNone e now id endpoint report batch s h =
    let place = or_default endpoint in
    let given =
      pull_for-GivesNone e now id place batch
        (record s { workers = beat e now id place report s.workers })
        (beat-Drains e now id place report s.workers h) in
    record { nothing = given.nothing; same_tasks = given.same_tasks; still = given.still }
