-- ===== src/Tasks/Races.antt =====
-- What happens to a task that another method has changed since it was read, and the history of
-- executions.
use waverless.Base.{
  ap, ◌≡◌, ◌⊎◌, inl, inr, refl, true, false, ◌||◌, Option, none, some, eq_iff, [], ◌∷◌, String,
  str_eq, ℤ, ltb_ℤ, Pointwise, Bool-cases, Time, since, arith,
}
use waverless.Tasks.Table.{
  TaskStatus, pending, in_progress, completed, failed, cancelled, is_in_progress, is_finished, Task,
  Table, get, update_fields, update_running, runs,
}
use waverless.Tasks.Service.{
  Faults, success, cancelled_at, cancel_task, with_result, update_task_result, requeued,
  requeue_orphaned_task, timed_out, check_timeout, limit_of,
}

is_in_progress_sound : (s : TaskStatus) → is_in_progress s ≡ true → s ≡ in_progress
is_in_progress_sound pending h = cc
is_in_progress_sound in_progress h = refl
is_in_progress_sound completed h = cc
is_in_progress_sound failed h = cc
is_in_progress_sound cancelled h = cc

-- A row is as it was, or it was in progress under this name and now waits, without a worker and
-- without a start.
abbrev pub IsSparedOr : String → Task → Task → Type 0
IsSparedOr id before after =
    (after ≡ before)
    ⊎ ((before.task_id ≡ id)
        × (before.status ≡ in_progress)
        × (after.status ≡ pending)
        × (after.worker_id ≡ "")
        × (after.started_at ≡ none))

update_running-spares :
    (id : String) (change : Task → Task) (table : Table)
    → ((u : Task) → (change u).status ≡ pending)
    → ((u : Task) → (change u).worker_id ≡ "")
    → ((u : Task) → (change u).started_at ≡ none)
    → Pointwise (IsSparedOr id) table (update_running id change table)
unfolding update_running
update_running-spares id change [] waits free unstarted = tt
update_running-spares id change (t ∷ table) waits free unstarted =
    let rest = update_running-spares id change table waits free unstarted in
    elim (Bool-cases (runs id t)) [
      | inl over ↦
          let here : t.task_id ≡ id = ground (arith, over, eq_iff t.task_id id) in
          let going : t.status ≡ in_progress =
            is_in_progress_sound t.status (ground (arith, over)) in
          simp over (inr (here, going, waits t, free t, unstarted t), rest)
      | inr other ↦ simp other (inl refl, rest)
    ]

same_rows : (id : String) (table : Table) → Pointwise (IsSparedOr id) table table
same_rows id [] = tt
same_rows id (t ∷ table) = (inl refl, same_rows id table)

-- A requeue from however old a row leaves every row of the table as it is, but for a row of that task
-- whose status is IN_PROGRESS, which then waits without a worker and without a start: a task that was
-- completed, failed or cancelled in the meantime stays as it is.
pub requeue_orphaned_task-spares :
    (f : Faults) (now : Time) (t : Task) (table : Table)
    → Pointwise (IsSparedOr t.task_id) table (requeue_orphaned_task f now t table)
unfolding requeue_orphaned_task
requeue_orphaned_task-spares f now t table = elim (Bool-cases (f.writes || f.events)) [
  | inl lost ↦ rw lost (same_rows t.task_id table)
  | inr kept ↦
      rw kept
        (update_running-spares t.task_id (requeued now t) table (λ u. refl) (λ u. refl) (λ u. refl))
]

-- An update that keeps the name of a task is read back.
get-update_fields :
    (id : String) (change : Task → Task) (table : Table) {t : Task}
    → ((u : Task) → (change u).task_id ≡ u.task_id)
    → get id table ≡ some t
    → get id (update_fields id change table) ≡ some (change t)
unfolding update_fields
get-update_fields id change [] same found = cc
get-update_fields id change (u ∷ table) {t} same found = elim (Bool-cases (str_eq u.task_id id)) [
  | inl here ↦
      let is_t : u ≡ t = ground (arith, found) in
      simp (here, same u) (ap (λ x. some (change x)) is_t)
  | inr other ↦
      let later : get id table ≡ some t = ground (arith, found) in
      simp other (get-update_fields id change table same later)
]

-- The faults where nothing fails.
abbrev pub faultless : Faults
faultless = record { reads = false; writes = false; events = false }

-- A result that arrives after a cancellation wins: the task that CancelTask cancelled with success
-- ends as completed.
pub update_task_result-cancel_task :
    (now later : Time) (id output : String) (table : Table) {t : Task}
    → get id table ≡ some t
    → is_finished t.status ≡ false
    → let (first, after) = cancel_task faultless now id table table in
      let (second, final) = update_task_result faultless later id output "" after after in
      (first ≡ success)
      × (second ≡ success)
      × ((u : Task) × (get id final ≡ some u) × (u.status ≡ completed))
unfolding cancel_task update_task_result
update_task_result-cancel_task now later id output table {t} found unfinished =
    let read_back = get-update_fields id (cancelled_at now) table (λ u. refl) found in
    let cancelled_row = cancelled_at now t in
    let written =
      get-update_fields id (with_result later output "" cancelled_row)
        (update_fields id (cancelled_at now) table) (λ u. refl) read_back in
    simp (found, unfinished, read_back, cancel_task, update_task_result)
      (refl, refl, (with_result later output "" cancelled_row cancelled_row, written, refl))

-- A task that its worker completes after CleanupTimedOutTasks has read it is marked as failed, and
-- the record of its execution is left as the worker's result has it.
pub check_timeout-overwrites :
    (limits : String → Option ℤ) (default : ℤ) (text : String) (now start : Time) (id : String)
    (seen table : Table) {t u : Task}
    → get id seen ≡ some t
    → t.started_at ≡ some start
    → is_in_progress t.status ≡ true
    → ltb_ℤ (limit_of (limits t.endpoint) default) (since now start) ≡ true
    → get id table ≡ some u
    → (v : Task) × (get id (check_timeout limits default text faultless now id seen table) ≡ some v)
      × (v.status ≡ failed)
      × (v.extend ≡ u.extend)
      × (v.worker_id ≡ u.worker_id)
unfolding check_timeout
check_timeout-overwrites limits default text now start id seen table {t} {u} found at running late
      now_there =
    let written = get-update_fields id (timed_out now text) table (λ u. refl) now_there in
    simp (found, at, running, late, check_timeout) (timed_out now text u, written, refl, refl, refl)
