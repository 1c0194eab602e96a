-- ===== src/Tasks/Life.antt =====
-- What the fields of a task say in each state of its life, whoever writes them and in whatever order.
pub mod Methods
use waverless.Base.{
  ℕ, ltb_ℤ, since, ◌≡◌, inl, inr, refl, Bool, true, false, not, ◌&&◌, ◌||◌, Option, none, some,
  List, [], ◌∷◌, map, String, str_eq, ℤ, select, All, All-append, Bool-cases, Option-cases, ◌==◌,
  if◌then◌else◌, Time, arith,
}
use mathlib.Core.Path.{subst}
use waverless.Tasks.Table.{
  TaskStatus, pending, in_progress, completed, failed, cancelled, is_in_progress, is_finished, Task,
  Table, get, update_fields, update_running, runs, limit_to, save_row, save_rows, assigned_to,
  waits_for, picked, select_and_assign_tasks,
}
use waverless.Tasks.Assignment.{All-limit_to, is_pending_sound}
use waverless.Tasks.Service.{
  or_default, limit_of, in_grace, Faults, new_task, submit_task, cancelled_at, cancel_task,
  with_result, update_task_result, requeued, requeue_orphaned_task, check_orphan, timed_out,
  check_timeout, reclaimed, reclaim_task,
}

-- A task that waits or was cancelled has no worker and no times, one that runs has started and not
-- ended, and one that is finished has ended.
abbrev pub Shape : TaskStatus → Task → Type 0
Shape pending t = (t.worker_id ≡ "") × (t.started_at ≡ none) × (t.completed_at ≡ none)
Shape in_progress t = ((s : Time) × (t.started_at ≡ some s)) × (t.completed_at ≡ none)
Shape completed t = (s : Time) × (t.completed_at ≡ some s)
Shape failed t = (s : Time) × (t.completed_at ≡ some s)
Shape cancelled t = (t.worker_id ≡ "") × (t.started_at ≡ none) × (t.completed_at ≡ none)

pub record IsWell (t : Task) : Type 0 where
  pub shape : Shape t.status t

-- A write that makes every row that it changes well-formed.
pub update_fields-IsWell :
    (id : String) (change : Task → Task) (table : Table)
    → ((t : Task) → IsWell (change t))
    → All IsWell table
    → All IsWell (update_fields id change table)
unfolding update_fields
update_fields-IsWell id change [] well h = tt
update_fields-IsWell id change (t ∷ table) well h = elim (Bool-cases (str_eq t.task_id id)) [
  | inl e ↦ rw e (well t, update_fields-IsWell id change table well h.1)
  | inr e ↦ rw e (h.0, update_fields-IsWell id change table well h.1)
]

pub update_running-IsWell :
    (id : String) (change : Task → Task) (table : Table)
    → ((t : Task) → IsWell (change t))
    → All IsWell table
    → All IsWell (update_running id change table)
unfolding update_running
update_running-IsWell id change [] well h = tt
update_running-IsWell id change (t ∷ table) well h = elim (Bool-cases (runs id t)) [
  | inl e ↦ rw e (well t, update_running-IsWell id change table well h.1)
  | inr e ↦ rw e (h.0, update_running-IsWell id change table well h.1)
]

save_rows-IsWell :
    (ts : List Task) (table : Table)
    → All IsWell ts
    → All IsWell table
    → All IsWell (save_rows ts table)
unfolding save_rows save_row
save_rows-IsWell [] table w h = h
save_rows-IsWell (t ∷ ts) table w h = save_rows-IsWell ts (save_row t table) w.1 (saved table h)
  where
    saved :
        (table : Table)
        → All IsWell table
        → All IsWell (map (λ u. if u.id == t.id then t else u) table)
    saved [] h = tt
    saved (u ∷ table) h = elim (Bool-cases (u.id == t.id)) [
      | inl e ↦ rw e (w.0, saved table h.1)
      | inr e ↦ rw e (h.0, saved table h.1)
    ]

waiting-IsWell :
    (endpoint : String) (table : Table)
    → All IsWell table
    → All (λ u. IsWell u × (u.status ≡ pending)) (select (waits_for endpoint) table)
waiting-IsWell endpoint [] h = tt
waiting-IsWell endpoint (u ∷ table) h = elim (Bool-cases (waits_for endpoint u)) [
  | inl waits ↦
      rw waits (
        (h.0, is_pending_sound u.status (ground (arith, waits))),
        waiting-IsWell endpoint table h.1,
      )
  | inr other ↦ rw other (waiting-IsWell endpoint table h.1)
]

assigned-IsWell :
    (worker : String) (now : Time) (ts : List Task)
    → All (λ u. IsWell u × (u.status ≡ pending)) ts
    → All IsWell (map (assigned_to worker now) ts)
assigned-IsWell worker now [] h = tt
assigned-IsWell worker now (u ∷ ts) h =
    let waits : Shape pending u = subst (λ s. Shape s u) h.0.1 h.0.0.shape in
    (record { shape = ((now, refl), waits.2) }, assigned-IsWell worker now ts h.1)

pub select_and_assign_tasks-IsWell :
    (commits : Bool) (endpoint : String) (limit : ℕ) (worker : String) (now : Time) (table : Table)
    → All IsWell table
    → All IsWell (select_and_assign_tasks commits endpoint limit worker now table).1
unfolding select_and_assign_tasks picked
select_and_assign_tasks-IsWell false endpoint limit worker now table h = h
select_and_assign_tasks-IsWell true endpoint limit worker now table h =
    let waiting = select (waits_for endpoint) table in
    save_rows-IsWell (map (assigned_to worker now) (limit_to limit waiting)) table
      (assigned-IsWell worker now (limit_to limit waiting) (
        All-limit_to (λ u. IsWell u × (u.status ≡ pending)) limit waiting
          (waiting-IsWell endpoint table h)))
      h
