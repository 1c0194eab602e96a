-- ===== src/Tasks/Runs.antt =====
-- The writes of all methods, in any order, each from whatever table its method has read.
use waverless.Base.{ℕ, Bool, List, [], ◌∷◌, String, ℤ, Option, All, Time}
use waverless.Tasks.Table.{Task, Table, select_and_assign_tasks}
use waverless.Tasks.Service.{
  Faults, submit_task, cancel_task, update_task_result, check_orphan, check_timeout, reclaim_task,
}
use waverless.Tasks.Life.{IsWell, select_and_assign_tasks-IsWell}
use waverless.Tasks.Life.Methods.{
  submit_task-IsWell, cancel_task-IsWell, update_task_result-IsWell, check_orphan-IsWell,
  check_timeout-IsWell, reclaim_task-IsWell,
}

pub data Event : Type 0 where
  submits : (String → Bool) → Faults → ℕ → String → String → String → Event
  pulls : Bool → String → ℕ → String → Event
  cancels : Faults → String → Table → Event
  reports : Faults → String → String → String → Table → Event
  looks_for_orphan : (String → Bool) → Faults → String → Table → Event
  looks_for_timeout : (String → Option ℤ) → ℤ → String → Faults → String → Table → Event
  reclaims : ℤ → Faults → Task → Event

unfoldable pub step : Time → Event → Table → Table
step now (submits exists f id task_id endpoint webhook) table =
    (submit_task exists f id task_id endpoint webhook now table).1
step now (pulls commits endpoint limit worker) table =
    (select_and_assign_tasks commits endpoint limit worker now table).1
step now (cancels f id seen) table = (cancel_task f now id seen table).1
step now (reports f id output error seen) table =
    (update_task_result f now id output error seen table).1
step now (looks_for_orphan is_alive f id seen) table = check_orphan is_alive f now id seen table
step now (looks_for_timeout limits default text f id seen) table =
    check_timeout limits default text f now id seen table
step now (reclaims grace f t) table = reclaim_task grace f now t table

unfoldable pub run : List (Time × Event) → Table → Table
unfolding step
run [] table = table
run (e ∷ es) table = run es (step e.0 e.1 table)

step-IsWell :
    (now : Time) (e : Event) (table : Table) → All IsWell table → All IsWell (step now e table)
unfolding step
step-IsWell now (submits exists f id task_id endpoint webhook) table h =
    submit_task-IsWell exists f id task_id endpoint webhook now table h
step-IsWell now (pulls commits endpoint limit worker) table h =
    select_and_assign_tasks-IsWell commits endpoint limit worker now table h
step-IsWell now (cancels f id seen) table h = cancel_task-IsWell f now id seen table h
step-IsWell now (reports f id output error seen) table h =
    update_task_result-IsWell f now id output error seen table h
step-IsWell now (looks_for_orphan is_alive f id seen) table h =
    check_orphan-IsWell is_alive f now id seen table h
step-IsWell now (looks_for_timeout limits default text f id seen) table h =
    check_timeout-IsWell limits default text f now id seen table h
step-IsWell now (reclaims grace f t) table h = reclaim_task-IsWell grace f now t table h

-- Whatever methods write to the table, in whatever order and from however old a read, every task
-- that waits or was cancelled has no worker and no times, every task that runs has started and not
-- ended, and every finished task has ended.
pub run-IsWell :
    (es : List (Time × Event)) (table : Table) → All IsWell table → All IsWell (run es table)
unfolding run
run-IsWell [] table h = h
run-IsWell (e ∷ es) table h = run-IsWell es (step e.0 e.1 table) (step-IsWell e.0 e.1 table h)
