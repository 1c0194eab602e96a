-- ===== src/Tasks/Tests.antt =====
-- The theorems on tasks at concrete inputs.
use waverless.Base.{
  ◌≤◌, ◌≡◌, ◌≢◌, refl, true, false, none, List, [], ◌∷◌, pos, length, All, Pointwise, Time,
}
use waverless.Tasks.Table.{
  Task, Table, assigned_to, picked, limit_to, select_and_assign_tasks, save_rows, save_row,
}
use waverless.Tasks.Service.{new_task, requeue_orphaned_task, cleanup_orphaned_tasks}
use waverless.Tasks.Assignment.{
  IsHandedOut, select_and_assign_tasks-disjoint, select_and_assign_tasks-IsHandedOut,
}
use waverless.Tasks.Life.{IsWell}
use waverless.Tasks.Runs.{
  Event, submits, pulls, cancels, reports, looks_for_timeout, run, run-IsWell,
}
use waverless.Tasks.Orphans.{is_settled, cleanup_orphaned_tasks-settled}
use waverless.Tasks.Races.{IsSparedOr, faultless, requeue_orphaned_task-spares}

abbrev first_task : Task
first_task = new_task 1 "a" "e" "" 1000

abbrev second_task : Task
second_task = new_task 2 "b" "e" "" 2000

abbrev queue : Table
queue = first_task ∷ second_task ∷ []

abbrev running : Table
running = assigned_to "w" 5000 first_task ∷ second_task ∷ []

after_first : (select_and_assign_tasks true "e" 1 "w" 5000 queue).1 ≡ running
unfolding select_and_assign_tasks picked limit_to save_rows save_row
after_first = refl

select_and_assign_tasks-disjoint_example :
    All
      (λ t.
        All
          (λ u. u.id ≢ t.id)
          (picked "e" 4 "v" 6000 (select_and_assign_tasks true "e" 1 "w" 5000 queue).1))
      (picked "e" 1 "w" 5000 queue)
unfolding select_and_assign_tasks
select_and_assign_tasks-disjoint_example =
    select_and_assign_tasks-disjoint "e" "e" 1 4 "w" "v" 5000 6000 queue refl refl

select_and_assign_tasks-IsHandedOut_example :
    All (IsHandedOut "e" "w" 5000 queue) (picked "e" 1 "w" 5000 queue)
    × (length (picked "e" 1 "w" 5000 queue) ≤ 1)
unfolding select_and_assign_tasks
select_and_assign_tasks-IsHandedOut_example =
    select_and_assign_tasks-IsHandedOut "e" 1 "w" 5000 queue refl

abbrev day : List (Time × Event)
day =
    (1000, submits (λ e. true) faultless 3 "c" "e" "")
    ∷ (5000, pulls true "e" 2 "w")
    ∷ (6000, cancels faultless "a" queue)
    ∷ (7000, reports faultless "b" "done" "" running)
    ∷ (9000, looks_for_timeout (λ e. none) (pos 100) "late" faultless "a" running)
    ∷ []

run-IsWell_example : All IsWell (run day queue)
run-IsWell_example =
    run-IsWell day queue
      (record { shape = (refl, refl, refl) }, (record { shape = (refl, refl, refl) }, tt))

requeue_orphaned_task-spares_example :
    Pointwise (IsSparedOr "a") running (requeue_orphaned_task faultless 8000 first_task running)
requeue_orphaned_task-spares_example =
    requeue_orphaned_task-spares faultless 8000 first_task running

-- The worker of the first task is gone.
cleanup_orphaned_tasks-settled_example :
    All
      (λ t. is_settled (λ w. false) 9000 t ≡ true)
      (cleanup_orphaned_tasks (λ w. false) faultless 9000 running)
cleanup_orphaned_tasks-settled_example =
    cleanup_orphaned_tasks-settled (λ w. false) 9000 running (refl, (refl, tt))
