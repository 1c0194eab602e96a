-- ===== src/Tasks/Life/Methods.antt =====
-- Every method of the task service keeps all rows well-formed, from however old a read.
use waverless.Base.{
  ℕ, ltb_ℤ, since, inl, inr, refl, Bool, not, ◌&&◌, ◌||◌, Option, [], ◌∷◌, String, str_eq, ℤ, All,
  All-append, Bool-cases, Option-cases, Time,
}
use waverless.Tasks.Table.{is_in_progress, is_finished, Task, Table, get}
use waverless.Tasks.Service.{
  or_default, limit_of, in_grace, Faults, new_task, submit_task, cancelled_at, cancel_task,
  with_result, update_task_result, requeued, requeue_orphaned_task, check_orphan, timed_out,
  check_timeout, reclaimed, reclaim_task,
}
use waverless.Tasks.Life.{IsWell, update_fields-IsWell, update_running-IsWell}

with_result-IsWell :
    (now : Time) (output error : String) (t u : Task) → IsWell (with_result now output error t u)
with_result-IsWell now output error t u = elim (Bool-cases (str_eq error "")) [
  | inl none_given ↦ simp none_given (record { shape = (now, refl) })
  | inr given ↦ simp given (record { shape = (now, refl) })
]

pub update_task_result-IsWell :
    (f : Faults) (now : Time) (id output error : String) (seen table : Table)
    → All IsWell table
    → All IsWell (update_task_result f now id output error seen table).1
unfolding update_task_result
update_task_result-IsWell f now id output error seen table h = elim (Bool-cases f.reads) [
  | inl down ↦ simp (down, update_task_result) h
  | inr up ↦ elim (Option-cases (get id seen)) [
    | inl missing ↦ simp (up, missing, update_task_result) h
    | inr (t, found) ↦ elim (Bool-cases f.writes) [
      | inl lost ↦ simp (up, found, lost, update_task_result) h
      | inr kept ↦
          simp (up, found, kept, update_task_result)
            (update_fields-IsWell id (with_result now output error t) table
              (with_result-IsWell now output error t) h)
    ]
  ]
]

pub submit_task-IsWell :
    (exists : String → Bool) (f : Faults) (id : ℕ) (task_id endpoint webhook : String) (now : Time)
    (table : Table)
    → All IsWell table
    → All IsWell (submit_task exists f id task_id endpoint webhook now table).1
unfolding submit_task
submit_task-IsWell exists f id task_id endpoint webhook now table h =
    elim (Bool-cases (exists (or_default endpoint))) [
      | inr missing ↦ simp (missing, submit_task) h
      | inl there ↦ elim (Bool-cases f.writes) [
        | inl lost ↦ simp (there, lost, submit_task) h
        | inr kept ↦
            simp (there, kept, submit_task)
              (All-append IsWell table (new_task id task_id endpoint webhook now ∷ []) h
                (record { shape = (refl, refl, refl) }, tt))
      ]
    ]

pub cancel_task-IsWell :
    (f : Faults) (now : Time) (id : String) (seen table : Table)
    → All IsWell table
    → All IsWell (cancel_task f now id seen table).1
unfolding cancel_task
cancel_task-IsWell f now id seen table h = elim (Bool-cases f.reads) [
  | inl down ↦ simp (down, cancel_task) h
  | inr up ↦ elim (Option-cases (get id seen)) [
    | inl missing ↦ simp (up, missing, cancel_task) h
    | inr (t, found) ↦ elim (Bool-cases (is_finished t.status)) [
      | inl over ↦ simp (up, found, over, cancel_task) h
      | inr runs_on ↦ elim (Bool-cases f.writes) [
        | inl lost ↦ simp (up, found, runs_on, lost, cancel_task) h
        | inr kept ↦
            simp (up, found, runs_on, kept, cancel_task)
              (update_fields-IsWell id (cancelled_at now) table
                (λ u. record { shape = (refl, refl, refl) }) h)
      ]
    ]
  ]
]

requeue_orphaned_task-IsWell :
    (f : Faults) (now : Time) (t : Task) (table : Table)
    → All IsWell table
    → All IsWell (requeue_orphaned_task f now t table)
unfolding requeue_orphaned_task
requeue_orphaned_task-IsWell f now t table h = elim (Bool-cases (f.writes || f.events)) [
  | inl lost ↦ rw lost h
  | inr kept ↦ rw kept (
      update_running-IsWell t.task_id (requeued now t) table
        (λ u. record { shape = (refl, refl, refl) }) h)
]

pub check_orphan-IsWell :
    (is_alive : String → Bool) (f : Faults) (now : Time) (id : String) (seen table : Table)
    → All IsWell table
    → All IsWell (check_orphan is_alive f now id seen table)
unfolding check_orphan
check_orphan-IsWell is_alive f now id seen table h = elim (Bool-cases f.reads) [
  | inl down ↦ simp (down, check_orphan) h
  | inr up ↦ elim (Option-cases (get id seen)) [
    | inl missing ↦ simp (up, missing, check_orphan) h
    | inr (t, found) ↦ elim (Bool-cases (is_in_progress t.status)) [
      | inr over ↦ simp (up, found, over, check_orphan) h
      | inl runs_on ↦ elim (Bool-cases (str_eq t.worker_id "")) [
        | inl nobody ↦
            simp (up, found, runs_on, nobody, check_orphan)
              (requeue_orphaned_task-IsWell f now t table h)
        | inr somebody ↦ elim (Bool-cases (is_alive t.worker_id)) [
          | inl lives ↦ simp (up, found, runs_on, somebody, lives, check_orphan) h
          | inr gone ↦
              simp (up, found, runs_on, somebody, gone, check_orphan)
                (requeue_orphaned_task-IsWell f now _ table h)
        ]
      ]
    ]
  ]
]

pub check_timeout-IsWell :
    (limits : String → Option ℤ) (default : ℤ) (text : String) (f : Faults) (now : Time)
    (id : String) (seen table : Table)
    → All IsWell table
    → All IsWell (check_timeout limits default text f now id seen table)
unfolding check_timeout
check_timeout-IsWell limits default text f now id seen table h = elim (Bool-cases f.reads) [
  | inl down ↦ simp (down, check_timeout) h
  | inr up ↦ elim (Option-cases (get id seen)) [
    | inl missing ↦ simp (up, missing, check_timeout) h
    | inr (t, found) ↦ elim (Option-cases t.started_at) [
      | inl never ↦ simp (up, found, never, check_timeout) h
      | inr (start, at) ↦ elim (Bool-cases (late_to_write t start)) [
        | inl late ↦
            simp (up, found, at, late, check_timeout)
              (update_fields-IsWell id (timed_out now text) table
                (λ u. record { shape = (now, refl) }) h)
        | inr early ↦ simp (up, found, at, early, check_timeout) h
      ]
    ]
  ]
]
  where
    late_to_write : Task → Time → Bool
    late_to_write t start =
        is_in_progress t.status
        && ltb_ℤ (limit_of (limits t.endpoint) default) (since now start)
        && not f.writes

pub reclaim_task-IsWell :
    (grace : ℤ) (f : Faults) (now : Time) (t : Task) (table : Table)
    → All IsWell table
    → All IsWell (reclaim_task grace f now t table)
unfolding reclaim_task
reclaim_task-IsWell grace f now t table h =
    elim (Bool-cases
      (not (is_in_progress t.status) || in_grace grace now t.started_at || f.writes)) [
        | inl kept ↦ simp (kept, reclaim_task) h
        | inr taken ↦
            simp (taken, reclaim_task)
              (update_fields-IsWell t.task_id (reclaimed now) table
                (λ u. record { shape = (refl, refl, refl) }) h)
      ]
