-- ===== src/Tasks/Orphans.antt =====
-- What CleanupOrphanedTasks achieves when nothing fails and nothing else writes.
use waverless.Base.{
  ◌≡◌, ◌⊎◌, inl, inr, refl, Bool, true, false, not, ◌&&◌, ◌||◌, some, List, [], ◌∷◌, String, str_eq,
  All, All-map, Bool-cases, Option-cases, ap, ◌∙◌, Time, arith, eq_iff,
}
use text.Mathlib.TextPositions.{eq_refl}
use waverless.Tasks.Table.{
  is_in_progress, Task, Table, complete_current_execution, get, runs, update_running,
  get_in_progress_tasks,
}
use waverless.Tasks.Service.{
  requeued, requeue_orphaned_task, check_orphan, check_orphans, cleanup_orphaned_tasks,
}
use waverless.Tasks.Races.{faultless}
use waverless.Tasks.Names.{
  has_name, names, Distinct, get_named, missing_differ, get_only, names-update_running,
}

module _ (is_alive : String → Bool) (now : Time) where
  -- The task does not run, or it runs on a worker that lives.
  abbrev pub is_settled : Task → Bool
  is_settled t =
      not (is_in_progress t.status) || (not (str_eq t.worker_id "") && is_alive t.worker_id)

  -- Every row is settled or still to be checked.
  abbrev Pending : List String → Table → Type 0
  Pending ids = All (λ u. (is_settled u ≡ true) ⊎ (has_name ids u.task_id ≡ true))

  abbrev check : String → Table → Table
  check id table = check_orphan is_alive faultless now id table table

  -- A check requeues its task, or finds it settled or missing.
  check_cases :
      (id : String) (table : Table)
      → ((check id table ≡ table) × ((t : Task) → get id table ≡ some t → is_settled t ≡ true))
        ⊎ ((t : Task) × (str_eq t.task_id id ≡ true)
            × (check id table ≡ update_running t.task_id (requeued now t) table))
  unfolding check_orphan requeue_orphaned_task
  check_cases id table = elim (Option-cases (get id table)) [
    | inl missing ↦ inl (rw (missing, check_orphan) refl, λ t e. cc)
    | inr (t, found) ↦
        let named = get_named id table found in
        let only : (settled : is_settled t ≡ true) (u : Task)
            → get id table ≡ some u
            → is_settled u ≡ true =
          λ settled u e. ground (arith, settled, found, e) in
        elim (Bool-cases (is_in_progress t.status)) [
          | inr over ↦ inl (simp (found, over, check_orphan) refl, only (simp over))
          | inl runs_on ↦ elim (Bool-cases (str_eq t.worker_id "")) [
            | inl nobody ↦
                inr (
                  t,
                  named,
                  simp (found, runs_on, nobody, check_orphan, requeue_orphaned_task) refl,
                )
            | inr somebody ↦ elim (Bool-cases (is_alive t.worker_id)) [
              | inl lives ↦ inl (
                simp (found, runs_on, somebody, lives, check_orphan) refl,
                only (simp (runs_on, somebody, lives)),
              )
              | inr gone ↦ inr (
                record t { extend = complete_current_execution now t.extend },
                named,
                simp (found, runs_on, somebody, gone, check_orphan, requeue_orphaned_task) refl,
              )
            ]
          ]
        ]
  ]

  -- Where the task of a name is settled, its name need not be checked any more.
  checked :
      (id : String) (ids : List String) (table : Table)
      → All (λ u. str_eq u.task_id id ≡ true → is_settled u ≡ true) table
      → Pending (id ∷ ids) table
      → Pending ids table
  checked id ids [] c p = tt
  checked id ids (u ∷ table) c p = (
    elim p.0 [
      | inl settled ↦ inl settled
      | inr waits ↦ elim (Bool-cases (str_eq u.task_id id)) [
        | inl named ↦ inl (c.0 named)
        | inr other ↦ inr (ground (arith, waits, other, eq_iff id u.task_id, eq_iff u.task_id id))
      ]
    ],
    checked id ids table c.1 p.1,
  )

  settled_rows :
      (id : String) (table : Table)
      → Distinct (names table)
      → ((t : Task) → get id table ≡ some t → is_settled t ≡ true)
      → All (λ u. str_eq u.task_id id ≡ true → is_settled u ≡ true) table
  settled_rows id table d settled = elim (Option-cases (get id table)) [
    | inl missing ↦
        All-map (λ u. str_eq u.task_id id ≡ false)
          (λ u. str_eq u.task_id id ≡ true → is_settled u ≡ true) table (λ u differs e. cc)
          (missing_differ id table missing)
    | inr (t, found) ↦
        All-map (λ u. str_eq u.task_id id ≡ true → u ≡ t)
          (λ u. str_eq u.task_id id ≡ true → is_settled u ≡ true) table
          (λ u same e. ap is_settled (same e) ∙ settled t found) (get_only id table d found)
  ]

  missed_row :
      (id : String) (ids : List String) (u : Task)
      → runs id u ≡ false
      → (is_settled u ≡ true) ⊎ (has_name (id ∷ ids) u.task_id ≡ true)
      → (is_settled u ≡ true) ⊎ (has_name ids u.task_id ≡ true)
  missed_row id ids u miss (inl settled) = inl settled
  missed_row id ids u miss (inr waits) = elim (Bool-cases (str_eq u.task_id id)) [
    | inl named ↦ inl (ground (arith, miss, named))
    | inr other ↦ inr (ground (arith, waits, other, eq_iff id u.task_id, eq_iff u.task_id id))
  ]

  requeued_rows :
      (id : String) (ids : List String) (t : Task) (table : Table)
      → t.task_id ≡ id
      → Pending (id ∷ ids) table
      → Pending ids (update_running t.task_id (requeued now t) table)
  unfolding update_running
  requeued_rows id ids t [] same p = tt
  requeued_rows id ids t (u ∷ table) same p =
      let rest = requeued_rows id ids t table same p.1 in
      elim (Bool-cases (runs t.task_id u)) [
        | inl hit ↦ rw hit (inl refl, rest)
        | inr miss ↦
            let still : runs id u ≡ false = rw same at miss in
            rw miss (missed_row id ids u still p.0, rest)
      ]

  check-Pending :
      (id : String) (ids : List String) (table : Table)
      → Distinct (names table)
      → Pending (id ∷ ids) table
      → Pending ids (check id table) × Distinct (names (check id table))
  check-Pending id ids table d p = elim (check_cases id table) [
    | inl (same, settled) ↦ rw same (checked id ids table (settled_rows id table d settled) p, d)
    | inr (t, named, done) ↦ rw done (
      requeued_rows id ids t table ((eq_iff t.task_id id).0 named) p,
      rw (names-update_running t.task_id (requeued now t) table (λ u. refl)) d,
    )
  ]

  check_orphans-Pending :
      (ids : List String) (table : Table)
      → Distinct (names table)
      → Pending ids table
      → Pending [] (check_orphans is_alive faultless now ids table)
  unfolding check_orphans
  check_orphans-Pending [] table d p = p
  check_orphans-Pending (id ∷ ids) table d p =
      let (p', d') = check-Pending id ids table d p in
      check_orphans-Pending ids (check id table) d' p'

  more_names :
      (r : Task) (table : Table) (n : String)
      → has_name (get_in_progress_tasks table) n ≡ true
      → has_name (get_in_progress_tasks (r ∷ table)) n ≡ true
  more_names r table n h = elim (Bool-cases (is_in_progress r.status)) [
    | inl runs_on ↦ simp runs_on (ground (arith, h))
    | inr over ↦ simp over h
  ]

  all-Pending : (table : Table) → Pending (get_in_progress_tasks table) table
  all-Pending [] = tt
  all-Pending (r ∷ table) = (
    elim (Bool-cases (is_in_progress r.status)) [
      | inl runs_on ↦ inr (simp (runs_on, eq_refl r.task_id))
      | inr over ↦ inl (simp over)
    ],
    All-map (λ u. (is_settled u ≡ true) ⊎ (has_name (get_in_progress_tasks table) u.task_id ≡ true))
        (λ u.
          (is_settled u ≡ true) ⊎ (has_name (get_in_progress_tasks (r ∷ table)) u.task_id ≡ true))
        table (λ u h. elim h [ inl s ↦ inl s | inr w ↦ inr (more_names r table u.task_id w) ])
        (all-Pending table),
  )

  -- After CleanupOrphanedTasks, when nothing fails and nothing else writes, every task that runs has
  -- a worker, and the worker lives; no two rows may have the same task_id.
  pub cleanup_orphaned_tasks-settled :
      (table : Table)
      → Distinct (names table)
      → All (λ t. is_settled t ≡ true) (cleanup_orphaned_tasks is_alive faultless now table)
  unfolding cleanup_orphaned_tasks
  cleanup_orphaned_tasks-settled table d =
      let after = check_orphans is_alive faultless now (get_in_progress_tasks table) table in
      All-map (λ u. (is_settled u ≡ true) ⊎ (has_name [] u.task_id ≡ true))
        (λ u. is_settled u ≡ true) after (λ u h. elim h [ inl s ↦ s | inr w ↦ cc ])
        (check_orphans-Pending (get_in_progress_tasks table) table d (all-Pending table))
