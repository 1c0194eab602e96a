-- ===== src/Autoscaler/Collector/Counts.antt =====
-- pkg/autoscaler/metrics_collector.go: the count of running tasks.
use waverless.Base.{
  ◌≡◌, refl, ap, ◌∙◌, Bool, false, ◌&&◌, some, List, [], ◌∷◌, String, str_eq, length, select,
  Bool-cases, inl, inr, arith, eq_iff,
}
use text.Mathlib.TextPositions.{eq_refl}
use waverless.Tasks.Table.{Task, Table, is_in_progress, get, get_in_progress_tasks}
use waverless.Tasks.Names.{has_name, names, Distinct}
use waverless.Autoscaler.Collector.{Reading, count_at, get_running_task_count}

module _ (endpoint : String) where
  abbrev pub runs_at : Task → Bool
  runs_at t = is_in_progress t.status && str_eq t.endpoint endpoint

  -- A name that is not in the first row is looked for in the others.
  get_skip :
      (t : Task) (table : Table) (id : String)
      → str_eq t.task_id id ≡ false
      → get id (t ∷ table) ≡ get id table
  get_skip t table id distinct = rw distinct refl

  count_at-skip :
      (t : Task) (table : Table) (ids : List String)
      → has_name ids t.task_id ≡ false
      → count_at (λ id. false) endpoint (t ∷ table) ids ≡ count_at (λ id. false) endpoint table ids
  unfolding count_at
  count_at-skip t table [] other = refl
  count_at-skip t table (id ∷ ids) other = ground (
    arith,
    eq_iff t.task_id id,
    eq_iff id t.task_id,
    other,
    count_at-skip t table ids (ground (arith, other)),
  )

  missing_in_progress :
      (table : Table) (id : String)
      → has_name (names table) id ≡ false
      → has_name (get_in_progress_tasks table) id ≡ false
  missing_in_progress [] id h = refl
  missing_in_progress (t ∷ table) id h = elim (Bool-cases (is_in_progress t.status)) [
    | inl runs ↦
        let later = missing_in_progress table id (ground (arith, h)) in
        let first : str_eq t.task_id id ≡ false = ground (arith, h) in simp (runs, first, later)
    | inr rests ↦ simp rests (missing_in_progress table id (ground (arith, h)))
  ]

  count_at-table :
      (table : Table)
      → Distinct (names table)
      → count_at (λ id. false) endpoint table (get_in_progress_tasks table)
        ≡ length (select runs_at table)
  unfolding count_at
  count_at-table [] distinct = refl
  count_at-table (t ∷ table) distinct =
      let rest =
        count_at-skip t table (get_in_progress_tasks table)
          (missing_in_progress table t.task_id distinct.0)
        ∙ count_at-table table distinct.1 in
      elim (Bool-cases (is_in_progress t.status)) [
        | inl runs ↦ elim (Bool-cases (str_eq t.endpoint endpoint)) [
          | inl here ↦ simp (runs, here, eq_refl, rest)
          | inr away ↦ simp (runs, away, eq_refl, rest)
        ]
        | inr rests ↦ simp (rests, rest)
      ]

-- The running tasks of an endpoint that the collector counts, where no statement fails, are the
-- rows that are in progress at that endpoint; no two rows may have the same task_id.
pub get_running_task_count-table :
    (r : Reading) (endpoint : String)
    → r.list_fails ≡ false
    → r.get_fails ≡ (λ id. false)
    → str_eq endpoint "" ≡ false
    → Distinct (names r.tasks)
    → get_running_task_count r endpoint ≡ some (length (select (runs_at endpoint) r.tasks))
unfolding get_running_task_count
get_running_task_count-table r endpoint lists gets named distinct =
    rw (lists, named, gets) (ap some (count_at-table endpoint r.tasks distinct))
