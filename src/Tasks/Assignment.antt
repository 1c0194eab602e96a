-- ===== src/Tasks/Assignment.antt =====
-- Which tasks a worker is given.
use waverless.Base.{
  ℕ, zero, suc, ◌≤◌, none, ◌++◌, pos, ◌≡◌, ◌≢◌, inl, inr, refl, sym, eq_iff, true, false, some,
  List, [], ◌∷◌, map, String, length, select, All, All-map, Bool-cases, ◌==◌, Time, arith,
}
use mathlib.Core.List.{Memᴰ}
use waverless.Tasks.Table.{
  TaskStatus, pending, in_progress, completed, failed, cancelled, is_pending, Task, Table, limit_to,
  save_row, save_rows, assigned_to, waits_for, picked, select_and_assign_tasks,
}

module _ (P : Task → Type 0) where
  pub All-limit_to : (n : ℕ) (ts : List Task) → All P ts → All P (limit_to n ts)
  unfolding limit_to
  All-limit_to zero ts h = tt
  All-limit_to (suc n) [] h = tt
  All-limit_to (suc n) (t ∷ ts) h = (h.0, All-limit_to n ts h.1)

length-limit_to : (n : ℕ) (ts : List Task) → length (limit_to n ts) ≤ n
unfolding limit_to
length-limit_to zero ts = omega arith
length-limit_to (suc n) [] = omega arith
length-limit_to (suc n) (t ∷ ts) = omega (arith, length-limit_to n ts)

length-map : (f : Task → Task) (ts : List Task) → length (map f ts) ≡ length ts
length-map f [] = refl
length-map f (t ∷ ts) = omega (arith, length-map f ts)

-- A row with this primary key is not pending.
abbrev Taken : ℕ → Task → Type 0
Taken id t = t.id ≡ id → is_pending t.status ≡ false

save_row-takes :
    (t : Task) (table : Table) → is_pending t.status ≡ false → All (Taken t.id) (save_row t table)
unfolding save_row
save_row-takes t [] h = tt
save_row-takes t (u ∷ table) h = elim (Bool-cases (u.id == t.id)) [
  | inl same ↦ rw same (λ e. h, save_row-takes t table h)
  | inr other ↦ rw other (λ e. ground arith, save_row-takes t table h)
]

save_row-keeps :
    (id : ℕ) (t : Task) (table : Table)
    → is_pending t.status ≡ false
    → All (Taken id) table
    → All (Taken id) (save_row t table)
unfolding save_row
save_row-keeps id t [] h k = tt
save_row-keeps id t (u ∷ table) h k = elim (Bool-cases (u.id == t.id)) [
  | inl same ↦ rw same (λ e. h, save_row-keeps id t table h k.1)
  | inr other ↦ rw other (k.0, save_row-keeps id t table h k.1)
]

abbrev Busy : List Task → Type 0
Busy = All (λ t. is_pending t.status ≡ false)

save_rows-keeps :
    (id : ℕ) (ts : List Task) (table : Table)
    → Busy ts
    → All (Taken id) table
    → All (Taken id) (save_rows ts table)
unfolding save_rows
save_rows-keeps id [] table h k = k
save_rows-keeps id (t ∷ ts) table h k =
    save_rows-keeps id ts (save_row t table) h.1 (save_row-keeps id t table h.0 k)

-- After the rows are saved, no row with the key of one of them is pending.
save_rows-takes :
    (ts : List Task) (table : Table) → Busy ts → All (λ t. All (Taken t.id) (save_rows ts table)) ts
unfolding save_rows
save_rows-takes [] table h = tt
save_rows-takes (t ∷ ts) table h = (
  save_rows-keeps t.id ts (save_row t table) h.1 (save_row-takes t table h.0),
  save_rows-takes ts (save_row t table) h.1,
)

picked-Busy :
    (endpoint : String) (limit : ℕ) (worker : String) (now : Time) (table : Table)
    → Busy (picked endpoint limit worker now table)
unfolding picked
picked-Busy endpoint limit worker now table =
    busy (limit_to limit (select (waits_for endpoint) table))
  where
    busy : (ts : List Task) → Busy (map (assigned_to worker now) ts)
    busy [] = tt
    busy (t ∷ ts) = (refl, busy ts)

waits_for-avoids :
    (endpoint : String) (id : ℕ) (table : Table)
    → All (Taken id) table
    → All (λ u. u.id ≢ id) (select (waits_for endpoint) table)
waits_for-avoids endpoint id [] k = tt
waits_for-avoids endpoint id (u ∷ table) k = elim (Bool-cases (waits_for endpoint u)) [
  | inl waits ↦ rw waits (λ same. ground (arith, k.0 same), waits_for-avoids endpoint id table k.1)
  | inr other ↦ rw other (waits_for-avoids endpoint id table k.1)
]

assigned-avoids :
    (worker : String) (now : Time) (id : ℕ) (ts : List Task)
    → All (λ u. u.id ≢ id) ts
    → All (λ u. u.id ≢ id) (map (assigned_to worker now) ts)
assigned-avoids worker now id [] h = tt
assigned-avoids worker now id (t ∷ ts) h = (h.0, assigned-avoids worker now id ts h.1)

picked-avoids :
    (endpoint : String) (limit : ℕ) (worker : String) (now : Time) (id : ℕ) (table : Table)
    → All (Taken id) table
    → All (λ u. u.id ≢ id) (picked endpoint limit worker now table)
unfolding picked
picked-avoids endpoint limit worker now id table k =
    assigned-avoids worker now id (limit_to limit (select (waits_for endpoint) table)) (
      All-limit_to (λ u. u.id ≢ id) limit (select (waits_for endpoint) table)
        (waits_for-avoids endpoint id table k))

-- Two pulls that follow each other, by whatever workers and from whatever endpoints, hand out no
-- task twice.
pub select_and_assign_tasks-disjoint :
    (endpoint endpoint' : String) (limit limit' : ℕ) (worker worker' : String) (now now' : Time)
    (table : Table) {first second : List Task}
    → let (given, after) = select_and_assign_tasks true endpoint limit worker now table in
      given ≡ some first
      → (select_and_assign_tasks true endpoint' limit' worker' now' after).0 ≡ some second
      → All (λ t. All (λ u. u.id ≢ t.id) second) first
unfolding select_and_assign_tasks
select_and_assign_tasks-disjoint endpoint endpoint' limit limit' worker worker' now now' table
      {first} {second} one two =
    let after = save_rows (picked endpoint limit worker now table) table in
    let is_first : picked endpoint limit worker now table ≡ first = cc in
    let is_second : picked endpoint' limit' worker' now' after ≡ second = cc in
    rw (sym is_first) (
      rw (sym is_second) (
        All-map (λ t. All (Taken t.id) after)
          (λ t. All (λ u. u.id ≢ t.id) (picked endpoint' limit' worker' now' after))
          (picked endpoint limit worker now table)
          (λ t k. picked-avoids endpoint' limit' worker' now' t.id after k)
          (save_rows-takes (picked endpoint limit worker now table) table
            (picked-Busy endpoint limit worker now table))))

-- What a pull hands out: a task that waited in the table at that endpoint, under its own name, now
-- in progress at the worker from now on, with one more record of execution.
pub record IsHandedOut (endpoint worker : String) (now : Time) (table : Table) (t : Task)
    : Type 0 where
  pub before : Task
  pub stood : Memᴰ before table
  pub waited : before.status ≡ pending
  pub there : before.endpoint ≡ endpoint
  pub same : t.id ≡ before.id
  pub named : t.task_id ≡ before.task_id
  pub still_there : t.endpoint ≡ endpoint
  pub taken : t.status ≡ in_progress
  pub by_worker : t.worker_id ≡ worker
  pub from_now : t.started_at ≡ some now
  pub recorded :
      t.extend
      ≡ before.extend
        ++ record { worker_id = worker; start_time = now; end_time = none; duration_ms = pos 0 }
          ∷ []

waiting_rows :
    (endpoint : String) (table : Table)
    → All (λ u. Memᴰ u table × (waits_for endpoint u ≡ true)) (select (waits_for endpoint) table)
waiting_rows endpoint [] = tt
waiting_rows endpoint (u ∷ table) =
    let rest =
      All-map (λ v. Memᴰ v table × (waits_for endpoint v ≡ true))
        (λ v. Memᴰ v (u ∷ table) × (waits_for endpoint v ≡ true))
        (select (waits_for endpoint) table) (λ v h. (Memᴰ.tail h.0, h.1))
        (waiting_rows endpoint table) in
    elim (Bool-cases (waits_for endpoint u)) [
      | inl waits ↦ rw waits ((Memᴰ.head refl, waits), rest)
      | inr other ↦ rw other rest
    ]

pub is_pending_sound : (s : TaskStatus) → is_pending s ≡ true → s ≡ pending
is_pending_sound pending h = refl
is_pending_sound in_progress h = cc
is_pending_sound completed h = cc
is_pending_sound failed h = cc
is_pending_sound cancelled h = cc

handed_out :
    (endpoint worker : String) (now : Time) (table : Table) (ts : List Task)
    → All (λ u. Memᴰ u table × (waits_for endpoint u ≡ true)) ts
    → All (IsHandedOut endpoint worker now table) (map (assigned_to worker now) ts)
handed_out endpoint worker now table [] h = tt
handed_out endpoint worker now table (u ∷ ts) h = (
  record {
    before = u;
    stood = h.0.0;
    waited = is_pending_sound u.status (ground (arith, h.0.1));
    there = ground (arith, h.0.1, eq_iff u.endpoint endpoint);
    same = refl;
    named = refl;
    still_there = ground (arith, h.0.1, eq_iff u.endpoint endpoint);
    taken = refl;
    by_worker = refl;
    from_now = refl;
    recorded = refl;
  },
  handed_out endpoint worker now table ts h.1,
)

-- A pull hands out at most as many tasks as it may, and each of them waited at that endpoint, keeps
-- its keys and its endpoint, is in progress at the worker with the time of the pull as its start, and
-- has one more record of execution, which names the worker and is open.
pub select_and_assign_tasks-IsHandedOut :
    (endpoint : String) (limit : ℕ) (worker : String) (now : Time) (table : Table) {ts : List Task}
    → (select_and_assign_tasks true endpoint limit worker now table).0 ≡ some ts
    → All (IsHandedOut endpoint worker now table) ts × (length ts ≤ limit)
unfolding select_and_assign_tasks picked
select_and_assign_tasks-IsHandedOut endpoint limit worker now table {ts} given =
    let waiting = select (waits_for endpoint) table in
    let is_given : map (assigned_to worker now) (limit_to limit waiting) ≡ ts = cc in
    rw (sym is_given) (
      handed_out endpoint worker now table (limit_to limit waiting) (
          All-limit_to (λ u. Memᴰ u table × (waits_for endpoint u ≡ true)) limit waiting
            (waiting_rows endpoint table)),
      omega (
        arith,
        length-limit_to limit waiting,
        length-map (assigned_to worker now) (limit_to limit waiting),
      ),
    )
