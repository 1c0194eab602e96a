-- ===== src/Tasks/Names.antt =====
-- The names of the tasks of a table, which are distinct.
use waverless.Base.{
  ◌≡◌, inl, inr, refl, Bool, true, false, ◌||◌, none, some, List, [], ◌∷◌, map, String, str_eq, All,
  All-map, Bool-cases, ap, arith, eq_iff,
}
use waverless.Tasks.Table.{Task, Table, get, runs, update_running}

abbrev pub has_name : List String → String → Bool
has_name [] n = false
has_name (m ∷ ms) n = str_eq m n || has_name ms n

abbrev pub names : Table → List String
names = map (λ t. t.task_id)

-- No two rows have the same `task_id`, which is a unique index of the table.
abbrev pub Distinct : List String → Type 0
Distinct [] = Unit
Distinct (m ∷ ms) = (has_name ms m ≡ false) × Distinct ms

pub get_named :
    (id : String) (table : Table) {t : Task} → get id table ≡ some t → str_eq t.task_id id ≡ true
get_named id [] found = cc
get_named id (u ∷ table) {t} found = elim (Bool-cases (str_eq u.task_id id)) [
  | inl here ↦ ground (arith, found, here)
  | inr other ↦
      let later : get id table ≡ some t = ground (arith, found) in get_named id table later
]

others_differ :
    (id : String) (table : Table)
    → has_name (names table) id ≡ false
    → All (λ u. str_eq u.task_id id ≡ false) table
others_differ id [] h = tt
others_differ id (u ∷ table) h = (ground (arith, h), others_differ id table (ground (arith, h)))

pub missing_differ :
    (id : String) (table : Table)
    → get id table ≡ none
    → All (λ u. str_eq u.task_id id ≡ false) table
missing_differ id [] h = tt
missing_differ id (u ∷ table) h = (ground (arith, h), missing_differ id table (ground (arith, h)))

-- The row that `get` finds is the only one with its name.
pub get_only :
    (id : String) (table : Table) {t : Task}
    → Distinct (names table)
    → get id table ≡ some t
    → All (λ u. str_eq u.task_id id ≡ true → u ≡ t) table
get_only id [] d found = tt
get_only id (r ∷ table) {t} d found = elim (Bool-cases (str_eq r.task_id id)) [
  | inl here ↦
      let is_t : r ≡ t = ground (arith, found) in
      let same : r.task_id ≡ id = (eq_iff r.task_id id).0 here in
      (
        (λ e. is_t),
        All-map (λ u. str_eq u.task_id r.task_id ≡ false) (λ u. str_eq u.task_id id ≡ true → u ≡ t)
            table
            (λ u differs e. let clash : str_eq u.task_id id ≡ false = rw same at differs in cc)
            (others_differ r.task_id table d.0),
      )
  | inr other ↦
      let later : get id table ≡ some t = ground (arith, found) in
      ((λ e. ground (arith, e, other)), get_only id table d.1 later)
]

pub names-update_running :
    (id : String) (change : Task → Task) (table : Table)
    → ((u : Task) → (change u).task_id ≡ u.task_id)
    → names (update_running id change table) ≡ names table
unfolding update_running
names-update_running id change [] same = refl
names-update_running id change (u ∷ table) same = elim (Bool-cases (runs id u)) [
  | inl hit ↦ rw hit (rw (same u) (ap (◌∷◌ u.task_id) (names-update_running id change table same)))
  | inr miss ↦ rw miss (ap (◌∷◌ u.task_id) (names-update_running id change table same))
]
