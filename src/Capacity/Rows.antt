-- ===== src/Capacity/Rows.antt =====
-- pkg/capacity/manager.go: the rows of the table and their entries in the cache.
use waverless.Base.{
  ◌≡◌, refl, ap, sym, ◌∙◌, Bool, false, some, List, [], ◌∷◌, map, String, str_eq, All, Bool-cases,
  inl, inr, arith, eq_iff, Time,
}
use text.Mathlib.TextPositions.{eq_refl}
use waverless.Base.Dict.{StringMap, load, store, load-store}
use waverless.Tasks.Names.{has_name, Distinct}
use waverless.Capacity.{
  CapacityEvent, CacheEntry, SpecCapacity, Statement, State, entry_or_zero, entry_of_event,
  is_change, entry_of_row, update_where, counted_status, with_status, load_rows,
}

module _ {F P : Type 0} (fails : List (SpecCapacity P) → Statement → Bool)
    (new_from_float : F → P) where
  -- The cache has the status and the reason of a row.
  abbrev pub Shown : StringMap CacheEntry → SpecCapacity P → Type 0
  Shown cache row = load row.spec_name cache ≡ some (entry_of_row fails new_from_float row)

  abbrev pub AllShown : State P → Type 0
  AllShown s = All (Shown s.cache) s.table

  -- A change that leaves the name, the status and the reason.
  pub update_where-Shown :
      (cache : StringMap CacheEntry) (name : String) (change : SpecCapacity P → SpecCapacity P)
      (table : List (SpecCapacity P))
      → ((row : SpecCapacity P) → Shown cache row → Shown cache (change row))
      → All (Shown cache) table
      → All (Shown cache) (update_where fails new_from_float name change table)
  update_where-Shown cache name change [] keeps h = tt
  update_where-Shown cache name change (row ∷ table) keeps h = (
    elim (Bool-cases (str_eq row.spec_name name)) [
      | inl same ↦ rw same (keeps row h.0)
      | inr distinct ↦ rw distinct h.0
    ],
    update_where-Shown cache name change table keeps h.1,
  )

  -- The name of a row with a new status.
  counted_status-name :
      (now : Time) (status : String) (row : SpecCapacity P)
      → (counted_status fails new_from_float now status row).spec_name ≡ row.spec_name
  counted_status-name now status row = elim (Bool-cases (str_eq status "sold_out")) [
    | inl sold ↦ rw sold refl
    | inr stocked ↦ elim (Bool-cases (str_eq status "available")) [
      | inl free ↦ rw (stocked, free) refl
      | inr tight ↦ rw (stocked, tight) refl
    ]
  ]

  -- The rows of a spec and the cache get the same status.
  pub with_status-Shown :
      (cache : StringMap CacheEntry) (now : Time) (event : CapacityEvent)
      (table : List (SpecCapacity P))
      → All (Shown cache) table
      → All (Shown (store event.spec_name (entry_of_event event) cache)) (
          update_where fails new_from_float event.spec_name
            (with_status fails new_from_float now event.status event.reason)
            table)
  with_status-Shown cache now event [] h = tt
  with_status-Shown cache now event (row ∷ table) h = (
    elim (Bool-cases (str_eq row.spec_name event.spec_name)) [
      | inl same ↦ rw same (
          ap (λ name. load name (store event.spec_name (entry_of_event event) cache))
            (counted_status-name now event.status row
              ∙ ground (arith, eq_iff row.spec_name event.spec_name, same))
          ∙ load-store event.spec_name event.spec_name (entry_of_event event) cache
          ∙ rw (eq_refl event.spec_name) refl)
      | inr distinct ↦
          let apart : str_eq event.spec_name row.spec_name ≡ false = ground (
            arith,
            eq_iff row.spec_name event.spec_name,
            eq_iff event.spec_name row.spec_name,
            distinct,
          ) in
          rw distinct (rw (load-store, apart) h.0)
    ],
    with_status-Shown cache now event table h.1,
  )

  -- An event that changes nothing leaves every row shown.
  pub unchanged-Shown :
      (cache : StringMap CacheEntry) (event : CapacityEvent) (row : SpecCapacity P)
      → is_change (entry_or_zero (load event.spec_name cache)) event ≡ false
      → Shown cache row
      → Shown (store event.spec_name (entry_of_event event) cache) row
  unchanged-Shown cache event row calm h =
      elim (Bool-cases (str_eq event.spec_name row.spec_name)) [
        | inr distinct ↦ rw (load-store, distinct) h
        | inl same ↦
            let path : event.spec_name ≡ row.spec_name =
              ground (arith, eq_iff event.spec_name row.spec_name, same) in
            let held : is_change (entry_of_row fails new_from_float row) event ≡ false =
              ap (λ o. is_change (entry_or_zero o) event) (sym (ap (λ n. load n cache) path ∙ h))
              ∙ calm in
            let status : event.status ≡ row.status =
              ground (arith, eq_iff row.status event.status, held) in
            let reason : event.reason ≡ row.reason =
              ground (arith, eq_iff row.reason event.reason, held) in
            rw (load-store, same) (rw (status, reason) refl)
      ]

  abbrev pub spec_names : List (SpecCapacity P) → List String
  spec_names = map (λ row. row.spec_name)

  load_rows-other :
      (cache : StringMap CacheEntry) (rows : List (SpecCapacity P)) (name : String)
      → has_name (spec_names rows) name ≡ false
      → load name (load_rows fails new_from_float cache rows) ≡ load name cache
  load_rows-other cache [] name new = refl
  load_rows-other cache (row ∷ rows) name new =
      let distinct : str_eq row.spec_name name ≡ false = ground (arith, new) in
      load_rows-other (store row.spec_name (entry_of_row fails new_from_float row) cache) rows name
        (ground (arith, new))
      ∙ rw (load-store, distinct) refl

  pub load_rows-Shown :
      (cache : StringMap CacheEntry) (rows : List (SpecCapacity P))
      → Distinct (spec_names rows)
      → All (Shown (load_rows fails new_from_float cache rows)) rows
  load_rows-Shown cache [] distinct = tt
  load_rows-Shown cache (row ∷ rows) distinct =
      let first = store row.spec_name (entry_of_row fails new_from_float row) cache in
      (
        load_rows-other first rows row.spec_name distinct.0
            ∙ rw (load-store, eq_refl row.spec_name) refl,
        load_rows-Shown first rows distinct.1,
      )
