-- ===== src/Capacity.antt =====
-- pkg/capacity/manager.go with the table of pkg/store/mysql/spec_capacity_repository.go: the cache
-- of the capacity of each spec. The provider, the Spot checker and the count of pods are what they
-- answer, and an error is `none`. The timers are left out; each tick is one call.
pub mod Rows
pub mod Mirror
mod Tests
use Prim.Native.String.{◌++◌ as str_append}
use waverless.Base.{
  ℕ, zero, suc, Bool, true, false, not, ◌||◌, Option, none, some, List, [], ◌∷◌, map, String,
  str_eq, ℤ, pos, leb_ℤ, if◌then◌else◌, Time,
}
use waverless.Base.Dict.{StringMap, load, store}

-- `interfaces.CapacityStatus`
abbrev pub available : String
available = "available"

abbrev pub limited : String
limited = "limited"

abbrev pub sold_out : String
sold_out = "sold_out"

pub record CapacityEvent : Type 0 where
  pub spec_name : String
  pub status : String
  pub reason : String
  pub updated_at : Time

pub record PodCounts : Type 0 where
  pub running : ℤ
  pub pending : ℤ

pub record CacheEntry : Type 0 where
  pub status : String
  pub reason : String

-- `SpotInfo`, with Go's `float64`.
pub record SpotInfo (F : Type 0) : Type 0 where
  pub spec_name : String
  pub instance_type : String
  pub score : ℤ
  pub price : F

-- `model.SpecCapacity`, with `decimal.Decimal`. The name is a unique index.
pub record SpecCapacity (P : Type 0) : Type 0 where
  pub spec_name : String
  pub status : String
  pub reason : String
  pub running_count : ℤ
  pub pending_count : ℤ
  pub failure_count : ℕ
  pub spot_score : Option ℤ
  pub spot_price : Option P
  pub instance_type : String
  pub last_success_at : Option Time
  pub last_failure_at : Option Time
  pub last_spot_check_at : Option Time
  pub updated_at : Time

-- The statements that the database can fail.
pub data Statement : Type 0 where
  list_rows : Statement
  status_update counts_update spot_update : String → Statement

-- The table, the cache of `Manager`, and the events that its callbacks were given, the latest first.
pub record State (P : Type 0) : Type 0 where
  pub table : List (SpecCapacity P)
  pub cache : StringMap CacheEntry
  pub notified : List CapacityEvent

-- What a spec has that is not in the cache: Go's zero value.
abbrev pub entry_or_zero : Option CacheEntry → CacheEntry
entry_or_zero none = record { status = ""; reason = "" }
entry_or_zero (some e) = e

abbrev pub entry_of_event : CapacityEvent → CacheEntry
entry_of_event event = record { status = event.status; reason = event.reason }

abbrev pub is_change : CacheEntry → CapacityEvent → Bool
is_change old event = not (str_eq old.status event.status) || not (str_eq old.reason event.reason)

-- `fails` says which statements fail, and `new_from_float` is `decimal.NewFromFloat`.
module _ {F P : Type 0} (fails : List (SpecCapacity P) → Statement → Bool)
    (new_from_float : F → P) where
  abbrev pub entry_of_row : SpecCapacity P → CacheEntry
  entry_of_row row = record { status = row.status; reason = row.reason }

  -- An update of the rows of one spec.
  abbrev pub update_where :
      String → (SpecCapacity P → SpecCapacity P) → List (SpecCapacity P) → List (SpecCapacity P)
  update_where name change = map (λ row. if str_eq row.spec_name name then change row else row)

  abbrev pub counted_status : Time → String → SpecCapacity P → SpecCapacity P
  counted_status now status row =
      if str_eq status sold_out
      then record row { last_failure_at = some now; failure_count = suc row.failure_count }
      else if str_eq status available
      then record row { last_success_at = some now; failure_count = 0 }
      else row

  abbrev pub with_status : Time → String → String → SpecCapacity P → SpecCapacity P
  with_status now status reason row = record (counted_status now status row) {
    status = status;
    reason = reason;
    updated_at = now;
  }

  unfoldable pub update_status :
      List (SpecCapacity P) → Time → String → String → String → List (SpecCapacity P)
  update_status table now name status reason =
      if fails table (status_update name)
      then table
      else update_where name (with_status now status reason) table

  abbrev pub with_counts : Time → PodCounts → SpecCapacity P → SpecCapacity P
  with_counts now count row = record row {
    running_count = count.running;
    pending_count = count.pending;
    updated_at = now;
  }

  unfoldable pub update_counts :
      List (SpecCapacity P) → Time → String → PodCounts → List (SpecCapacity P)
  update_counts table now name count =
      if fails table (counts_update name)
      then table
      else update_where name (with_counts now count) table

  abbrev pub with_spot : Time → SpotInfo F → SpecCapacity P → SpecCapacity P
  with_spot now spot row = record row {
    spot_score = some spot.score;
    spot_price = some (new_from_float spot.price);
    instance_type = spot.instance_type;
    last_spot_check_at = some now;
    updated_at = now;
  }

  unfoldable pub update_spot_info :
      List (SpecCapacity P) → Time → SpotInfo F → List (SpecCapacity P)
  update_spot_info table now spot =
      if fails table (spot_update spot.spec_name)
      then table
      else update_where spot.spec_name (with_spot now spot) table

  abbrev pub load_rows : StringMap CacheEntry → List (SpecCapacity P) → StringMap CacheEntry
  load_rows cache [] = cache
  load_rows cache (row ∷ rows) = load_rows (store row.spec_name (entry_of_row row) cache) rows

  unfoldable pub load_from_db : State P → State P
  load_from_db s =
      if fails s.table list_rows then s else record s { cache = load_rows s.cache s.table }

  -- What `handleEvent` does under the lock of the cache: the new entry, and whether it is a change.
  unfoldable pub note_event : State P → CapacityEvent → State P × Bool
  note_event s event = (
    record s { cache = store event.spec_name (entry_of_event event) s.cache },
    is_change (entry_or_zero (load event.spec_name s.cache)) event,
  )

  -- What it does of a change after the lock was released: the table and the callbacks.
  unfoldable pub write_event : State P → Time → CapacityEvent → State P
  unfolding update_status
  write_event s now event = record s {
    table = update_status s.table now event.spec_name event.status event.reason;
    notified = event ∷ s.notified;
  }

  -- `handleEvent`, where no other event is handled between its two steps.
  unfoldable pub handle_event : State P → Time → CapacityEvent → State P
  unfolding note_event write_event
  handle_event s now event =
      let (noted, changed) = note_event s event in
      if changed then write_event noted now event else noted

  -- A spec that is not in the cache is available.
  abbrev pub status_or_available : Option CacheEntry → String
  status_or_available none = available
  status_or_available (some e) = e.status

  unfoldable pub get_status : State P → String → String
  get_status s name = status_or_available (load name s.cache)

  unfoldable pub report_success : State P → Time → String → State P
  unfolding handle_event
  report_success s now name =
      handle_event s now
        (record { spec_name = name; status = available; reason = "nodeclaim"; updated_at = now })

  unfoldable pub report_failure : State P → Time → String → String → State P
  unfolding handle_event
  report_failure s now name reason = handle_event s now (record {
    spec_name = name;
    status = sold_out;
    reason = str_append "nodeclaim:" reason;
    updated_at = now;
  })

  abbrev pub spot_event : Time → SpotInfo F → CapacityEvent
  spot_event now spot = record {
    spec_name = spot.spec_name;
    status = if leb_ℤ (pos 7) spot.score then available else limited;
    reason = "spot_score";
    updated_at = now;
  }

  abbrev pub check_each : State P → Time → List (SpotInfo F) → State P
  check_each s now [] = s
  check_each s now (spot ∷ spots) =
      let priced = record s { table = update_spot_info s.table now spot } in
      check_each (handle_event priced now (spot_event now spot)) now spots

  unfoldable pub check_spots : State P → Time → Option (List (SpotInfo F)) → State P
  unfolding handle_event update_spot_info
  check_spots s now none = s
  check_spots s now (some spots) = check_each s now spots

  abbrev pub handle_each : State P → Time → List CapacityEvent → State P
  handle_each s now [] = s
  handle_each s now (event ∷ events) = handle_each (handle_event s now event) now events

  -- One tick of `startPolling`, for what `CheckAll` answers.
  unfoldable pub poll : State P → Time → Option (List CapacityEvent) → State P
  unfolding handle_event
  poll s now none = s
  poll s now (some events) = handle_each s now events

  abbrev pub count_each : State P → Time → List (String × PodCounts) → State P
  count_each s now [] = s
  count_each s now (entry ∷ rest) =
      count_each (record s { table = update_counts s.table now entry.0 entry.1 }) now rest

  unfoldable pub update_pod_counts : State P → Time → Option (List (String × PodCounts)) → State P
  unfolding update_counts
  update_pod_counts s now none = s
  update_pod_counts s now (some counts) = count_each s now counts
