-- ===== src/Capacity/Mirror.antt =====
-- pkg/capacity/manager.go: the cache and the table say the same.
use waverless.Base.{
  ◌≡◌, refl, ap, Bool, false, Option, none, some, List, [], ◌∷◌, String, All, All-map, Bool-cases,
  inl, inr, arith, Time,
}
use text.Mathlib.TextPositions.{eq_refl}
use waverless.Base.Dict.{load, store, load-store}
use waverless.Tasks.Names.{Distinct}
use waverless.Capacity.{
  CapacityEvent, PodCounts, SpotInfo, SpecCapacity, Statement, State, entry_or_zero, entry_of_event,
  is_change, update_status, with_counts, update_counts, with_spot, update_spot_info, load_from_db,
  note_event, write_event, handle_event, status_or_available, get_status, report_success,
  report_failure, spot_event, check_each, check_spots, handle_each, poll, count_each,
  update_pod_counts,
}
use waverless.Capacity.Rows.{
  Shown, AllShown, update_where-Shown, with_status-Shown, unchanged-Shown, load_rows-Shown,
  spec_names,
}

-- What happens to a manager: reports of the deployments, ticks of the timers, and an event that the
-- provider sends.
pub data Signal (F : Type 0) : Type 0 where
  succeeded : String → Signal F
  failed : String → String → Signal F
  watched : CapacityEvent → Signal F
  polled : Option (List CapacityEvent) → Signal F
  priced : Option (List (SpotInfo F)) → Signal F
  counted : Option (List (String × PodCounts)) → Signal F

module _ {F P : Type 0} (fails : List (SpecCapacity P) → Statement → Bool)
    (new_from_float : F → P) where
  unfoldable pub receive : State P → Time → Signal F → State P
  receive s now (succeeded name) = report_success fails new_from_float s now name
  receive s now (failed name reason) = report_failure fails new_from_float s now name reason
  receive s now (watched event) = handle_event fails new_from_float s now event
  receive s now (polled events) = poll fails new_from_float s now events
  receive s now (priced spots) = check_spots fails new_from_float s now spots
  receive s now (counted counts) = update_pod_counts fails new_from_float s now counts

  unfoldable pub receive_all : State P → List (Time × Signal F) → State P
  unfolding receive
  receive_all s [] = s
  receive_all s (signal ∷ signals) = receive_all (receive s signal.0 signal.1) signals

  module _ (works : (table : List (SpecCapacity P)) (q : Statement) → fails table q ≡ false) where
    handle_event-Shown :
        (s : State P) (now : Time) (event : CapacityEvent)
        → AllShown fails new_from_float s
        → AllShown fails new_from_float (handle_event fails new_from_float s now event)
    unfolding handle_event note_event write_event update_status
    handle_event-Shown s now event h =
        elim (Bool-cases (is_change (entry_or_zero (load event.spec_name s.cache)) event)) [
          | inl changed ↦
              simp (changed, works)
                (with_status-Shown fails new_from_float s.cache now event s.table h)
          | inr calm ↦ simp calm (
              All-map (Shown fails new_from_float s.cache)
                (Shown fails new_from_float (store event.spec_name (entry_of_event event) s.cache))
                s.table (λ row. unchanged-Shown fails new_from_float s.cache event row calm) h)
        ]

    handle_each-Shown :
        (s : State P) (now : Time) (events : List CapacityEvent)
        → AllShown fails new_from_float s
        → AllShown fails new_from_float (handle_each fails new_from_float s now events)
    handle_each-Shown s now [] h = h
    handle_each-Shown s now (event ∷ events) h =
        handle_each-Shown (handle_event fails new_from_float s now event) now events
          (handle_event-Shown s now event h)

    check_each-Shown :
        (s : State P) (now : Time) (spots : List (SpotInfo F))
        → AllShown fails new_from_float s
        → AllShown fails new_from_float (check_each fails new_from_float s now spots)
    unfolding update_spot_info
    check_each-Shown s now [] h = h
    check_each-Shown s now (spot ∷ spots) h =
        let updated = record s { table = update_spot_info fails new_from_float s.table now spot } in
        let shown : AllShown fails new_from_float updated = rw works (
          update_where-Shown fails new_from_float s.cache spot.spec_name
            (with_spot fails new_from_float now spot) s.table (λ row k. k) h) in
        check_each-Shown
          (handle_event fails new_from_float updated now (spot_event fails new_from_float now spot))
          now spots
          (handle_event-Shown updated now (spot_event fails new_from_float now spot) shown)

    count_each-Shown :
        (s : State P) (now : Time) (counts : List (String × PodCounts))
        → AllShown fails new_from_float s
        → AllShown fails new_from_float (count_each fails new_from_float s now counts)
    unfolding update_counts
    count_each-Shown s now [] h = h
    count_each-Shown s now (entry ∷ rest) h =
        count_each-Shown
          (record s { table = update_counts fails new_from_float s.table now entry.0 entry.1 }) now
          rest
          (rw works (
            update_where-Shown fails new_from_float s.cache entry.0
              (with_counts fails new_from_float now entry.1) s.table (λ row k. k) h))

    receive-Shown :
        (s : State P) (now : Time) (signal : Signal F)
        → AllShown fails new_from_float s
        → AllShown fails new_from_float (receive s now signal)
    unfolding receive report_success report_failure poll check_spots update_pod_counts
    receive-Shown s now (succeeded name) h = handle_event-Shown s now _ h
    receive-Shown s now (failed name reason) h = handle_event-Shown s now _ h
    receive-Shown s now (watched event) h = handle_event-Shown s now event h
    receive-Shown s now (polled none) h = h
    receive-Shown s now (polled (some events)) h = handle_each-Shown s now events h
    receive-Shown s now (priced none) h = h
    receive-Shown s now (priced (some spots)) h = check_each-Shown s now spots h
    receive-Shown s now (counted none) h = h
    receive-Shown s now (counted (some counts)) h = count_each-Shown s now counts h

    receive_all-Shown :
        (s : State P) (signals : List (Time × Signal F))
        → AllShown fails new_from_float s
        → AllShown fails new_from_float (receive_all s signals)
    unfolding receive_all
    receive_all-Shown s [] h = h
    receive_all-Shown s (signal ∷ signals) h =
        receive_all-Shown (receive s signal.0 signal.1) signals
          (receive-Shown s signal.0 signal.1 h)

  get_status-Shown :
      (s : State P) (row : SpecCapacity P)
      → Shown fails new_from_float s.cache row
      → get_status fails new_from_float s row.spec_name ≡ row.status
  unfolding get_status
  get_status-Shown s row shown = ap (status_or_available fails new_from_float) shown

  -- The cache mirrors the table where events do not overlap: where no statement fails, no two rows
  -- have the same spec and each event is handled to its end before the next one, after the table was
  -- loaded and any signals were received, GetStatus answers for every row of the table the status of
  -- that row.
  pub receive_all-load_from_db :
      (s : State P) (signals : List (Time × Signal F))
      → ((table : List (SpecCapacity P)) (q : Statement) → fails table q ≡ false)
      → Distinct (spec_names fails new_from_float s.table)
      → let after = receive_all (load_from_db fails new_from_float s) signals in
        All (λ row. get_status fails new_from_float after row.spec_name ≡ row.status) after.table
  unfolding load_from_db
  receive_all-load_from_db s signals works distinct =
      let loaded : AllShown fails new_from_float (load_from_db fails new_from_float s) =
        rw works (load_rows-Shown fails new_from_float s.cache s.table distinct) in
      let after = receive_all (load_from_db fails new_from_float s) signals in
      All-map (Shown fails new_from_float after.cache)
        (λ row. get_status fails new_from_float after row.spec_name ≡ row.status) after.table
        (get_status-Shown after)
        (receive_all-Shown works (load_from_db fails new_from_float s) signals loaded)

  -- The cache after an event, whatever was in it.
  handle_event-cache :
      (s : State P) (now : Time) (event : CapacityEvent)
      → load event.spec_name (handle_event fails new_from_float s now event).cache
        ≡ some (entry_of_event event)
  unfolding handle_event note_event write_event
  handle_event-cache s now event =
      let found : load event.spec_name (store event.spec_name (entry_of_event event) s.cache)
          ≡ some (entry_of_event event) =
        rw (load-store, eq_refl event.spec_name) refl in
      elim (Bool-cases (is_change (entry_or_zero (load event.spec_name s.cache)) event)) [
        | inl changed ↦ simp changed found
        | inr calm ↦ simp calm found
      ]

  handle_event-known :
      (s : State P) (now : Time) (event : CapacityEvent)
      → load event.spec_name s.cache ≡ some (entry_of_event event)
      → let after = handle_event fails new_from_float s now event in
        (after.table ≡ s.table) × (after.notified ≡ s.notified)
  unfolding handle_event note_event write_event
  handle_event-known s now event known =
      let calm : is_change (entry_or_zero (load event.spec_name s.cache)) event ≡ false =
        rw known (ground (arith, eq_refl event.status, eq_refl event.reason)) in
      simp calm (refl, refl)

  -- A status is written once: the same event for a second time changes neither the table nor what
  -- the callbacks were given, whether the first write failed or not.
  pub handle_event-twice :
      (s : State P) (now later : Time) (event : CapacityEvent)
      → let once = handle_event fails new_from_float s now event in
        let twice = handle_event fails new_from_float once later event in
        (twice.table ≡ once.table) × (twice.notified ≡ once.notified)
  handle_event-twice s now later event =
      handle_event-known (handle_event fails new_from_float s now event) later event
        (handle_event-cache s now event)
