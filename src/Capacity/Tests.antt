-- ===== src/Capacity/Tests.antt =====
-- The theorems on the capacity manager at concrete inputs: prices that are whole numbers, and a
-- database that never fails.
use waverless.Base.{◌≡◌, refl, Bool, false, none, some, List, [], ◌∷◌, map, String, ℤ, pos, All}
use waverless.Base.Dict.{load, store}
use waverless.Capacity.{
  CapacityEvent, available, limited, SpecCapacity, SpotInfo, Statement, State, sold_out,
  load_from_db, get_status, note_event, write_event, handle_event, report_failure, update_status,
}
use waverless.Capacity.Mirror.{succeeded, failed, priced, receive_all, receive_all-load_from_db}

abbrev row : SpecCapacity ℤ
row = record {
  spec_name = "gpu";
  status = sold_out;
  reason = "";
  running_count = pos 0;
  pending_count = pos 0;
  failure_count = 2;
  spot_score = none;
  spot_price = none;
  instance_type = "";
  last_success_at = none;
  last_failure_at = none;
  last_spot_check_at = none;
  updated_at = 1;
}

abbrev begin : State ℤ
begin = record { table = row ∷ record row { spec_name = "cpu" } ∷ []; cache = []; notified = [] }

abbrev works : List (SpecCapacity ℤ) → Statement → Bool
works table q = false

abbrev cheap : SpotInfo ℤ
cheap = record { spec_name = "cpu"; instance_type = "c5"; score = pos 8; price = pos 1 }

receive_all-load_from_db_example :
    let after =
      receive_all works
        (λ price. price)
        (load_from_db works (λ price. price) begin)
        ((2, succeeded "gpu")
          ∷ (3, failed "gpu" "no node")
          ∷ (4, priced (some (cheap ∷ [])))
          ∷ []) in
    All (λ r. get_status works (λ price. price) after r.spec_name ≡ r.status) after.table
receive_all-load_from_db_example =
    receive_all-load_from_db works (λ price. price) begin
      ((2, succeeded "gpu") ∷ (3, failed "gpu" "no node") ∷ (4, priced (some (cheap ∷ []))) ∷ [])
      (λ table q. refl) (refl, (refl, tt))

-- A failure is counted, and a check of the Spot market makes the spec available again.
failure_is_counted :
    (report_failure works (λ price. price) begin 5 "gpu" "no node").table
    ≡ record row {
      reason = "nodeclaim:no node";
      failure_count = 3;
      last_failure_at = some 5;
      updated_at = 5;
    }
      ∷ record row { spec_name = "cpu" }
      ∷ []
unfolding report_failure handle_event note_event write_event update_status load
failure_is_counted = refl

-- Two events of one spec that overlap: each is noted before either is written, and the writes come
-- in the other order.
abbrev event_of : String → CapacityEvent
event_of status = record { spec_name = "gpu"; status = status; reason = "watch"; updated_at = 2 }

abbrev overlapped : State ℤ
overlapped =
    let first = (note_event works (λ price. price) begin (event_of limited)).0 in
    let second = (note_event works (λ price. price) first (event_of available)).0 in
    let written = write_event works (λ price. price) second 3 (event_of available) in
    write_event works (λ price. price) written 4 (event_of limited)

-- The cache then says that the spec is available, and its row that it is limited.
overlap_differs :
    (get_status works (λ price. price) overlapped "gpu" ≡ available)
    × (map (λ r. r.status) overlapped.table ≡ limited ∷ sold_out ∷ [])
unfolding note_event write_event update_status get_status load store
overlap_differs = (refl, refl)
