-- ===== src/Autoscaler/Collector/Waiting.antt =====
-- pkg/autoscaler/metrics_collector.go: replica events and the time since which tasks wait.
use waverless.Base.{
  ◌≡◌, ◌↔◌, refl, true, false, Option, none, some, String, str_eq, pos, eqb_ℤ, Time, is_zero,
  if◌then◌else◌, arith, ℕ, Bool-cases, inl, inr,
}
use text.Mathlib.TextPositions.{eq_refl}
use waverless.Base.Dict.{load, load-store}
use waverless.Endpoints.Conversion.{EndpointMetadata}
use waverless.Autoscaler.Collector.{
  Snapshots, ReplicaSnapshot, ReplicaEvent, differs, update_replica_snapshot, get_replica_snapshot,
  Reading, first_pending, pending_count, collect_single_endpoint, count_pending,
}

-- The snapshot says what the event says.
abbrev pub Shows : ReplicaSnapshot → ReplicaEvent → Type 0
Shows s event =
    (eqb_ℤ s.desired event.desired_replicas ≡ true)
    × (eqb_ℤ s.ready event.ready_replicas ≡ true)
    × (eqb_ℤ s.available event.available_replicas ≡ true)

differs_iff :
    (o : Option ReplicaSnapshot) (event : ReplicaEvent)
    → (differs o event ≡ false) ↔ ((s : ReplicaSnapshot) × (o ≡ some s) × Shows s event)
differs_iff none event = (λ e. cc, λ p. cc)
differs_iff (some s) event = (
  λ e. (s, refl, (ground arith, ground arith, ground arith)),
  λ (t, same, shows). ground (arith, same, shows.0, shows.1, shows.2),
)

-- After an event of an endpoint the snapshot shows it, the snapshot of any other endpoint is as
-- before, and the event counts as a change unless there was a snapshot that showed it.
pub update_replica_snapshot-Shows :
    (snapshots : Snapshots) (now : Time) (event : ReplicaEvent) (other : String)
    → str_eq event.name other ≡ false
    → let (after, changed) = update_replica_snapshot snapshots now event in
      ((s : ReplicaSnapshot) × (get_replica_snapshot after event.name ≡ some s) × Shows s event)
      × (get_replica_snapshot after other ≡ get_replica_snapshot snapshots other)
      × ((changed ≡ false)
          ↔ ((s : ReplicaSnapshot) × (load event.name snapshots ≡ some s) × Shows s event))
unfolding update_replica_snapshot get_replica_snapshot
update_replica_snapshot-Shows snapshots now event other distinct = (
  (
    record {
      desired = event.desired_replicas;
      ready = event.ready_replicas;
      available = event.available_replicas;
      updated_at = now;
    },
    rw (load-store, eq_refl event.name) refl,
    (ground arith, ground arith, ground arith),
  ),
  rw (load-store, distinct) refl,
  differs_iff (load event.name snapshots) event,
)

first_pending_cases :
    (now before : Time) (n : ℕ)
    → is_zero now ≡ false
    → ((is_zero (first_pending now (pos n) before) ≡ true) ↔ (pos n ≡ pos 0))
      × (first_pending now (pos n) before
          ≡ (if eqb_ℤ (pos n) (pos 0) then 0 else if is_zero before then now else before))
first_pending_cases now before n ticking =
    ((λ e. ground (arith, e, ticking), λ e. ground (arith, e)), ground (arith, ticking))

pending_count_pos : (r : Reading) (name : String) → (n : ℕ) × (pending_count r name ≡ pos n)
pending_count_pos r name = elim (Bool-cases (r.count_fails name)) [
  | inl fails ↦ (0, rw fails refl)
  | inr counts ↦ (count_pending name r.tasks, rw counts refl)
]

-- After a collection with a clock that shows a time, an endpoint has a time since which tasks wait
-- exactly if it has waiting tasks, and that time is the one from before where there was one.
pub collect_single_endpoint-first_pending :
    (r : Reading) (ep : EndpointMetadata)
    → is_zero r.now ≡ false
    → let config = collect_single_endpoint r ep in
      ((is_zero config.first_pending_time ≡ true) ↔ (config.pending_tasks ≡ pos 0))
      × (config.first_pending_time ≡ (
          if eqb_ℤ config.pending_tasks (pos 0)
          then 0
          else if is_zero ep.first_pending_time
          then r.now
          else ep.first_pending_time))
unfolding collect_single_endpoint
collect_single_endpoint-first_pending r ep ticking =
    let (n, e) = pending_count_pos r ep.name in
    rw e (first_pending_cases r.now ep.first_pending_time n ticking)
