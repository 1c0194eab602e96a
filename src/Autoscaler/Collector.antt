-- ===== src/Autoscaler/Collector.antt =====
-- pkg/autoscaler/metrics_collector.go, with CountByEndpointAndStatus of
-- pkg/store/mysql/task_repository.go. A replica's conditions, which the autoscaler never reads, are
-- left out.
pub mod Waiting
pub mod Counts
use waverless.Base.{
  ℕ, suc, ◌+◌, Bool, true, false, not, ◌&&◌, ◌||◌, Option, none, some, List, [], ◌∷◌, String,
  str_eq, ℤ, pos, eqb_ℤ, ltb_ℤ, length, select, gather, if◌then◌else◌, Time, is_zero,
}
use waverless.Base.Dict.{StringMap, load, store}
use waverless.Tasks.Table.{Task, Table, is_pending, get, get_in_progress_tasks}
use waverless.Endpoints.Conversion.{EndpointMetadata, or_true}
use waverless.Autoscaler.Types.{EndpointConfig}

pub record ReplicaSnapshot : Type 0 where
  pub desired : ℤ
  pub ready : ℤ
  pub available : ℤ
  pub updated_at : Time

-- `interfaces.ReplicaEvent`
pub record ReplicaEvent : Type 0 where
  pub name : String
  pub desired_replicas : ℤ
  pub ready_replicas : ℤ
  pub available_replicas : ℤ

abbrev pub Snapshots : Type 0
Snapshots = StringMap ReplicaSnapshot

abbrev pub differs : Option ReplicaSnapshot → ReplicaEvent → Bool
differs none event = true
differs (some prev) event =
    not (eqb_ℤ prev.desired event.desired_replicas)
    || not (eqb_ℤ prev.ready event.ready_replicas)
    || not (eqb_ℤ prev.available event.available_replicas)

-- The snapshots after an event, and whether the event says something new.
unfoldable pub update_replica_snapshot : Snapshots → Time → ReplicaEvent → Snapshots × Bool
update_replica_snapshot snapshots now event = (
  store event.name
      (record {
        desired = event.desired_replicas;
        ready = event.ready_replicas;
        available = event.available_replicas;
        updated_at = now;
      })
      snapshots,
  differs (load event.name snapshots) event,
)

unfoldable pub get_replica_snapshot : Snapshots → String → Option ReplicaSnapshot
get_replica_snapshot snapshots name = load name snapshots

-- What one collection reads: the table of tasks, and which statements fail.
pub record Reading : Type 0 where
  pub tasks : Table
  pub count_fails : String → Bool
  pub list_fails : Bool
  pub get_fails : String → Bool
  pub snapshots : Snapshots
  pub now : Time

abbrev pub get_or_default : ℤ → ℤ → ℤ
get_or_default value fallback = if eqb_ℤ value (pos 0) then fallback else value

-- `CountByEndpointAndStatus` with the status PENDING.
unfoldable pub count_pending : String → Table → ℕ
count_pending endpoint tasks =
    length (select (λ t. str_eq t.endpoint endpoint && is_pending t.status) tasks)

abbrev pub is_at : String → Option Task → Bool
is_at endpoint none = false
is_at endpoint (some t) = str_eq t.endpoint endpoint

-- The loop of `getRunningTaskCount` over the tasks in progress; a task that cannot be read is
-- passed over.
unfoldable pub count_at : (String → Bool) → String → Table → List String → ℕ
count_at get_fails endpoint tasks [] = 0
count_at get_fails endpoint tasks (id ∷ ids) =
    let rest = count_at get_fails endpoint tasks ids in
    if not (get_fails id) && is_at endpoint (get id tasks) then suc rest else rest

-- `none` is an error.
unfoldable pub get_running_task_count : Reading → String → Option ℕ
unfolding count_at
get_running_task_count r endpoint =
    if r.list_fails
    then none
    else if str_eq endpoint ""
    then some (length (get_in_progress_tasks r.tasks))
    else some (count_at r.get_fails endpoint r.tasks (get_in_progress_tasks r.tasks))

-- An error counts as none.
abbrev pub or_none : Option ℕ → ℤ
or_none none = pos 0
or_none (some n) = pos n

abbrev pub pending_count : Reading → String → ℤ
pending_count r name = if r.count_fails name then pos 0 else pos (count_pending name r.tasks)

abbrev pub ready_or : ℤ → Option ReplicaSnapshot → ℤ
ready_or ready none = ready
ready_or ready (some snapshot) = snapshot.ready

-- The time since which tasks wait, from the time before.
abbrev pub first_pending : Time → ℤ → Time → Time
first_pending now pending before =
    if ltb_ℤ (pos 0) pending && is_zero before
    then now
    else if eqb_ℤ pending (pos 0)
    then 0
    else before

unfoldable pub collect_single_endpoint : Reading → EndpointMetadata → EndpointConfig
unfolding get_running_task_count count_pending get_replica_snapshot
collect_single_endpoint r ep = record {
  name = ep.name;
  spec_name = ep.spec_name;
  min_replicas = ep.min_replicas;
  max_replicas = ep.max_replicas;
  replicas = ep.replicas;
  scale_up_threshold = get_or_default ep.scale_up_threshold (pos 1);
  scale_down_idle_time = get_or_default ep.scale_down_idle_time (pos 300);
  scale_up_cooldown = get_or_default ep.scale_up_cooldown (pos 30);
  scale_down_cooldown = get_or_default ep.scale_down_cooldown (pos 60);
  priority = ep.priority;
  enable_dynamic_prio = or_true ep.enable_dynamic_prio;
  high_load_threshold = get_or_default ep.high_load_threshold (pos 10);
  priority_boost = get_or_default ep.priority_boost (pos 20);
  autoscaler_enabled = ep.autoscaler_enabled;
  actual_replicas = ready_or ep.ready_replicas (get_replica_snapshot r.snapshots ep.name);
  draining_replicas = pos 0;
  pending_tasks = pending_count r ep.name;
  running_tasks = or_none (get_running_task_count r ep.name);
  last_scale_time = ep.last_scale_time;
  last_task_time = ep.last_task_time;
  first_pending_time = first_pending r.now (pending_count r ep.name) ep.first_pending_time;
}

abbrev pub collect_all : Reading → List EndpointMetadata → List EndpointConfig
collect_all r [] = []
collect_all r (ep ∷ eps) = collect_single_endpoint r ep ∷ collect_all r eps

-- `ListEndpoints` of the endpoint service gives the metadata, or an error.
unfoldable pub collect_endpoint_metrics :
    Reading → Option (List EndpointMetadata) → Option (List EndpointConfig)
unfolding collect_single_endpoint
collect_endpoint_metrics r none = none
collect_endpoint_metrics r (some eps) = some (collect_all r eps)
