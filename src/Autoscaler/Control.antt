-- ===== src/Autoscaler/Control.antt =====
-- pkg/autoscaler/manager.go: the life of the manager, its queue of targets and its configuration.
-- Mutexes make each of these one step. The decisions of a run are in Autoscaler/Cycle.
pub mod Targets
pub mod Life
pub mod Settings
use waverless.Base.{
  ℕ, ◌≡◌, Bool, true, false, not, ◌&&◌, ◌||◌, Option, none, some, List, [], ◌∷◌, ◌++◌, String,
  str_eq, ℤ, pos, leb_ℤ, ltb_ℤ, ltb, length, if◌then◌else◌, Time,
}
use waverless.Tasks.Names.{has_name}
use waverless.Autoscaler.Types.{Config, EndpointConfig}
use waverless.Autoscaler.Collector.{Snapshots, ReplicaEvent, update_replica_snapshot}

-- `triggerCh`, a channel with room for one signal, or nil.
pub data Trigger : Type 0 where
  nil idle signalled : Trigger

-- `Manager`. `stop_closed` says of `stopCh` that it is closed, and `panicked` that a closed channel
-- was closed. `pending_targets` has the keys of the map.
pub record Manager : Type 0 where
  pub config : Config
  pub enabled : Bool
  pub running : Bool
  pub stop_closed : Bool
  pub panicked : Bool
  pub trigger : Trigger
  pub is_watching : Bool
  pub target_queue : List String
  pub pending_targets : List String
  pub snapshots : Snapshots

-- `Start`: the manager, and whether it was started. `watches` says whether there is a provider that
-- takes the watcher.
unfoldable pub start : Manager → (watches : Bool) → Manager × Bool
start m watches =
    if m.running
    then (m, false)
    else (record m { running = true; trigger = idle; is_watching = watches || m.is_watching }, true)

unfoldable pub stop : Manager → Manager × Bool
stop m = if not m.running then (m, false) else (
  record m {
    running = false;
    stop_closed = true;
    panicked = m.panicked || m.stop_closed;
    trigger = nil;
    is_watching = false;
    pending_targets = [];
  },
  true,
)

abbrev pub signal : Trigger → Trigger
signal nil = nil
signal idle = signalled
signal signalled = signalled

unfoldable pub trigger_autoscaler : Manager → Manager
trigger_autoscaler m = record m { trigger = signal m.trigger }

-- `targetQueue` has room for 100, and nothing receives from it.
abbrev pub queued : String → List String → List String
queued name queue = if ltb (length queue) 100 then queue ++ (name ∷ []) else queue

unfoldable pub enqueue_target : Manager → String → Manager
unfolding trigger_autoscaler
enqueue_target m name =
    if str_eq name ""
    then trigger_autoscaler m
    else if has_name m.pending_targets name
    then m
    else trigger_autoscaler (record m {
      pending_targets = m.pending_targets ++ (name ∷ []);
      target_queue = queued name m.target_queue;
    })

-- Go leaves the order of the targets open.
unfoldable pub collect_targets : Manager → List String × Manager
collect_targets m = (m.pending_targets, record m { pending_targets = [] })

unfoldable pub handle_replica_event : Manager → Time → ReplicaEvent → Manager
unfolding enqueue_target
handle_replica_event m now event =
    let (snapshots, changed) = update_replica_snapshot m.snapshots now event in
    let informed = record m { snapshots = snapshots } in
    if changed then enqueue_target informed event.name else informed

-- What the control loop receives, and what it does then.
pub data LoopEvent : Type 0 where
  stopped ticked triggered : LoopEvent

pub data Action : Type 0 where
  leaves rests runs_all : Action
  runs_for : List String → Action

abbrev pub run_for : List String × Manager → Action × Manager
run_for ([], m) = (runs_all, m)
run_for (name ∷ names, m) = (runs_for (name ∷ names), m)

-- One round of `controlLoop`. The signal is taken from the channel.
unfoldable pub control_loop : Manager → LoopEvent → Action × Manager
unfolding collect_targets
control_loop m stopped = (leaves, m)
control_loop m ticked = if m.enabled then (runs_all, m) else (rests, m)
control_loop m triggered =
    let heard = record m {
      trigger = elim m.trigger [ nil ↦ nil | idle ↦ idle | signalled ↦ idle ];
    } in
    if m.enabled then run_for (collect_targets heard) else (rests, heard)

-- Redis and the JSON codec, for the one key of the configuration. A read that fails, or finds no
-- key, is `none`; a write that fails is ignored.
pub record ConfigStore (R : Type 0) : Type 0 where
  pub has_redis : Bool
  pub get : R → Option String
  pub set : R → String → R
  pub marshal : Config → Option String
  pub unmarshal : String → Option Config

-- `validate` of `UpdateGlobalConfig`.
abbrev pub is_valid : Config → Bool
is_valid c =
    not (leb_ℤ c.interval (pos 0))
    && not (ltb_ℤ c.max_gpu_count (pos 0))
    && not (ltb_ℤ c.max_cpu_cores (pos 0))
    && not (ltb_ℤ c.max_memory_gb (pos 0))
    && not (ltb_ℤ c.starvation_time (pos 0))

module _ {R : Type 0} (io : ConfigStore R) where
  abbrev pub write_config : R → Option String → R
  write_config r none = r
  write_config r (some encoded) = io.set r encoded

  unfoldable pub persist_config : R → Config → R
  persist_config r config = if io.has_redis then write_config r (io.marshal config) else r

  abbrev pub adopt : Manager → Option Config → Manager
  adopt m none = m
  adopt m (some config) = record m { config = config; enabled = config.enabled }

  abbrev pub decode : Option String → Option Config
  decode none = none
  decode (some encoded) = io.unmarshal encoded

  unfoldable pub load_persisted_config : R → Manager → Manager
  load_persisted_config r m = if io.has_redis then adopt m (decode (io.get r)) else m

  abbrev pub set_enabled : Bool → R → Manager → R × Manager
  set_enabled b r m =
      let config = record m.config { enabled = b } in
      (persist_config r config, record m { enabled = b; config = config })

  unfoldable pub enable : R → Manager → R × Manager
  unfolding persist_config
  enable r m = set_enabled true r m

  unfoldable pub disable : R → Manager → R × Manager
  unfolding persist_config
  disable r m = set_enabled false r m

  -- The answer says whether the configuration was taken.
  unfoldable pub update_global_config : R → Manager → Config → (R × Manager) × Bool
  unfolding persist_config
  update_global_config r m config =
      if is_valid config
      then ((persist_config r config, record m { config = config; enabled = config.enabled }), true)
      else ((r, m), false)

-- The override of an endpoint comes before the global switch.
unfoldable pub should_process_endpoint : Manager → EndpointConfig → Bool
should_process_endpoint m ep = elim ep.autoscaler_enabled [
  | none ↦ m.enabled
  | some override ↦
      if str_eq override "enabled"
      then true
      else if str_eq override "disabled"
      then false
      else m.enabled
]
