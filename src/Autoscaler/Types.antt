-- ===== src/Autoscaler/Types.antt =====
-- pkg/autoscaler/types.go and the EndpointConfig of pkg/interfaces/autoscaler.go. The fields that
-- the autoscaler never reads (display name, conditions) are left out, and a message is a
-- constructor with the values that its format shows.
use waverless.Base.{
  Bool, false, ◌&&◌, ◌||◌, Option, none, List, String, ℤ, pos, add_int, sub_int, leb_ℤ, ltb_ℤ, Time,
  Float64,
}

pub record Config : Type 0 where
  pub enabled : Bool
  pub interval : ℤ
  pub max_gpu_count : ℤ
  pub max_cpu_cores : ℤ
  pub max_memory_gb : ℤ
  pub starvation_time : ℤ

pub record EndpointConfig : Type 0 where
  pub name : String
  pub spec_name : String
  pub min_replicas : ℤ
  pub max_replicas : ℤ
  pub replicas : ℤ
  pub scale_up_threshold : ℤ
  pub scale_down_idle_time : ℤ
  pub scale_up_cooldown : ℤ
  pub scale_down_cooldown : ℤ
  pub priority : ℤ
  pub enable_dynamic_prio : Bool
  pub high_load_threshold : ℤ
  pub priority_boost : ℤ
  pub autoscaler_enabled : Option String
  pub actual_replicas : ℤ
  pub draining_replicas : ℤ
  pub pending_tasks : ℤ
  pub running_tasks : ℤ
  pub last_scale_time : Time
  pub last_task_time : Time
  pub first_pending_time : Time

-- `&EndpointConfig{Name: name}`: every other field has Go's zero value.
abbrev pub named : String → EndpointConfig
named name = record {
  name = name;
  spec_name = "";
  min_replicas = pos 0;
  max_replicas = pos 0;
  replicas = pos 0;
  scale_up_threshold = pos 0;
  scale_down_idle_time = pos 0;
  scale_up_cooldown = pos 0;
  scale_down_cooldown = pos 0;
  priority = pos 0;
  enable_dynamic_prio = false;
  high_load_threshold = pos 0;
  priority_boost = pos 0;
  autoscaler_enabled = none;
  actual_replicas = pos 0;
  draining_replicas = pos 0;
  pending_tasks = pos 0;
  running_tasks = pos 0;
  last_scale_time = 0;
  last_task_time = 0;
  first_pending_time = 0;
}

pub record Resources (F : Type 0) : Type 0 where
  pub gpu_count : ℤ
  pub cpu_cores : F
  pub memory_gb : F

pub data Reason : Type 0 where
  no_reason : Reason
  queue_exceeds : (pending threshold : ℤ) → Reason
  minimal_guarantee : Reason
  priority_based : Reason
  idle_for : (nanoseconds : ℤ) → Reason
  worker_idle_for : String → (nanoseconds : ℤ) → Reason
  preempted_by : String → Reason
  after_preemption : List String → Reason
  insufficient_cluster : Reason
  insufficient_for_minimal : Reason
  insufficient_after_minimal : Reason

pub record ScaleDecision (F : Type 0) : Type 0 where
  pub endpoint : String
  pub current_replicas : ℤ
  pub desired_replicas : ℤ
  pub scale_amount : ℤ
  pub priority : ℤ
  pub base_priority : ℤ
  pub queue_length : ℤ
  pub reason : Reason
  pub approved : Bool
  pub blocked : Bool
  pub blocked_reason : Reason
  pub preempted_from : List String
  pub required_resource : Resources F

module _ {F : Type 0} (fl : Float64 F) where
  -- `Resources.Add`
  unfoldable pub add : Resources F → Resources F → Resources F
  add r other = record {
    gpu_count = add_int r.gpu_count other.gpu_count;
    cpu_cores = fl.add r.cpu_cores other.cpu_cores;
    memory_gb = fl.add r.memory_gb other.memory_gb;
  }

  -- `Resources.Subtract`
  unfoldable pub subtract : Resources F → Resources F → Resources F
  subtract r other = record {
    gpu_count = sub_int r.gpu_count other.gpu_count;
    cpu_cores = fl.sub r.cpu_cores other.cpu_cores;
    memory_gb = fl.sub r.memory_gb other.memory_gb;
  }

  -- `Resources.CanAllocate`: a negative GPU count and a CPU or memory amount of at most zero
  -- stand for no limit.
  unfoldable pub can_allocate : Resources F → Resources F → Bool
  can_allocate r required =
      let gpu_ok = ltb_ℤ r.gpu_count (pos 0) || leb_ℤ required.gpu_count r.gpu_count in
      let cpu_ok = fl.le r.cpu_cores (fl.of_int (pos 0)) || fl.le required.cpu_cores r.cpu_cores in
      let mem_ok = fl.le r.memory_gb (fl.of_int (pos 0)) || fl.le required.memory_gb r.memory_gb in
      gpu_ok && cpu_ok && mem_ok

-- `CalculateEndpointResource` as its callers see it: an endpoint and a replica count give the
-- resources, or an error.
abbrev pub Calculate : Type 0 → Type 0
Calculate F = EndpointConfig → ℤ → Option (Resources F)

-- The decision engine with what one pass reads: Go's floats, the resource calculator, the clock
-- and `Config.StarvationTime`. A pass sees the clock stand still.
pub record DecisionEngine (F : Type 0) : Type 0 where
  pub fl : Float64 F
  pub calculate : Calculate F
  pub now : Time
  pub starvation_time : ℤ
