-- ===== src/Autoscaler/World.antt =====
-- What the executor of pkg/autoscaler/executor.go sees of its surroundings: the deployment
-- provider, the endpoint service, the repositories, the worker lister and the clock. An answer may
-- depend on everything that was called before.
use waverless.Base.{ℕ, Bool, Option, none, some, List, ◌∷◌, String, ℤ, Time}
use waverless.Autoscaler.Types.{ScaleDecision, Reason}

-- The worker of internal/model/worker.go, as far as the autoscaler reads it.
pub record Worker : Type 0 where
  pub id : String
  pub status : String
  pub current_jobs : ℤ
  pub last_task_time : Time
  pub registered_at : Time

-- The endpoint metadata that the executor reads or writes; it leaves the other fields alone.
pub record Metadata : Type 0 where
  pub name : String
  pub replicas : ℤ
  pub status : String
  pub last_scale_time : Time
  pub created_at : Time
  pub updated_at : Time

-- The values of the `Action` column.
pub data Action : Type 0 where
  blocked scale_up_blocked_image_failure scale_up preempted : Action
  scale_down scale_down_aborted scale_down_blocked orphan_fixed : Action

-- The texts of the `Reason` column.
pub data EventText : Type 0 where
  reason_of : Reason → EventText
  unhealthy_image : String → EventText
  confirmed_idle : Reason → String → EventText
  running_tasks_detected : String → EventText
  no_idle_worker_available : EventText
  deployment_not_found : EventText

-- `mysql.ScalingEvent` without its identifiers.
pub record Event : Type 0 where
  pub endpoint : String
  pub timestamp : Time
  pub action : Action
  pub from_replicas : ℤ
  pub to_replicas : ℤ
  pub reason : EventText
  pub queue_length : ℤ
  pub priority : ℤ
  pub preempted_from : List String

pub data Call (F : Type 0) : Type 0 where
  check_image : String → Call F
  update_deployment : String → ℤ → Call F
  get_endpoint : String → Call F
  update_endpoint : Metadata → Call F
  create_event : Event → Call F
  list_workers : String → Call F
  get_worker : String → Call F
  get_tasks : String → Call F
  mark_draining : String → Call F
  set_deletion_cost : String → ℤ → Call F
  get_app : String → Call F
  latest_event : String → Call F
  spawn_graceful : ScaleDecision F → String → Call F

-- The calls made, the latest first.
abbrev pub Log : Type 0 → Type 0
Log F = List (Call F)

-- The answers. `none` is an error (and a nil worker), and `false` a failed write. `GetEndpoint` may
-- also answer nil metadata and no error, which is `some none`.
pub record Env (F : Type 0) : Type 0 where
  pub has_endpoint_repo : Bool
  pub has_k8s : Bool
  pub now : Log F → Time
  pub image_blocked : Log F → String → Option (Bool × String)
  pub deployment_updated : Log F → String → ℤ → Bool
  pub endpoint_of : Log F → String → Option (Option Metadata)
  pub endpoint_updated : Log F → Metadata → Bool
  pub workers_of : Log F → String → Option (List Worker)
  pub worker_of : Log F → String → Option Worker
  pub tasks_of : Log F → String → Option ℕ
  pub app_exists : Log F → String → Bool
  pub last_event_of : Log F → String → Option Event

-- An action has a result, or panics, and the process ends with the calls made so far.
abbrev pub M : Type 0 → Type 0 → Type 0
M F A = Log F → Option A × Log F

abbrev pub pure : {F A : Type 0} → A → M F A
pure a log = (some a, log)

-- What Go does on a field of a nil pointer.
abbrev pub crash : {F A : Type 0} → M F A
crash log = (none, log)

abbrev pub after : {F A B : Type 0} → (A → M F B) → Option A × Log F → Option B × Log F
after f (none, log) = (none, log)
after f (some a, log) = f a log

infixl 5 ◌>>=◌ ◌>>◌
abbrev pub ◌>>=◌ : {F A B : Type 0} → M F A → (A → M F B) → M F B
◌>>=◌ m f log = after f (m log)

abbrev pub ◌>>◌ : {F A B : Type 0} → M F A → M F B → M F B
m >> k = m >>= λ _. k

-- A call, with its answer.
abbrev pub ask : {F A : Type 0} → Call F → (Log F → A) → M F A
ask c answer log = (some (answer log), c ∷ log)

-- A call whose answer the code only logs.
abbrev pub send : {F : Type 0} → Call F → M F (Unit {0})
send c log = (some tt, c ∷ log)
