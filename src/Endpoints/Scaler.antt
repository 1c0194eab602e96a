-- ===== src/Endpoints/Scaler.antt =====
-- internal/service/endpoint/scaler.go. The deployment provider is a parameter: it answers whether
-- it scaled, and the calls that it took are kept, the latest first.
pub mod Gate
use waverless.Base.{
  ℕ, Bool, true, false, not, Option, none, some, List, [], ◌∷◌, String, ℤ, pos, add_int, sub_int,
  leb_ℤ, ltb_ℤ, if◌then◌else◌, Time,
}
use waverless.Store.{EndpointRow, ConfigRow, Db, Fails}
use waverless.Store.Endpoints.{is_blocked_due_to_image_failure}
use waverless.Store.Catalog.{
  get_endpoint, update_endpoint_replicas, get_config_row, update_config_replicas,
}

-- `interfaces.AppStatus`, as far as it is read.
pub record AppStatus : Type 0 where
  pub status : String
  pub total_replicas : ℤ
  pub ready_replicas : ℤ

-- `ScalerManager`: what is there, which statements fail, and what the provider answers.
pub record ScalerManager : Type 0 where
  pub fails : Fails
  pub has_provider : Bool
  pub has_endpoints : Bool
  pub has_configs : Bool
  pub scales : String → ℤ → Bool
  pub app_status : String → Option AppStatus

pub data ScaleError : Type 0 where
  not_positive : ScaleError
  blocked : (reason : String) → ScaleError
  no_provider no_repository : ScaleError
  not_read not_found not_scaled not_written : ScaleError

pub record Scaled : Type 0 where
  pub db : Db
  pub calls : List (String × ℤ)

pub record ScalingStatus : Type 0 where
  pub endpoint : String
  pub desired_replicas : ℤ
  pub current_replicas : ℤ
  pub ready_replicas : ℤ
  pub status : String
  pub last_scale_time : Time

module _ (m : ScalerManager) where
  -- The replicas in the configuration are written last, and an error is thrown away.
  abbrev pub write_replicas : Scaled → Time → String → ℤ → Db × Bool → Scaled × Option ScaleError
  write_replicas s now name target (db, false) = (record s { db = db }, some not_written)
  write_replicas s now name target (db, true) = (
    record s {
      db = if m.has_configs then (update_config_replicas m.fails db now name target).0 else db;
    },
    none,
  )

  abbrev pub scale_row : Scaled → Time → String → (ℤ → ℤ) → EndpointRow → Scaled × Option ScaleError
  scale_row s now name next ep =
      let target = next ep.replicas in
      let called = record s { calls = (name, target) ∷ s.calls } in
      if m.scales name target
      then write_replicas called now name target
          (update_endpoint_replicas m.fails s.db now name target)
      else (called, some not_scaled)

  abbrev pub scale_found :
      Scaled → Time → String → (ℤ → ℤ) → Option (Option EndpointRow) → Scaled × Option ScaleError
  scale_found s now name next none = (s, some not_read)
  scale_found s now name next (some none) = (s, some not_found)
  scale_found s now name next (some (some ep)) = scale_row s now name next ep

  unfoldable pub scale_to : Scaled → Time → String → (ℤ → ℤ) → Scaled × Option ScaleError
  scale_to s now name next =
      if not m.has_provider
      then (s, some no_provider)
      else if not m.has_endpoints
      then (s, some no_repository)
      else scale_found s now name next (get_endpoint m.fails s.db name)

  -- The reason for which an endpoint may not grow. An error of the check lets it.
  abbrev pub reason_of : Option (Bool × String) → Option String
  reason_of none = none
  reason_of (some (true, reason)) = some reason
  reason_of (some (false, reason)) = none

  abbrev pub block_reason : Db → String → Option String
  block_reason db name =
      if m.has_endpoints then reason_of (is_blocked_due_to_image_failure m.fails db name) else none

  abbrev pub unless_blocked :
      Scaled → Time → String → ℤ → Option String → Scaled × Option ScaleError
  unless_blocked s now name delta (some reason) = (s, some (blocked reason))
  unless_blocked s now name delta none = scale_to s now name (λ current. add_int current delta)

  unfoldable pub scale_up : Scaled → Time → String → ℤ → Scaled × Option ScaleError
  unfolding scale_to
  scale_up s now name delta =
      if leb_ℤ delta (pos 0)
      then (s, some not_positive)
      else unless_blocked s now name delta (block_reason s.db name)

  abbrev pub at_least_zero : ℤ → ℤ
  at_least_zero n = if ltb_ℤ n (pos 0) then pos 0 else n

  unfoldable pub scale_down : Scaled → Time → String → ℤ → Scaled × Option ScaleError
  unfolding scale_to
  scale_down s now name delta =
      if leb_ℤ delta (pos 0)
      then (s, some not_positive)
      else scale_to s now name (λ current. at_least_zero (sub_int current delta))

  abbrev pub with_app_status : Option AppStatus → ScalingStatus → ScalingStatus
  with_app_status none status = status
  with_app_status (some app) status = record status {
    status = app.status;
    current_replicas = app.total_replicas;
    ready_replicas = app.ready_replicas;
  }

  abbrev pub with_config_time : Option (Option ConfigRow) → ScalingStatus → ScalingStatus
  with_config_time (some (some cfg)) status = record status { last_scale_time = cfg.updated_at }
  with_config_time _ status = status

  abbrev pub status_of : Db → String → EndpointRow → ScalingStatus
  status_of db name ep =
      let bare : ScalingStatus = record {
        endpoint = name;
        desired_replicas = ep.replicas;
        current_replicas = pos 0;
        ready_replicas = pos 0;
        status = "";
        last_scale_time = 0;
      } in
      let running = if m.has_provider then with_app_status (m.app_status name) bare else bare in
      if m.has_configs then with_config_time (get_config_row m.fails db name) running else running

  abbrev pub status_found : Db → String → Option (Option EndpointRow) → Option ScalingStatus
  status_found db name (some (some ep)) = some (status_of db name ep)
  status_found db name _ = none

  unfoldable pub get_scaling_status : Db → String → Option ScalingStatus
  get_scaling_status db name =
      if not m.has_endpoints then none else status_found db name (get_endpoint m.fails db name)
