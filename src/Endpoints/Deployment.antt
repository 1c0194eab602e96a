-- ===== src/Endpoints/Deployment.antt =====
-- internal/service/endpoint/deployment.go. The deployment provider and the image validator are
-- parameters; the calls that the provider took are kept, the latest first.
pub mod Admission
pub mod Health
use waverless.Base.{
  ℕ, Bool, true, false, not, ◌&&◌, Option, none, some, List, [], ◌∷◌, String, str_eq, ℤ, pos, eqb_ℤ,
  ltb_ℤ, if◌then◌else◌, Time,
}
use waverless.Base.Dict.{StringMap}
use waverless.Images.Cache.{ImageValidationResult}
use waverless.Store.{EndpointRow, Db}
use waverless.Store.Endpoints.{update_health_status, is_blocked_due_to_image_failure}
use waverless.Store.Catalog.{get_endpoint}
use waverless.Endpoints.Conversion.{EndpointMetadata}
use waverless.Endpoints.Requests.{
  RegistryCredential, DeployRequest, UpdateDeploymentRequest, DeployResponse, Checked, check_failed,
  no_answer, checked, ProviderCall, deploys, updates, deletes,
}
use waverless.Endpoints.Metadata.{MetadataManager, save, get, delete_metadata}

-- `config.ImageValidationConfig`, as far as it is read here.
pub record ImageConfig : Type 0 where
  pub enabled : Bool
  pub skip_on_timeout : Bool

-- `DeploymentManager`: what is there, and the answers of the provider and of the validator. The
-- statements that fail are those of the metadata manager.
pub record DeploymentManager : Type 0 where
  pub has_provider : Bool
  pub has_metadata : Bool
  pub metadata : MetadataManager
  pub has_validator : Bool
  pub image_config : Option ImageConfig
  pub is_valid_format : String → Bool
  pub check_image_exists : String → Option RegistryCredential → Checked
  pub deployed : DeployRequest → Option DeployResponse
  pub updated : UpdateDeploymentRequest → Option DeployResponse
  pub deleted : String → Bool

pub data DeployError : Type 0 where
  no_provider nil_request invalid_format : DeployError
  validation_failed not_there not_accessible : DeployError
  blocked : (reason : String) → DeployError
  provider_failed not_saved : DeployError
  crashed : DeployError

pub record State : Type 0 where
  pub db : Db
  pub calls : List ProviderCall

-- Both results of a method may be there.
abbrev pub Answer : Type 0
Answer = State × Option DeployResponse × Option DeployError

module _ (m : DeploymentManager) where
  abbrev pub refuse : State → DeployError → Answer
  refuse s e = (s, none, some e)

  abbrev pub config_enabled : Option ImageConfig → Bool
  config_enabled none = false
  config_enabled (some c) = c.enabled

  abbrev pub should_validate : Option Bool → Bool
  should_validate none = config_enabled m.image_config
  should_validate (some asked) = asked

  abbrev pub format_error : DeployRequest → Option DeployError
  format_error req =
      if m.has_validator && not (str_eq req.image "") && not (m.is_valid_format req.image)
      then some invalid_format
      else none

  -- An error of the check counts unless it is to be skipped; with no configuration that is read
  -- through a nil pointer.
  abbrev pub error_of_failure : Option ImageConfig → Option DeployError
  error_of_failure none = some crashed
  error_of_failure (some c) = if c.skip_on_timeout then none else some validation_failed

  abbrev pub error_of_result : ImageValidationResult → Option DeployError
  error_of_result result =
      if not result.valid
      then some validation_failed
      else if not (str_eq result.error "") && not result.exists
      then some not_there
      else if not (str_eq result.error "") && result.exists && not result.accessible
      then some not_accessible
      else none

  abbrev pub error_of_check : Checked → Option DeployError
  error_of_check check_failed = error_of_failure m.image_config
  error_of_check no_answer = none
  error_of_check (checked result) = error_of_result result

  unfoldable pub existence_error : DeployRequest → Option DeployError
  existence_error req =
      if m.has_validator && should_validate req.validate_image && not (str_eq req.image "")
      then error_of_check (m.check_image_exists req.image req.registry_credential)
      else none

  -- The fields that the metadata takes over from the request where it has none.
  abbrev pub completed : DeployRequest → EndpointMetadata → EndpointMetadata
  completed req meta = record meta {
    name = if str_eq meta.name "" then req.endpoint else meta.name;
    spec_name = if str_eq meta.spec_name "" then req.spec_name else meta.spec_name;
    image = if str_eq meta.image "" then req.image else meta.image;
    replicas = if eqb_ℤ meta.replicas (pos 0) then req.replicas else meta.replicas;
    task_timeout = if eqb_ℤ meta.task_timeout (pos 0) then req.task_timeout else meta.task_timeout;
  }

  abbrev pub saved_answer : State → DeployResponse → Db × Bool → Answer
  saved_answer s resp (db, true) = (record s { db = db }, some resp, none)
  saved_answer s resp (db, false) = (record s { db = db }, some resp, some not_saved)

  abbrev pub persist :
      State → Time → DeployRequest → Option EndpointMetadata → DeployResponse → Answer
  persist s now req none resp = (s, some resp, none)
  persist s now req (some meta) resp =
      if m.has_metadata
      then saved_answer s resp (save m.metadata s.db now (completed req meta))
      else (s, some resp, none)

  abbrev pub after_deploy :
      State → Time → DeployRequest → Option EndpointMetadata → Option DeployResponse → Answer
  after_deploy s now req meta none = refuse s provider_failed
  after_deploy s now req meta (some resp) = persist s now req meta resp

  abbrev pub provision :
      State → Time → DeployRequest → Option EndpointMetadata → Option DeployError → Answer
  provision s now req meta (some e) = refuse s e
  provision s now req meta none =
      after_deploy (record s { calls = deploys req ∷ s.calls }) now req meta (m.deployed req)

  abbrev pub or_else : Option DeployError → Option DeployError → Option DeployError
  or_else none later = later
  or_else (some e) later = some e

  unfoldable pub deploy : State → Time → Option DeployRequest → Option EndpointMetadata → Answer
  unfolding existence_error
  deploy s now none meta = refuse s (if m.has_provider then nil_request else no_provider)
  deploy s now (some req) meta =
      if not m.has_provider
      then refuse s no_provider
      else provision s now req meta (or_else (format_error req) (existence_error req))

  -- The reason for which a scale-up without a new image is refused. An error lets it through.
  abbrev pub reason_of : Option (Bool × String) → Option String
  reason_of (some (true, reason)) = some reason
  reason_of _ = none

  abbrev pub reason_to_grow : Db → String → ℤ → Option (Option EndpointRow) → Option String
  reason_to_grow db name wanted (some (some ep)) =
      if ltb_ℤ ep.replicas wanted
      then reason_of (is_blocked_due_to_image_failure m.metadata.fails db name)
      else none
  reason_to_grow db name wanted _ = none

  abbrev pub growth_block : Db → UpdateDeploymentRequest → Option ℤ → Option String
  growth_block db req none = none
  growth_block db req (some wanted) =
      if m.metadata.has_endpoints && str_eq req.image ""
      then reason_to_grow db req.endpoint wanted (get_endpoint m.metadata.fails db req.endpoint)
      else none

  -- A request with an image makes the endpoint healthy, whether the write fails or not.
  abbrev pub health_reset : Db → Time → UpdateDeploymentRequest → Db
  health_reset db now req =
      if m.metadata.has_endpoints && not (str_eq req.image "")
      then (update_health_status m.metadata.fails db req.endpoint "HEALTHY" "" now).0
      else db

  abbrev pub status_for : ℤ → String → String
  status_for replicas status =
      if eqb_ℤ replicas (pos 0)
      then "Stopped"
      else if str_eq status "Stopped"
      then "Pending"
      else if str_eq status "Deploying"
      then "Pending"
      else status

  abbrev pub with_replicas : Option ℤ → EndpointMetadata → EndpointMetadata
  with_replicas none meta = meta
  with_replicas (some n) meta = record meta { replicas = n; status = status_for n meta.status }

  abbrev pub given {ℓ} : {A : Type ℓ} → A → Option A → A
  given before none = before
  given before (some a) = a

  abbrev pub with_update : UpdateDeploymentRequest → EndpointMetadata → EndpointMetadata
  with_update req meta =
      let sized = with_replicas req.replicas meta in
      record sized {
        spec_name = if str_eq req.spec_name "" then meta.spec_name else req.spec_name;
        image = if str_eq req.image "" then meta.image else req.image;
        task_timeout = given meta.task_timeout req.task_timeout;
        enable_ptrace = given meta.enable_ptrace req.enable_ptrace;
        env = given meta.env req.env;
      }

  abbrev pub sync_found :
      State
      → Time
      → UpdateDeploymentRequest
      → DeployResponse
      → Option (Option EndpointMetadata)
      → Answer
  sync_found s now req resp (some (some meta)) =
      saved_answer s resp (save m.metadata s.db now (with_update req meta))
  sync_found s now req resp _ = (s, some resp, none)

  abbrev pub after_update : State → Time → UpdateDeploymentRequest → Option DeployResponse → Answer
  after_update s now req none = refuse s provider_failed
  after_update s now req (some resp) =
      if m.has_metadata
      then sync_found s now req resp (get m.metadata s.db req.endpoint)
      else (s, some resp, none)

  abbrev pub unless_blocked : State → Time → UpdateDeploymentRequest → Option String → Answer
  unless_blocked s now req (some reason) = refuse s (blocked reason)
  unless_blocked s now req none =
      after_update (record s { db = health_reset s.db now req; calls = updates req ∷ s.calls }) now
        req (m.updated req)

  unfoldable pub update : State → Time → Option UpdateDeploymentRequest → Answer
  update s now none = refuse s (if m.has_provider then nil_request else no_provider)
  update s now (some req) =
      if not m.has_provider
      then refuse s no_provider
      else unless_blocked s now req (growth_block s.db req req.replicas)

  unfoldable pub delete_deployment : State → Time → String → State × Option DeployError
  delete_deployment s now name =
      if not m.has_provider
      then (s, some no_provider)
      else (let called = record s { calls = deletes name ∷ s.calls } in
          if not (m.deleted name)
          then (called, some provider_failed)
          else if not m.has_metadata
          then (called, none)
          else (let written = delete_metadata m.metadata s.db now name in
              (record called { db = written.0 }, if written.1 then none else some not_saved)))
