-- ===== src/Endpoints/Requests.antt =====
-- pkg/interfaces/deployment.go: what goes to the deployment provider and to the image validator.
use waverless.Base.{Bool, Option, String, ℤ}
use waverless.Base.Dict.{StringMap}
use waverless.Images.Cache.{ImageValidationResult}

pub record RegistryCredential : Type 0 where
  pub registry : String
  pub username : String
  pub password : String

-- `interfaces.DeployRequest`, without the fields that only the provider reads.
pub record DeployRequest : Type 0 where
  pub endpoint : String
  pub spec_name : String
  pub image : String
  pub replicas : ℤ
  pub task_timeout : ℤ
  pub validate_image : Option Bool
  pub registry_credential : Option RegistryCredential

pub record UpdateDeploymentRequest : Type 0 where
  pub endpoint : String
  pub spec_name : String
  pub image : String
  pub replicas : Option ℤ
  pub enable_ptrace : Option Bool
  pub env : Option (Option (StringMap String))
  pub task_timeout : Option ℤ

pub record DeployResponse : Type 0 where
  pub endpoint : String
  pub message : String
  pub created_at : String

-- What `CheckImageExists` answers: an error, nil, or a result.
pub data Checked : Type 0 where
  check_failed no_answer : Checked
  checked : ImageValidationResult → Checked

pub data ProviderCall : Type 0 where
  deploys : DeployRequest → ProviderCall
  updates : UpdateDeploymentRequest → ProviderCall
  deletes : String → ProviderCall
