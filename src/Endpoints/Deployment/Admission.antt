-- ===== src/Endpoints/Deployment/Admission.antt =====
-- internal/service/endpoint/deployment.go: which requests reach the deployment provider.
use waverless.Base.{
  ◌≡◌, ◌≢◌, ◌⊎◌, inl, inr, refl, Bool, true, false, Option, none, some, ◌∷◌, String, str_eq, ℤ,
  leb_ℤ, ltb_ℤ, Bool-cases, Option-cases, arith, eq_iff, Time,
}
use waverless.Images.Cache.{ImageValidationResult}
use waverless.Store.{EndpointRow}
use waverless.Store.Endpoints.{is_blocked_due_to_image_failure}
use waverless.Store.Catalog.{get_endpoint}
use waverless.Endpoints.Conversion.{EndpointMetadata}
use waverless.Endpoints.Requests.{
  DeployRequest, UpdateDeploymentRequest, DeployResponse, checked, deploys,
}
use waverless.Endpoints.Deployment.{
  DeploymentManager, State, Answer, DeployError, blocked, should_validate, format_error,
  error_of_check, error_of_result, existence_error, or_else, persist, after_deploy, provision,
  saved_answer, deploy, growth_block, after_update, unless_blocked, sync_found, update,
}

-- An image that the validator found fit: what it says of the image is no error, or is about an
-- image that is there and accessible.
abbrev pub IsFit : ImageValidationResult → Type 0
IsFit r = (r.valid ≡ true) × ((r.error ≡ "") ⊎ ((r.exists ≡ true) × (r.accessible ≡ true)))

-- What has been seen of a request that is deployed.
pub record IsAdmitted (m : DeploymentManager) (req : DeployRequest) : Type 0 where
  pub provider : m.has_provider ≡ true
  pub format : m.has_validator ≡ true → req.image ≢ "" → m.is_valid_format req.image ≡ true
  pub image :
      m.has_validator ≡ true
      → should_validate m req.validate_image ≡ true
      → req.image ≢ ""
      → (r : ImageValidationResult)
      → m.check_image_exists req.image req.registry_credential ≡ checked r
      → IsFit r

module _ (m : DeploymentManager) where
  saved_answer-calls :
      (s : State) (resp : DeployResponse) (written : waverless.Store.Db × Bool)
      → (saved_answer m s resp written).0.calls ≡ s.calls
  saved_answer-calls s resp (db, true) = refl
  saved_answer-calls s resp (db, false) = refl

  after_deploy-calls :
      (s : State) (now : Time) (req : DeployRequest) (meta : Option EndpointMetadata)
      (resp : Option DeployResponse)
      → (after_deploy m s now req meta resp).0.calls ≡ s.calls
  after_deploy-calls s now req meta none = refl
  after_deploy-calls s now req none (some resp) = refl
  after_deploy-calls s now req (some meta) (some resp) = elim (Bool-cases m.has_metadata) [
    | inl on ↦ rw on (saved_answer-calls s resp _)
    | inr off ↦ rw off refl
  ]

  is_named : (image : String) → image ≢ "" → str_eq image "" ≡ false
  is_named image set = ground (arith, eq_iff image "", set)

  IsFit-of_result : (r : ImageValidationResult) → error_of_result m r ≡ none → IsFit r
  IsFit-of_result r clear = elim (Bool-cases r.valid) [
    | inr bad ↦ absurd (ground (arith, bad, clear))
    | inl good ↦ elim (Bool-cases (str_eq r.error "")) [
      | inl quiet ↦ (good, inl (ground (arith, eq_iff r.error "", quiet)))
      | inr loud ↦
          (good, inr (ground (arith, good, loud, clear), ground (arith, good, loud, clear)))
    ]
  ]

  IsFit-of_no_error :
      (req : DeployRequest)
      → existence_error m req ≡ none
      → m.has_validator ≡ true
      → should_validate m req.validate_image ≡ true
      → req.image ≢ ""
      → (r : ImageValidationResult)
      → m.check_image_exists req.image req.registry_credential ≡ checked r
      → IsFit r
  unfolding existence_error
  IsFit-of_no_error req clear validator wanted image r answer =
      IsFit-of_result r (simp (validator, wanted, is_named req.image image, answer) at clear)

  valid_of_no_error :
      (req : DeployRequest)
      → format_error m req ≡ none
      → m.has_validator ≡ true
      → req.image ≢ ""
      → m.is_valid_format req.image ≡ true
  valid_of_no_error req clear validator image =
      ground (arith, clear, validator, is_named req.image image)

  both_clear :
      (first second : Option DeployError)
      → or_else m first second ≡ none
      → (first ≡ none) × (second ≡ none)
  both_clear none second clear = (refl, clear)
  both_clear (some e) second clear = cc

  -- A deployment reaches the provider only if it was admitted: Deploy fails and calls nothing, or
  -- it calls the provider once, for a request whose image has a valid format where a validator is
  -- there, and was found fit where the check is switched on and gave a result.
  pub deploy-IsAdmitted :
      (s : State) (now : Time) (req : DeployRequest) (meta : Option EndpointMetadata)
      → (((deploy m s now (some req) meta).0 ≡ s)
          × ((e : DeployError) × ((deploy m s now (some req) meta).2 ≡ some e)))
        ⊎ (((deploy m s now (some req) meta).0.calls ≡ deploys req ∷ s.calls) × IsAdmitted m req)
  unfolding deploy
  deploy-IsAdmitted s now req meta = elim (Bool-cases m.has_provider) [
    | inr off ↦ inl (rw off refl, (waverless.Endpoints.Deployment.no_provider, rw off refl))
    | inl on ↦ elim (Option-cases (or_else m (format_error m req) (existence_error m req))) [
      | inr (e, refused) ↦ inl (rw (on, refused) refl, (e, rw (on, refused) refl))
      | inl clear ↦ inr (
        rw (on, clear)
            (after_deploy-calls (record s { calls = deploys req ∷ s.calls }) now req meta
              (m.deployed req)),
        record {
          provider = on;
          format = valid_of_no_error req (both_clear _ _ clear).0;
          image = IsFit-of_no_error req (both_clear _ _ clear).1;
        },
      )
    ]
  ]

  -- A blocked endpoint does not grow: where an update without an image reaches the provider, and
  -- the endpoint is found and blocked by an image that fails, the replicas that it asks for are no
  -- more than those that the endpoint has.
  pub update-grows :
      (s : State) (now : Time) (req : UpdateDeploymentRequest) (wanted : ℤ) (ep : EndpointRow)
      (reason : String)
      → m.metadata.has_endpoints ≡ true
      → req.image ≡ ""
      → req.replicas ≡ some wanted
      → get_endpoint m.metadata.fails s.db req.endpoint ≡ some (some ep)
      → is_blocked_due_to_image_failure m.metadata.fails s.db req.endpoint ≡ some (true, reason)
      → (update m s now (some req)).0.calls ≢ s.calls
      → leb_ℤ wanted ep.replicas ≡ true
  unfolding update
  update-grows s now req wanted ep reason endpoints no_image replicas found stuck called =
      elim (Bool-cases (ltb_ℤ ep.replicas wanted)) [
        | inr small ↦ ground (arith, small)
        | inl grows ↦ absurd (
            called (elim (Bool-cases m.has_provider) [
              | inr off ↦ rw off refl
              | inl on ↦ rw (on, replicas, endpoints, no_image, found, grows, stuck) refl
            ]))
      ]
