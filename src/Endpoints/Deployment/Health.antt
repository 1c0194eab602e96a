-- ===== src/Endpoints/Deployment/Health.antt =====
-- internal/service/endpoint/deployment.go: a new image makes the endpoint healthy again.
use mathlib.Core.Path.{subst}
use waverless.Base.{
  ◌≡◌, ◌≢◌, refl, sym, ◌∙◌, Bool, true, false, Option, none, some, ◌∷◌, String, str_eq, ℤ,
  Bool-cases, inl, inr, if◌then◌else◌, arith, eq_iff, Time,
}
use waverless.Store.{Db, Query}
use waverless.Store.Endpoints.{update_health_status, is_blocked_due_to_image_failure}
use waverless.Endpoints.Conversion.{EndpointMetadata}
use waverless.Endpoints.Metadata.{get}
use waverless.Endpoints.Metadata.Messages.{
  HasNoMessage, unblocked_of_HasNoMessage, reset-HasNoMessage, save-HasNoMessage, get-name,
}
use waverless.Endpoints.Requests.{UpdateDeploymentRequest, DeployResponse, updates}
use waverless.Endpoints.Deployment.{
  DeploymentManager, State, growth_block, health_reset, with_replicas, with_update, after_update,
  saved_answer, sync_found, update,
}

-- What holds of both answers holds of the one that is given.
if_both : {A : Type 0} (P : A → Type 0) (b : Bool) (x y : A) → P x → P y → P (if b then x else y)
if_both P true x y px py = px
if_both P false x y px py = py

module _ (m : DeploymentManager) (works : (d : Db) (q : Query) → m.metadata.fails d q ≡ false) where
  saved_answer-db :
      (s : State) (resp : DeployResponse) (written : Db × Bool)
      → (saved_answer m s resp written).0.db ≡ written.0
  saved_answer-db s resp (db, true) = refl
  saved_answer-db s resp (db, false) = refl

  with_update-name :
      (req : UpdateDeploymentRequest) (meta : EndpointMetadata)
      → (with_update m req meta).name ≡ meta.name
  with_update-name req meta = sized req.replicas
    where
      sized : (n : Option ℤ) → (with_replicas m n meta).name ≡ meta.name
      sized none = refl
      sized (some n) = refl

  sync_found-HasNoMessage :
      (s : State) (now : Time) (req : UpdateDeploymentRequest) (resp : DeployResponse)
      (got : Option (Option EndpointMetadata))
      → ((meta : EndpointMetadata) → got ≡ some (some meta) → meta.name ≡ req.endpoint)
      → m.metadata.has_endpoints ≡ true
      → HasNoMessage s.db req.endpoint
      → HasNoMessage (sync_found m s now req resp got).0.db req.endpoint
  sync_found-HasNoMessage s now req resp none named endpoints quiet = quiet
  sync_found-HasNoMessage s now req resp (some none) named endpoints quiet = quiet
  sync_found-HasNoMessage s now req resp (some (some meta)) named endpoints quiet =
      let same = with_update-name req meta ∙ named meta refl in
      let before = subst (HasNoMessage s.db) (sym same) quiet in
      let changed = with_update m req meta in
      let after = save-HasNoMessage m.metadata works s.db now changed endpoints before in
      subst (HasNoMessage (sync_found m s now req resp (some (some meta))).0.db) same
        (subst (λ db. HasNoMessage db changed.name) (sym (saved_answer-db s resp _)) after)

  after_update-HasNoMessage :
      (s : State) (now : Time) (req : UpdateDeploymentRequest) (resp : Option DeployResponse)
      → m.metadata.has_endpoints ≡ true
      → HasNoMessage s.db req.endpoint
      → HasNoMessage (after_update m s now req resp).0.db req.endpoint
  after_update-HasNoMessage s now req none endpoints quiet = quiet
  after_update-HasNoMessage s now req (some resp) endpoints quiet =
      if_both (λ answer. HasNoMessage answer.0.db req.endpoint) m.has_metadata
        (sync_found m s now req resp (get m.metadata s.db req.endpoint)) (s, some resp, none)
        (sync_found-HasNoMessage s now req resp (get m.metadata s.db req.endpoint)
          (λ meta e. get-name m.metadata works s.db req.endpoint meta endpoints e) endpoints quiet)
        quiet

  named_image : (image : String) → image ≢ "" → str_eq image "" ≡ false
  named_image image set = ground (arith, eq_iff image "", set)

  health_reset-HasNoMessage :
      (db : Db) (now : Time) (req : UpdateDeploymentRequest)
      → m.metadata.has_endpoints ≡ true
      → req.image ≢ ""
      → HasNoMessage (health_reset m db now req) req.endpoint
  unfolding update_health_status
  health_reset-HasNoMessage db now req endpoints image =
      rw (endpoints, named_image req.image image, works)
        (reset-HasNoMessage req.endpoint now db.endpoints)

  growth_block-image :
      (db : Db) (req : UpdateDeploymentRequest) (wanted : Option ℤ)
      → req.image ≢ ""
      → growth_block m db req wanted ≡ none
  growth_block-image db req none image = refl
  growth_block-image db req (some wanted) image = elim (Bool-cases m.metadata.has_endpoints) [
    | inl on ↦ rw (on, named_image req.image image) refl
    | inr off ↦ rw off refl
  ]

  -- A new image lets an endpoint grow again: after an update that names an image, where the
  -- repository is there and no statement fails, the endpoint is not blocked, whether the provider
  -- took the update or not, and whatever image it had.
  pub update-unblocks :
      (s : State) (now : Time) (req : UpdateDeploymentRequest)
      → m.has_provider ≡ true
      → m.metadata.has_endpoints ≡ true
      → req.image ≢ ""
      → is_blocked_due_to_image_failure m.metadata.fails
          (update m s now (some req)).0.db
          req.endpoint
        ≡ some (false, "")
  unfolding update
  update-unblocks s now req on endpoints image =
      unblocked_of_HasNoMessage m.metadata.fails _ req.endpoint works (
        rw (on, growth_block-image s.db req req.replicas image)
          (after_update-HasNoMessage
            (record s { db = health_reset m s.db now req; calls = updates req ∷ s.calls }) now req
            (m.updated req) endpoints (health_reset-HasNoMessage s.db now req endpoints image)))
