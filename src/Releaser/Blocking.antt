-- ===== src/Releaser/Blocking.antt =====
-- What the health that the releaser writes makes of a later scale-up: UpdateEndpointHealthStatus of
-- pkg/resource/releaser.go against IsBlockedDueToImageFailure of
-- pkg/store/mysql/endpoint_repository.go.
use waverless.Base.{
  ◌≡◌, inl, inr, refl, Bool, true, false, some, List, [], ◌∷◌, map, String, str_eq, Bool-cases,
  if◌then◌else◌, ap, arith,
}
use waverless.Store.{WorkerRow, EndpointRow, Db, Query}
use waverless.Store.Workers.{get_by_endpoint}
use waverless.Store.Endpoints.{
  message_of, update_health_status, find_endpoint, is_image_related_failure,
  is_blocked_due_to_image_failure,
}
use waverless.Releaser.{
  State, Setting, unhealthy, first_reason, health_of, message_for, update_endpoint_health_status,
}

-- A change of the rows of one endpoint that keeps its name is found again.
find_endpoint-map :
    (name : String) (change : EndpointRow → EndpointRow) (eps : List EndpointRow) {ep : EndpointRow}
    → ((r : EndpointRow) → (change r).endpoint ≡ r.endpoint)
    → find_endpoint name eps ≡ some ep
    → find_endpoint name (map (λ r. if str_eq r.endpoint name then change r else r) eps)
      ≡ some (change ep)
find_endpoint-map name change [] same found = cc
find_endpoint-map name change (r ∷ eps) {ep} same found =
    elim (Bool-cases (str_eq r.endpoint name)) [
      | inl here ↦
          let is_ep : r ≡ ep = ground (arith, found) in
          simp (here, same r) (ap (λ x. some (change x)) is_ep)
      | inr other ↦
          let later : find_endpoint name eps ≡ some ep = ground (arith, found) in
          simp other (find_endpoint-map name change eps same later)
    ]

-- The message of an unhealthy endpoint is not empty.
message_for_unhealthy :
    (ws : List WorkerRow) → message_of (message_for unhealthy ws) ≡ some (message_for unhealthy ws)
unfolding message_for
message_for_unhealthy ws = elim (Bool-cases (str_eq (first_reason ws) "")) [
  | inl silent ↦ simp silent
  | inr given ↦ simp given
]

-- What the check of the image answers about an endpoint that is unhealthy with a message.
abbrev pub verdict : String → Bool × String
verdict message = if is_image_related_failure message then (true, message) else (false, "")

-- When an endpoint turns unhealthy, what keeps it from being scaled up is its message alone: the
-- check answers that it is blocked exactly when the message is about an image, where the database
-- does not fail and has the endpoint.
pub update_endpoint_health_status-verdict :
    (e : Setting) (s : State) (name : String) {ws : List WorkerRow} {ep : EndpointRow}
    → ((db : Db) (q : Query) → e.fails db q ≡ false)
    → get_by_endpoint e.fails s.db name ≡ some ws
    → health_of ws ≡ unhealthy
    → find_endpoint name s.db.endpoints ≡ some ep
    → is_blocked_due_to_image_failure e.fails (update_endpoint_health_status e s name).db name
      ≡ some (verdict (message_for unhealthy ws))
unfolding update_endpoint_health_status update_health_status is_blocked_due_to_image_failure
update_endpoint_health_status-verdict e s name {ws} {ep} up active poor there =
    let message = message_for unhealthy ws in
    let written =
      find_endpoint-map name
        (λ r. record r {
          health_status = "UNHEALTHY";
          health_message = some message;
          last_health_check_at = some e.now;
          updated_at = e.now;
        })
        s.db.endpoints (λ r. refl) there in
    simp (
      active,
      poor,
      up,
      written,
      message_for_unhealthy ws,
      update_endpoint_health_status,
      update_health_status,
      is_blocked_due_to_image_failure,
    )
