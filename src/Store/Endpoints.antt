-- ===== src/Store/Endpoints.antt =====
-- pkg/store/mysql/endpoint_repository.go: the queries about health.
use waverless.Base.{
  ℕ, zero, suc, ◌+◌, ◌-◌, ◌==◌, leb, ltb, Bool, true, false, not, ◌&&◌, ◌||◌, Option, none, some,
  List, map, String, str_eq, select, if◌then◌else◌, Time,
}
use Prim.Native.String.{len}
use text.Mathlib.Text.{get?}
use waverless.Store.Workers.{find_row}
use waverless.Store.Tables.{EndpointRow, Db, Fails, health_update, by_health, endpoint_get}

-- An empty message is stored as NULL.
abbrev pub message_of : String → Option String
message_of s = if str_eq s "" then none else some s

-- `UpdateHealthStatus`: the database, and whether it was written.
unfoldable pub update_health_status : Fails → Db → String → String → String → Time → Db × Bool
update_health_status fails db name health message now =
    if fails db (health_update name) then (db, false) else (
      record db {
        endpoints =
            map
              (λ ep.
                if str_eq ep.endpoint name
                then record ep {
                  health_status = health;
                  health_message = message_of message;
                  last_health_check_at = some now;
                  updated_at = now;
                }
                else ep)
              db.endpoints;
      },
      true,
    )

-- `GetByHealthStatus`
unfoldable pub get_by_health_status : Fails → Db → String → Option (List EndpointRow)
get_by_health_status fails db health =
    if fails db (by_health health)
    then none
    else some (
        select (λ ep. str_eq ep.health_status health && not (str_eq ep.status "deleted"))
          db.endpoints)

-- `Get`: a missing row is no error.
abbrev pub find_endpoint : String → List EndpointRow → Option EndpointRow
find_endpoint name = find_row (λ ep. str_eq ep.endpoint name)

-- `s[i:i+len(substr)] == substr`. Bytes that begin or end inside a character are no text.
abbrev pub stands_at : String → String → ℕ → Bool
stands_at s substr i = elim (get? s i (i + len substr)) [ none ↦ false | some t ↦ str_eq t substr ]

-- The loop of `findSubstring` over the next `n` positions.
unfoldable pub stands_from : String → String → ℕ → ℕ → Bool
stands_from s substr zero i = false
stands_from s substr (suc n) i =
    let rest = stands_from s substr n (i + 1) in if stands_at s substr i then true else rest

-- `findSubstring`, for a text that is at least as long.
unfoldable pub find_substring : String → String → Bool
unfolding stands_from
find_substring s substr = stands_from s substr (len s - len substr + 1) 0

unfoldable pub contains : String → String → Bool
unfolding find_substring
contains s substr =
    leb (len substr) (len s)
    && (str_eq s substr
        || len substr == 0
        || (ltb 0 (len s) && ltb 0 (len substr) && find_substring s substr))

-- `isImageRelatedFailure`
unfoldable pub is_image_related_failure : String → Bool
unfolding contains
is_image_related_failure message =
    contains message "image"
    || contains message "Image"
    || contains message "IMAGE"
    || contains message "Worker startup failed"

-- The answer about a row that is there.
abbrev pub block_of : EndpointRow → Bool × String
block_of ep = elim ep.health_message [
  | none ↦ (false, "")
  | some message ↦
      if str_eq ep.health_status "UNHEALTHY" && is_image_related_failure message
      then (true, message)
      else (false, "")
]

-- `IsBlockedDueToImageFailure`; `none` is an error.
unfoldable pub is_blocked_due_to_image_failure : Fails → Db → String → Option (Bool × String)
is_blocked_due_to_image_failure fails db name =
    if fails db (endpoint_get name) then none else elim (find_endpoint name db.endpoints) [
      | none ↦ some (false, "")
      | some ep ↦ some (block_of ep)
    ]
