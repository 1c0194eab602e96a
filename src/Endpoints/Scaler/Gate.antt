-- ===== src/Endpoints/Scaler/Gate.antt =====
-- internal/service/endpoint/scaler.go: when the provider is asked to scale, and what the table says
-- afterwards.
use waverless.Base.{
  ◌≡◌, inl, inr, refl, ap, ◌∙◌, true, false, Option, none, some, List, [], ◌∷◌, map, String, str_eq,
  ℤ, pos, add_int, sub_int, wrap, leb_ℤ, ◌≤ℤ◌, IsInt, Bool-cases, Option-cases, if◌then◌else◌,
  arith, Time,
}
use waverless.Store.{EndpointRow, Db, Query}
use waverless.Store.Endpoints.{find_endpoint}
use waverless.Store.Catalog.{get_endpoint, update_endpoint_replicas, update_config_replicas}
use waverless.Endpoints.Scaler.{
  ScalerManager, blocked, no_provider, no_repository, not_positive, not_found, not_scaled, Scaled,
  scale_row, scale_to, block_reason, scale_up, at_least_zero, scale_down,
}

-- The call for a target, and a table that has the target too.
pub record Agrees (m : ScalerManager) (now : Time) (before after : Scaled) (name : String)
    (next : ℤ → ℤ) : Type 0 where
  pub row : EndpointRow
  pub found : find_endpoint name before.db.endpoints ≡ some row
  pub call : after.calls ≡ (name, next row.replicas) ∷ before.calls
  pub accepted : m.scales name (next row.replicas) ≡ true
  pub stored :
      find_endpoint name after.db.endpoints
      ≡ some (record row { replicas = next row.replicas; updated_at = now })

module _ (now : Time) (name : String) (target : ℤ) where
  abbrev set_replicas : EndpointRow → EndpointRow
  set_replicas ep =
      if str_eq ep.endpoint name then record ep { replicas = target; updated_at = now } else ep

  abbrev retarget : Option EndpointRow → Option EndpointRow
  retarget none = none
  retarget (some ep) = some (record ep { replicas = target; updated_at = now })

  find_endpoint-set_replicas :
      (eps : List EndpointRow) {ep : EndpointRow}
      → find_endpoint name eps ≡ some ep
      → find_endpoint name (map set_replicas eps)
        ≡ some (record ep { replicas = target; updated_at = now })
  find_endpoint-set_replicas [] e = cc
  find_endpoint-set_replicas (x ∷ eps) {ep} e = elim (Bool-cases (str_eq x.endpoint name)) [
    | inl same ↦
        let first : some x ≡ some ep = simp same at e in rw same (rw same (ap retarget first))
    | inr distinct ↦
        rw distinct (rw distinct (find_endpoint-set_replicas eps {ep = ep} (simp distinct at e)))
  ]

module _ (m : ScalerManager) (works : (d : Db) (q : Query) → m.fails d q ≡ false) where
  -- The table after a scaling that was accepted, whose endpoints have the target.
  abbrev rescaled : Db → Time → String → ℤ → Db
  rescaled db now name target =
      let written = record db { endpoints = map (set_replicas now name target) db.endpoints } in
      if m.has_configs then (update_config_replicas m.fails written now name target).0 else written

  rescaled-endpoints :
      (db : Db) (now : Time) (name : String) (target : ℤ)
      → (rescaled db now name target).endpoints ≡ map (set_replicas now name target) db.endpoints
  unfolding update_config_replicas
  rescaled-endpoints db now name target = elim (Bool-cases m.has_configs) [
    | inl on ↦ rw (on, works) refl
    | inr off ↦ rw off refl
  ]

  scale_row-accepted :
      (s : Scaled) (now : Time) (name : String) (next : ℤ → ℤ) (ep : EndpointRow)
      → m.scales name (next ep.replicas) ≡ true
      → scale_row m s now name next ep ≡ (
        record s {
          db = rescaled s.db now name (next ep.replicas);
          calls = (name, next ep.replicas) ∷ s.calls;
        },
        none,
      )
  unfolding update_endpoint_replicas
  scale_row-accepted s now name next ep accepted = rw (accepted, works) refl

  scale_row-Agrees :
      (s : Scaled) (now : Time) (name : String) (next : ℤ → ℤ) (ep : EndpointRow)
      → find_endpoint name s.db.endpoints ≡ some ep
      → (scale_row m s now name next ep).1 ≡ none
      → Agrees m now s (scale_row m s now name next ep).0 name next
  scale_row-Agrees s now name next ep found clear =
      elim (Bool-cases (m.scales name (next ep.replicas))) [
        | inr refused ↦ (let e : some not_scaled ≡ none = simp refused at clear in cc)
        | inl accepted ↦ rw (scale_row-accepted s now name next ep accepted) (record {
          row = ep;
          found = found;
          call = refl;
          accepted = accepted;
          stored =
              ap (find_endpoint name) (rescaled-endpoints s.db now name (next ep.replicas))
              ∙ find_endpoint-set_replicas now name (next ep.replicas) s.db.endpoints found;
        })
      ]

  -- Where no statement fails, a scaling without an error has asked the provider once, for the next
  -- number of replicas after that of the table, the provider has accepted it, and the table has it.
  pub scale_to-Agrees :
      (s : Scaled) (now : Time) (name : String) (next : ℤ → ℤ)
      → (scale_to m s now name next).1 ≡ none
      → Agrees m now s (scale_to m s now name next).0 name next
  unfolding scale_to get_endpoint
  scale_to-Agrees s now name next clear = elim (Bool-cases m.has_provider) [
    | inr off ↦ (let e : some no_provider ≡ none = simp off at clear in cc)
    | inl on ↦ elim (Bool-cases m.has_endpoints) [
      | inr off ↦ (let e : some no_repository ≡ none = simp (on, off) at clear in cc)
      | inl there ↦ elim (Option-cases (find_endpoint name s.db.endpoints)) [
        | inl missing ↦
            (let e : some not_found ≡ none = simp (on, there, works, missing) at clear in cc)
        | inr (ep, found) ↦
            simp (on, there, works, found)
              (scale_row-Agrees s now name next ep found (simp (on, there, works, found) at clear))
      ]
    ]
  ]

  -- Where no statement fails, a ScaleUp without an error was asked for a positive number, found the
  -- endpoint not blocked, and had the provider and the table agree on that many replicas more.
  pub scale_up-Agrees :
      (s : Scaled) (now : Time) (name : String) (delta : ℤ)
      → (scale_up m s now name delta).1 ≡ none
      → (leb_ℤ delta (pos 0) ≡ false)
        × (block_reason m s.db name ≡ none)
        × Agrees m now s (scale_up m s now name delta).0 name (λ current. add_int current delta)
  unfolding scale_up
  scale_up-Agrees s now name delta clear = elim (Bool-cases (leb_ℤ delta (pos 0))) [
    | inl small ↦ (let e : some not_positive ≡ none = simp small at clear in cc)
    | inr positive ↦ elim (Option-cases (block_reason m s.db name)) [
      | inr (reason, held) ↦
          (let e : some (blocked reason) ≡ none = simp (positive, held) at clear in cc)
      | inl free ↦ (
        positive,
        free,
        simp (positive, free)
            (scale_to-Agrees s now name (λ current. add_int current delta)
              (simp (positive, free) at clear)),
      )
    ]
  ]

  at_least_zero-bounds :
      (current delta : ℤ)
      → IsInt current
      → IsInt delta
      → pos 0 ≤ℤ current
      → leb_ℤ delta (pos 0) ≡ false
      → (pos 0 ≤ℤ at_least_zero m (sub_int current delta))
        × (at_least_zero m (sub_int current delta) ≤ℤ current)
  unfolding sub_int wrap
  at_least_zero-bounds current delta hc hd positive some_delta = (ground arith, ground arith)

  -- Where no statement fails, a ScaleDown without an error, of an endpoint that has not less than
  -- no replicas, had the provider and the table agree on a number from 0 to the one there was.
  pub scale_down-Agrees :
      (s : Scaled) (now : Time) (name : String) (delta : ℤ) (ep : EndpointRow)
      → IsInt delta
      → IsInt ep.replicas
      → pos 0 ≤ℤ ep.replicas
      → find_endpoint name s.db.endpoints ≡ some ep
      → (scale_down m s now name delta).1 ≡ none
      → let target = at_least_zero m (sub_int ep.replicas delta) in
        Agrees m now s
          (scale_down m s now name delta).0
          name
          (λ current. at_least_zero m (sub_int current delta))
        × (pos 0 ≤ℤ target)
        × (target ≤ℤ ep.replicas)
  unfolding scale_down
  scale_down-Agrees s now name delta ep int int' positive found clear =
      elim (Bool-cases (leb_ℤ delta (pos 0))) [
        | inl small ↦ (let e : some not_positive ≡ none = simp small at clear in cc)
        | inr grows ↦
            let bounds = at_least_zero-bounds ep.replicas delta int' int positive grows in
            (
              simp grows (
                  scale_to-Agrees s now name (λ current. at_least_zero m (sub_int current delta))
                    (simp grows at clear)),
              bounds.0,
              bounds.1,
            )
      ]
