-- ===== src/Endpoints/Metadata/Messages.antt =====
-- internal/service/endpoint/metadata.go: the health message of an endpoint over a Save.
use waverless.Base.{
  ◌≡◌, refl, ap, sym, ◌∙◌, Bool, true, false, Option, none, some, List, [], ◌∷◌, map, String,
  str_eq, Bool-cases, Option-cases, inl, inr, if◌then◌else◌, arith, eq_iff, Time,
}
use waverless.Store.{EndpointRow, ConfigRow, Db, Query}
use waverless.Store.Endpoints.{find_endpoint, is_blocked_due_to_image_failure}
use waverless.Store.Catalog.{find_config, get_endpoint, inserted_endpoint, get_config_row}
use waverless.Store.Catalog.Lookup.{find_row-replace, find_row-append, find_row-passes}
use waverless.Endpoints.Conversion.{
  EndpointMetadata, ensure_metadata_defaults, to_mysql_endpoint, from_mysql_endpoint,
  merge_autoscaler_config, onto_existing,
}
use waverless.Endpoints.Metadata.{
  MetadataManager, stamped, write_endpoint, with_config, described, save_autoscaler_config, save,
  get,
}
use waverless.Endpoints.Metadata.Settings.{
  with_endpoint, write_endpoint-existing, save_autoscaler_config-existing,
}
use waverless.Endpoints.Metadata.First.{
  with_new_endpoint, write_endpoint-new, save_autoscaler_config-new,
}

-- No message of the endpoint stands in the way of its workers.
abbrev pub HasNoMessage : Db → String → Type 0
HasNoMessage db name =
    (ep : EndpointRow) → find_endpoint name db.endpoints ≡ some ep → ep.health_message ≡ none

abbrev message_in : Option EndpointRow → Option String
message_in none = none
message_in (some ep) = ep.health_message

pub unblocked_of_HasNoMessage :
    (fails : Db → Query → Bool) (db : Db) (name : String)
    → ((d : Db) (q : Query) → fails d q ≡ false)
    → HasNoMessage db name
    → is_blocked_due_to_image_failure fails db name ≡ some (false, "")
unfolding is_blocked_due_to_image_failure
unblocked_of_HasNoMessage fails db name works quiet =
    elim (Option-cases (find_endpoint name db.endpoints)) [
      | inl missing ↦ rw (works, missing) refl
      | inr (ep, found) ↦ rw (works, found) (rw (quiet ep found) refl)
    ]

module _ (name : String) (now : Time) where
  abbrev pub reset_row : EndpointRow → EndpointRow
  reset_row ep =
      if str_eq ep.endpoint name
      then record ep {
        health_status = "HEALTHY";
        health_message = none;
        last_health_check_at = some now;
        updated_at = now;
      }
      else ep

  pub reset-HasNoMessage :
      (eps : List EndpointRow) (ep : EndpointRow)
      → find_endpoint name (map reset_row eps) ≡ some ep
      → ep.health_message ≡ none
  reset-HasNoMessage [] ep e = cc
  reset-HasNoMessage (x ∷ eps) ep e = elim (Bool-cases (str_eq x.endpoint name)) [
    | inl same ↦ ground (arith, same, e)
    | inr distinct ↦ reset-HasNoMessage eps ep (simp distinct at e)
  ]

module _ (m : MetadataManager) (works : (d : Db) (q : Query) → m.fails d q ≡ false) where
  save_autoscaler_config-endpoints :
      (db : Db) (now : Time) (full : EndpointMetadata)
      → (save_autoscaler_config m db now full).0.endpoints ≡ db.endpoints
  save_autoscaler_config-endpoints db now full =
      elim (Option-cases (find_config full.name db.configs)) [
        | inl missing ↦
            ap (λ w. w.0.endpoints) (save_autoscaler_config-new m works db now full missing)
        | inr (cfg, found) ↦
            ap (λ w. w.0.endpoints) (save_autoscaler_config-existing m works db now full found)
      ]

  save-endpoints :
      (db : Db) (now : Time) (meta : EndpointMetadata) (written : Db)
      → m.has_endpoints ≡ true
      → write_endpoint m db
          (to_mysql_endpoint (stamped now meta))
          (find_endpoint meta.name db.endpoints)
        ≡ (written, true)
      → (save m db now meta).0.endpoints ≡ written.endpoints
  unfolding save get_endpoint ensure_metadata_defaults
  save-endpoints db now meta written endpoints e =
      rw (endpoints, works, e)
        (elim (Bool-cases m.has_configs) [
          | inl on ↦ rw on (save_autoscaler_config-endpoints written now (stamped now meta))
          | inr off ↦ rw off refl
        ])

  -- Saving metadata writes no message.
  pub save-HasNoMessage :
      (db : Db) (now : Time) (meta : EndpointMetadata)
      → m.has_endpoints ≡ true
      → HasNoMessage db meta.name
      → HasNoMessage (save m db now meta).0 meta.name
  unfolding ensure_metadata_defaults to_mysql_endpoint
  save-HasNoMessage db now meta endpoints quiet ep found =
      let row = to_mysql_endpoint (stamped now meta) in
      elim (Option-cases (find_endpoint meta.name db.endpoints)) [
        | inl missing ↦
            let e =
              save-endpoints db now meta (with_new_endpoint db row) endpoints
                (rw missing (write_endpoint-new m works db row missing)) in
            let there =
              find_row-append (λ r. r.endpoint) (inserted_endpoint row) meta.name refl db.endpoints
                missing in
            ap message_in (sym found ∙ ap (find_endpoint meta.name) e ∙ there)
        | inr (old, held) ↦
            let passes = find_row-passes (λ r. str_eq r.endpoint meta.name) db.endpoints held in
            let same : old.endpoint ≡ meta.name =
              ground (arith, eq_iff old.endpoint meta.name, passes) in
            let e =
              save-endpoints db now meta (with_endpoint db meta.name (onto_existing row old))
                endpoints (rw held (write_endpoint-existing m works db meta.name row old same)) in
            let there =
              find_row-replace (λ r. r.endpoint) (onto_existing row old) meta.name same db.endpoints
                held in
            ap message_in (sym found ∙ ap (find_endpoint meta.name) e ∙ there) ∙ quiet old held
      ]

abbrev name_in : Option (Option EndpointMetadata) → String
name_in (some (some meta)) = meta.name
name_in _ = ""

with_config-name :
    (m : MetadataManager) (ep : EndpointRow) (cfg : Option (Option ConfigRow))
    (meta : EndpointMetadata)
    → with_config m ep cfg ≡ some (some meta)
    → meta.name ≡ ep.endpoint
unfolding from_mysql_endpoint merge_autoscaler_config
with_config-name m ep none meta e = cc
with_config-name m ep (some none) meta e = ap name_in (sym e)
with_config-name m ep (some (some cfg)) meta e = ap name_in (sym e)

described-name :
    (m : MetadataManager) (db : Db) (name : String) (ep : EndpointRow) (meta : EndpointMetadata)
    → described m db name (some ep) ≡ some (some meta)
    → meta.name ≡ ep.endpoint
unfolding from_mysql_endpoint
described-name m db name ep meta e = elim (Bool-cases m.has_configs) [
  | inl on ↦ with_config-name m ep (get_config_row m.fails db name) meta (simp on at e)
  | inr off ↦ ap name_in (sym (simp off at e))
]

-- The metadata that is found for a name has that name.
pub get-name :
    (m : MetadataManager) (works : (d : Db) (q : Query) → m.fails d q ≡ false) (db : Db)
    (name : String) (meta : EndpointMetadata)
    → m.has_endpoints ≡ true
    → get m db name ≡ some (some meta)
    → meta.name ≡ name
unfolding get get_endpoint
get-name m works db name meta endpoints e = elim (Option-cases (find_endpoint name db.endpoints)) [
  | inl missing ↦
      let nothing : ◌≡◌ {A = Option (Option EndpointMetadata)} (some none) (some (some meta)) =
        simp (endpoints, works, missing) at e in
      cc
  | inr (ep, found) ↦
      let passes = find_row-passes (λ r. str_eq r.endpoint name) db.endpoints found in
      let same : ep.endpoint ≡ name = ground (arith, eq_iff ep.endpoint name, passes) in
      described-name m db name ep meta (simp (endpoints, works, found) at e) ∙ same
]
