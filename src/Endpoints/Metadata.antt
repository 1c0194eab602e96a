-- ===== src/Endpoints/Metadata.antt =====
-- internal/service/endpoint/metadata.go, the operations. A write gives the database, and whether
-- there was no error; what `Save` does to its caller's value is not seen outside.
pub mod Settings
pub mod First
pub mod Messages
use waverless.Base.{
  ℕ, Bool, true, false, Option, none, some, List, [], ◌∷◌, map, String, ℤ, pos, ◌&&◌, not,
  if◌then◌else◌, Time, is_zero,
}
use waverless.Store.{EndpointRow, ConfigRow, Db, Fails}
use waverless.Store.Catalog.{
  find_config, get_endpoint, create_endpoint, save_endpoint, delete_endpoint, list_endpoints,
  get_config_row, create_or_update_config, list_configs_by_endpoints,
}
use waverless.Endpoints.Conversion.{
  EndpointMetadata, ensure_metadata_defaults, to_mysql_endpoint, from_mysql_endpoint,
  merge_autoscaler_config, config_of, onto_existing,
}

-- `MetadataManager`: which repositories are there, and which statements fail.
pub record MetadataManager : Type 0 where
  pub fails : Fails
  pub has_endpoints : Bool
  pub has_configs : Bool

-- A metadata value as `Save` writes it.
abbrev pub stamped : Time → EndpointMetadata → EndpointMetadata
stamped now meta =
    let full = ensure_metadata_defaults meta in
    record full {
      created_at = if is_zero full.created_at then now else full.created_at;
      updated_at = now;
    }

module _ (m : MetadataManager) where
  abbrev pub write_endpoint : Db → EndpointRow → Option EndpointRow → Db × Bool
  write_endpoint db row none = create_endpoint m.fails db row
  write_endpoint db row (some existing) = save_endpoint m.fails db (onto_existing row existing)

  unfoldable pub save_autoscaler_config : Db → Time → EndpointMetadata → Db × Bool
  save_autoscaler_config db now meta = create_or_update_config m.fails db now (config_of meta)

  unfoldable pub save : Db → Time → EndpointMetadata → Db × Bool
  unfolding save_autoscaler_config
  save db now meta =
      if not m.has_endpoints
      then (db, false)
      else (let full = stamped now meta in
          elim (get_endpoint m.fails db full.name) [
            | none ↦ (db, false)
            | some existing ↦
                let written = write_endpoint db (to_mysql_endpoint full) existing in
                if written.1 && m.has_configs
                then save_autoscaler_config written.0 now full
                else written
          ])

  abbrev pub merged : EndpointRow → Option ConfigRow → EndpointMetadata
  merged ep none = from_mysql_endpoint ep
  merged ep (some cfg) = merge_autoscaler_config (from_mysql_endpoint ep) cfg

  abbrev pub with_config :
      EndpointRow → Option (Option ConfigRow) → Option (Option EndpointMetadata)
  with_config ep none = none
  with_config ep (some cfg) = some (some (merged ep cfg))

  abbrev pub described : Db → String → Option EndpointRow → Option (Option EndpointMetadata)
  described db name none = some none
  described db name (some ep) =
      if m.has_configs
      then with_config ep (get_config_row m.fails db name)
      else some (some (from_mysql_endpoint ep))

  -- An outer `none` is an error, an inner one nil metadata.
  unfoldable pub get : Db → String → Option (Option EndpointMetadata)
  get db name =
      if not m.has_endpoints
      then none
      else elim (get_endpoint m.fails db name) [ none ↦ none | some ep ↦ described db name ep ]

  abbrev pub names_of : List EndpointRow → List String
  names_of = map (λ ep. ep.endpoint)

  -- The configurations that `List` loads; it goes on without them on an error.
  abbrev pub loaded_configs : Db → List EndpointRow → List ConfigRow
  loaded_configs db [] = []
  loaded_configs db (ep ∷ eps) =
      if m.has_configs
      then elim (list_configs_by_endpoints m.fails db (names_of (ep ∷ eps))) [
        | none ↦ []
        | some configs ↦ configs
      ]
      else []

  unfoldable pub list_metadata : Db → Option (List EndpointMetadata)
  unfolding find_config
  list_metadata db = if not m.has_endpoints then none else elim (list_endpoints m.fails db) [
    | none ↦ none
    | some eps ↦
        let configs = loaded_configs db eps in
        some (map (λ ep. merged ep (find_config ep.endpoint configs)) eps)
  ]

  unfoldable pub delete_metadata : Db → Time → String → Db × Bool
  delete_metadata db now name =
      if m.has_endpoints then delete_endpoint m.fails db now name else (db, false)
