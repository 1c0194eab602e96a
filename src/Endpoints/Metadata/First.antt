-- ===== src/Endpoints/Metadata/First.antt =====
-- internal/service/endpoint/metadata.go: the first Save of an endpoint, which inserts its rows.
use waverless.Base.{◌≡◌, refl, true, false, none, some, pos, ◌∷◌, [], ◌++◌, Time}
use waverless.Store.{EndpointRow, ConfigRow, Db, Query}
use waverless.Store.Endpoints.{find_endpoint}
use waverless.Store.Catalog.{
  or_column_default, inserted_endpoint, inserted_config, find_config, get_endpoint, is_taken,
  create_endpoint, get_config_row, create_config, create_or_update_config,
}
use waverless.Store.Catalog.Lookup.{find_row-append}
use waverless.Endpoints.Conversion.{
  EndpointMetadata, ensure_metadata_defaults, to_mysql_endpoint, from_mysql_endpoint,
  merge_autoscaler_config, config_of,
}
use waverless.Endpoints.Metadata.{
  MetadataManager, stamped, write_endpoint, save_autoscaler_config, save, get,
}
use waverless.Endpoints.Metadata.Settings.{get_over_rows}

abbrev pub with_new_endpoint : Db → EndpointRow → Db
with_new_endpoint db row = record db { endpoints = db.endpoints ++ (inserted_endpoint row ∷ []) }

abbrev with_new_config : Db → Time → ConfigRow → Db
with_new_config db now row = record db { configs = db.configs ++ (inserted_config now row ∷ []) }

module _ (m : MetadataManager) (works : (d : Db) (q : Query) → m.fails d q ≡ false) where
  pub write_endpoint-new :
      (db : Db) (row : EndpointRow)
      → find_endpoint row.endpoint db.endpoints ≡ none
      → write_endpoint m db row none ≡ (with_new_endpoint db row, true)
  unfolding create_endpoint
  write_endpoint-new db row missing = simp (works, missing, is_taken, create_endpoint)

  pub save_autoscaler_config-new :
      (db : Db) (now : Time) (full : EndpointMetadata)
      → find_config full.name db.configs ≡ none
      → save_autoscaler_config m db now full ≡ (with_new_config db now (config_of full), true)
  unfolding save_autoscaler_config create_or_update_config
  save_autoscaler_config-new db now full missing = simp (
    works, missing, save_autoscaler_config, create_or_update_config, get_config_row, create_config,
  )

  save_over_nothing :
      (db : Db) (now : Time) (meta : EndpointMetadata)
      → m.has_endpoints ≡ true
      → m.has_configs ≡ true
      → find_endpoint meta.name db.endpoints ≡ none
      → find_config meta.name db.configs ≡ none
      → let full = stamped now meta in
        save m db now meta ≡ (
          with_new_config (with_new_endpoint db (to_mysql_endpoint full)) now (config_of full),
          true,
        )
  unfolding save get_endpoint ensure_metadata_defaults to_mysql_endpoint
  save_over_nothing db now meta endpoints configs missing unconfigured =
      rw (endpoints, works, missing)
        (rw (write_endpoint-new db (to_mysql_endpoint (stamped now meta)) missing, configs)
          (save_autoscaler_config-new _ now (stamped now meta) unconfigured))

-- The first Save of an endpoint does not keep a zero: where both repositories are there, no
-- statement fails and there is no row yet, Get then answers the default of the column for a
-- priority, a cooldown, a boost or a limit of replicas that is 0, and dynamic priority switched on.
pub get-save_new :
    (m : MetadataManager) (db : Db) (now : Time) (meta : EndpointMetadata)
    → m.has_endpoints ≡ true
    → m.has_configs ≡ true
    → ((d : Db) (q : Query) → m.fails d q ≡ false)
    → find_endpoint meta.name db.endpoints ≡ none
    → find_config meta.name db.configs ≡ none
    → (got : EndpointMetadata) × (get m (save m db now meta).0 meta.name ≡ some (some got))
      × (got.priority ≡ or_column_default (pos 50) meta.priority)
      × (got.scale_up_cooldown ≡ or_column_default (pos 30) meta.scale_up_cooldown)
      × (got.scale_down_cooldown ≡ or_column_default (pos 60) meta.scale_down_cooldown)
      × (got.priority_boost ≡ or_column_default (pos 20) meta.priority_boost)
      × (got.max_replicas ≡ or_column_default (pos 10) meta.max_replicas)
      × (got.enable_dynamic_prio ≡ some true)
unfolding find_config ensure_metadata_defaults to_mysql_endpoint
get-save_new m db now meta endpoints configs works missing unconfigured =
    let full = stamped now meta in
    let row = inserted_endpoint (to_mysql_endpoint full) in
    let config = inserted_config now (config_of full) in
    let found = find_row-append (λ r. r.endpoint) row meta.name refl db.endpoints missing in
    let configured =
      find_row-append (λ c. c.endpoint) config meta.name refl db.configs unconfigured in
    (
      merge_autoscaler_config (from_mysql_endpoint row) config,
      rw (save_over_nothing m works db now meta endpoints configs missing unconfigured)
          (get_over_rows m works _ meta.name endpoints configs found configured),
      unfold merge_autoscaler_config in refl,
      unfold merge_autoscaler_config in refl,
      unfold merge_autoscaler_config in refl,
      unfold merge_autoscaler_config in refl,
      unfold merge_autoscaler_config in refl,
      unfold merge_autoscaler_config in refl,
    )
