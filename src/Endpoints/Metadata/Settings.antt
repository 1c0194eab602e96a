-- ===== src/Endpoints/Metadata/Settings.antt =====
-- internal/service/endpoint/metadata.go: what of a metadata value comes back from the tables.
use waverless.Base.{
  if_same, ◌≡◌, refl, Bool, true, false, Option, some, String, str_eq, eq_iff, ℤ, pos, eqb_ℤ,
  if◌then◌else◌, none, Time, arith,
}
use waverless.Base.Dict.{StringMap}
use waverless.Store.{EndpointRow, ConfigRow, Db, Query}
use waverless.Store.JsonColumns.{json_map_to_string_map-string_map_to_json_map}
use waverless.Store.Endpoints.{find_endpoint}
use waverless.Store.Catalog.{
  replace, find_config, get_endpoint, save_endpoint, get_config_row, save_config,
  create_or_update_config,
}
use waverless.Store.Catalog.Lookup.{find_row-replace, find_row-passes}
use waverless.Endpoints.Conversion.{
  EndpointMetadata, or_true, ensure_metadata_defaults, to_mysql_endpoint, from_mysql_endpoint,
  merge_autoscaler_config, config_of, onto_existing,
}
use waverless.Endpoints.Metadata.{
  MetadataManager, stamped, write_endpoint, save_autoscaler_config, save, get,
}

-- What a user sets of an endpoint.
pub record Settings : Type 0 where
  pub display_name : String
  pub description : String
  pub spec_name : String
  pub image : String
  pub image_prefix : String
  pub replicas : ℤ
  pub gpu_count : ℤ
  pub min_replicas : ℤ
  pub max_replicas : ℤ
  pub scale_up_threshold : ℤ
  pub scale_down_idle_time : ℤ
  pub scale_up_cooldown : ℤ
  pub scale_down_cooldown : ℤ
  pub priority : ℤ
  pub enable_dynamic_prio : Option Bool
  pub high_load_threshold : ℤ
  pub priority_boost : ℤ
  pub autoscaler_enabled : Option String
  pub env : Option (StringMap String)
  pub labels : Option (StringMap String)
  pub task_timeout : ℤ
  pub enable_ptrace : Bool
  pub status : String

-- The settings of a value as they stand in it.
abbrev pub settings : EndpointMetadata → Settings
settings meta = record {
  display_name = meta.display_name;
  description = meta.description;
  spec_name = meta.spec_name;
  image = meta.image;
  image_prefix = meta.image_prefix;
  replicas = meta.replicas;
  gpu_count = meta.gpu_count;
  min_replicas = meta.min_replicas;
  max_replicas = meta.max_replicas;
  scale_up_threshold = meta.scale_up_threshold;
  scale_down_idle_time = meta.scale_down_idle_time;
  scale_up_cooldown = meta.scale_up_cooldown;
  scale_down_cooldown = meta.scale_down_cooldown;
  priority = meta.priority;
  enable_dynamic_prio = meta.enable_dynamic_prio;
  high_load_threshold = meta.high_load_threshold;
  priority_boost = meta.priority_boost;
  autoscaler_enabled = meta.autoscaler_enabled;
  env = meta.env;
  labels = meta.labels;
  task_timeout = meta.task_timeout;
  enable_ptrace = meta.enable_ptrace;
  status = meta.status;
}

-- A setting, or what stands for an empty one.
abbrev pub text_or : String → String → String
text_or text fallback = if str_eq text "" then fallback else text

abbrev pub number_or : ℤ → ℤ → ℤ
number_or number fallback = if eqb_ℤ number (pos 0) then fallback else number

abbrev pub flag_or : Option Bool → Bool → Bool
flag_or none fallback = fallback
flag_or (some flag) fallback = flag

-- The settings of a value with the empty ones filled in: the name for the display name, "Deploying"
-- for the status, true for the dynamic priority, and 1, 300 and 10 for the three thresholds.
abbrev pub filled : EndpointMetadata → Settings
filled meta = record {
  display_name = text_or meta.display_name meta.name;
  description = meta.description;
  spec_name = meta.spec_name;
  image = meta.image;
  image_prefix = meta.image_prefix;
  replicas = meta.replicas;
  gpu_count = meta.gpu_count;
  min_replicas = meta.min_replicas;
  max_replicas = meta.max_replicas;
  scale_up_threshold = number_or meta.scale_up_threshold (pos 1);
  scale_down_idle_time = number_or meta.scale_down_idle_time (pos 300);
  scale_up_cooldown = meta.scale_up_cooldown;
  scale_down_cooldown = meta.scale_down_cooldown;
  priority = meta.priority;
  enable_dynamic_prio = some (flag_or meta.enable_dynamic_prio true);
  high_load_threshold = number_or meta.high_load_threshold (pos 10);
  priority_boost = meta.priority_boost;
  autoscaler_enabled = meta.autoscaler_enabled;
  env = meta.env;
  labels = meta.labels;
  task_timeout = meta.task_timeout;
  enable_ptrace = meta.enable_ptrace;
  status = text_or meta.status "Deploying";
}

or_true-flag_or : (b : Option Bool) → or_true b ≡ flag_or b true
or_true-flag_or none = refl
or_true-flag_or (some b) = refl

-- The two rows of a metadata value, put together again, have its settings filled in.
settings_of_rows :
    (now : Time) (meta : EndpointMetadata) (ep : EndpointRow) (cfg : ConfigRow)
    → let full = stamped now meta in
      settings (
        merge_autoscaler_config
          (from_mysql_endpoint (onto_existing (to_mysql_endpoint full) ep))
          (record (config_of full) { created_at = cfg.created_at; updated_at = cfg.updated_at }))
      ≡ filled meta
unfolding merge_autoscaler_config from_mysql_endpoint to_mysql_endpoint ensure_metadata_defaults
settings_of_rows now meta ep cfg =
    simp (if_same, json_map_to_string_map-string_map_to_json_map)
      (rw (or_true-flag_or meta.enable_dynamic_prio) refl)

-- The tables after a write over a row that is there.
abbrev pub with_endpoint : Db → String → EndpointRow → Db
with_endpoint db name row = record db {
  endpoints = replace (λ r. str_eq r.endpoint name) row db.endpoints;
}

abbrev with_config_row : Db → String → ConfigRow → Db
with_config_row db name row = record db {
  configs = replace (λ c. str_eq c.endpoint name) row db.configs;
}

abbrev updated_config : Time → EndpointMetadata → ConfigRow → ConfigRow
updated_config now full cfg = record (config_of full) {
  created_at = cfg.created_at;
  updated_at = now;
}

module _ (m : MetadataManager) (works : (d : Db) (q : Query) → m.fails d q ≡ false) where
  pub write_endpoint-existing :
      (db : Db) (name : String) (row ep : EndpointRow)
      → ep.endpoint ≡ name
      → write_endpoint m db row (some ep) ≡ (with_endpoint db name (onto_existing row ep), true)
  unfolding save_endpoint
  write_endpoint-existing db name row ep same = rw (works, same) refl

  pub save_autoscaler_config-existing :
      (db : Db) (now : Time) (full : EndpointMetadata) {cfg : ConfigRow}
      → find_config full.name db.configs ≡ some cfg
      → save_autoscaler_config m db now full
        ≡ (with_config_row db full.name (updated_config now full cfg), true)
  unfolding save_autoscaler_config create_or_update_config get_config_row save_config
  save_autoscaler_config-existing db now full configured = simp (
    works, configured, save_autoscaler_config, create_or_update_config, get_config_row, save_config,
  )

  save_over_rows :
      (db : Db) (now : Time) (meta : EndpointMetadata) {ep : EndpointRow} {cfg : ConfigRow}
      → m.has_endpoints ≡ true
      → m.has_configs ≡ true
      → find_endpoint meta.name db.endpoints ≡ some ep
      → find_config meta.name db.configs ≡ some cfg
      → let full = stamped now meta in
        save m db now meta ≡ (
          with_config_row
              (with_endpoint db meta.name (onto_existing (to_mysql_endpoint full) ep))
              meta.name
              (updated_config now full cfg),
          true,
        )
  unfolding save get_endpoint ensure_metadata_defaults
  save_over_rows db now meta {ep} {cfg} endpoints configs found configured =
      let passes = find_row-passes (λ r. str_eq r.endpoint meta.name) db.endpoints found in
      let same : ep.endpoint ≡ meta.name = ground (arith, eq_iff ep.endpoint meta.name, passes) in
      rw (endpoints, works, found)
        (rw
          (
            write_endpoint-existing db meta.name (to_mysql_endpoint (stamped now meta)) ep same,
            configs,
          )
          (save_autoscaler_config-existing _ now (stamped now meta) configured))

  pub get_over_rows :
      (db : Db) (name : String) {ep : EndpointRow} {cfg : ConfigRow}
      → m.has_endpoints ≡ true
      → m.has_configs ≡ true
      → find_endpoint name db.endpoints ≡ some ep
      → find_config name db.configs ≡ some cfg
      → get m db name ≡ some (some (merge_autoscaler_config (from_mysql_endpoint ep) cfg))
  unfolding get get_endpoint get_config_row
  get_over_rows db name endpoints configs found configured =
      simp (endpoints, configs, works, found, configured, get_endpoint, get_config_row)

-- Saved metadata comes back: where both repositories are there, no statement fails and both rows
-- of the endpoint exist, Get after Save finds an endpoint with every setting of `Settings` as it
-- was saved, but for the empty ones that are filled in: the display name with the name, the status
-- with "Deploying", the dynamic priority with true, and a zero scale-up threshold, scale-down idle
-- time and high-load threshold with 1, 300 and 10. Its limit of pending tasks is the one that was
-- there before.
pub get-save :
    (m : MetadataManager) (db : Db) (now : Time) (meta : EndpointMetadata) {ep : EndpointRow}
    {cfg : ConfigRow}
    → m.has_endpoints ≡ true
    → m.has_configs ≡ true
    → ((d : Db) (q : Query) → m.fails d q ≡ false)
    → find_endpoint meta.name db.endpoints ≡ some ep
    → find_config meta.name db.configs ≡ some cfg
    → (got : EndpointMetadata) × (get m (save m db now meta).0 meta.name ≡ some (some got))
      × (settings got ≡ filled meta)
      × (got.max_pending_tasks ≡ ep.max_pending_tasks)
unfolding find_config ensure_metadata_defaults
get-save m db now meta {ep} {cfg} endpoints configs works found configured =
    let full = stamped now meta in
    let row = onto_existing (to_mysql_endpoint full) ep in
    let config = updated_config now full cfg in
    let passes = find_row-passes (λ r. str_eq r.endpoint meta.name) db.endpoints found in
    let same : ep.endpoint ≡ meta.name = ground (arith, eq_iff ep.endpoint meta.name, passes) in
    let found' = find_row-replace (λ r. r.endpoint) row meta.name same db.endpoints found in
    let configured' =
      find_row-replace (λ c. c.endpoint) config meta.name refl db.configs configured in
    (
      merge_autoscaler_config (from_mysql_endpoint row) config,
      rw (save_over_rows m works db now meta endpoints configs found configured)
          (get_over_rows m works _ meta.name endpoints configs found' configured'),
      settings_of_rows now meta ep (record cfg { updated_at = now }),
      unfold merge_autoscaler_config from_mysql_endpoint in refl,
    )
