-- ===== src/Store/Catalog.antt =====
-- pkg/store/mysql/endpoint_repository.go and autoscaler_config_repository.go: the rows of the
-- endpoints and of their configurations. A write gives the database, and whether it was written.
pub mod Lookup
use waverless.Base.{
  ℕ, ◌≡◌, refl, Bool, true, false, not, ◌&&◌, Option, none, some, List, [], ◌∷◌, ◌++◌, map, String,
  str_eq, ℤ, pos, eqb_ℤ, select, if◌then◌else◌, Bool-cases, inl, inr, Time, arith, eq_iff,
}
use waverless.Base.Dict.{StringMap, load, store}
use waverless.Store.Workers.{find_row}
use waverless.Store.Endpoints.{find_endpoint}
use waverless.Store.Tables.{
  Json, JsonMap, EndpointRow, ConfigRow, Db, Fails, endpoint_get, endpoint_create, endpoint_save,
  endpoint_delete, replicas_update, state_update, endpoint_list, config_get, config_create,
  config_save, config_replicas, config_list,
}

-- GORM inserts the default of a column for a field that has the zero value.
abbrev pub or_column_default : ℤ → ℤ → ℤ
or_column_default fallback n = if eqb_ℤ n (pos 0) then fallback else n

abbrev pub or_default_text : String → String → String
or_default_text fallback s = if str_eq s "" then fallback else s

-- The tags `default:` of `model.Endpoint` that are not themselves zero.
abbrev pub inserted_endpoint : EndpointRow → EndpointRow
inserted_endpoint row = record row {
  replicas = or_column_default (pos 1) row.replicas;
  gpu_count = or_column_default (pos 1) row.gpu_count;
  max_pending_tasks = or_column_default (pos 1) row.max_pending_tasks;
  status = or_default_text "active" row.status;
  health_status = or_default_text "HEALTHY" row.health_status;
}

-- The tags `default:` of `model.AutoscalerConfig`; GORM sets the two times as well.
abbrev pub inserted_config : Time → ConfigRow → ConfigRow
inserted_config now row = record row {
  max_replicas = or_column_default (pos 10) row.max_replicas;
  replicas = or_column_default (pos 1) row.replicas;
  scale_up_threshold = or_column_default (pos 1) row.scale_up_threshold;
  scale_down_idle_time = or_column_default (pos 300) row.scale_down_idle_time;
  scale_up_cooldown = or_column_default (pos 30) row.scale_up_cooldown;
  scale_down_cooldown = or_column_default (pos 60) row.scale_down_cooldown;
  priority = or_column_default (pos 50) row.priority;
  enable_dynamic_prio = true;
  high_load_threshold = or_column_default (pos 10) row.high_load_threshold;
  priority_boost = or_column_default (pos 20) row.priority_boost;
  enabled = true;
  created_at = now;
  updated_at = now;
}

-- One row takes the place of the row with its key.
abbrev pub replace {ℓ} : {A : Type ℓ} → (A → Bool) → A → List A → List A
replace p row = map (λ old. if p old then row else old)

unfoldable pub find_config : String → List ConfigRow → Option ConfigRow
find_config name = find_row (λ c. str_eq c.endpoint name)

module _ (fails : Fails) (db : Db) where
  -- `Get` of the endpoints: an outer `none` is an error, an inner one a missing row.
  unfoldable pub get_endpoint : String → Option (Option EndpointRow)
  get_endpoint name =
      if fails db (endpoint_get name) then none else some (find_endpoint name db.endpoints)

  -- A row with the key of another is refused.
  abbrev pub is_taken : String → Bool
  is_taken name = elim (find_endpoint name db.endpoints) [ none ↦ false | some ep ↦ true ]

  unfoldable pub create_endpoint : EndpointRow → Db × Bool
  create_endpoint row =
      if fails db (endpoint_create row.endpoint)
      then (db, false)
      else if is_taken row.endpoint
      then (db, false)
      else (record db { endpoints = db.endpoints ++ (inserted_endpoint row ∷ []) }, true)

  unfoldable pub save_endpoint : EndpointRow → Db × Bool
  save_endpoint row = if fails db (endpoint_save row.endpoint) then (db, false) else (
    record db { endpoints = replace (λ ep. str_eq ep.endpoint row.endpoint) row db.endpoints },
    true,
  )

  -- `Delete` of the endpoints is soft. GORM sets the time of the update here and in `UpdateReplicas`.
  unfoldable pub delete_endpoint : Time → String → Db × Bool
  delete_endpoint now name = if fails db (endpoint_delete name) then (db, false) else (
    record db {
      endpoints =
          map
            (λ ep.
              if str_eq ep.endpoint name
              then record ep { status = "deleted"; updated_at = now }
              else ep)
            db.endpoints;
    },
    true,
  )

  unfoldable pub list_endpoints : Option (List EndpointRow)
  list_endpoints =
      if fails db endpoint_list
      then none
      else some (select (λ ep. not (str_eq ep.status "deleted")) db.endpoints)

  unfoldable pub update_endpoint_replicas : Time → String → ℤ → Db × Bool
  update_endpoint_replicas now name replicas =
      if fails db (replicas_update name) then (db, false) else (
        record db {
          endpoints =
              map
                (λ ep.
                  if str_eq ep.endpoint name
                  then record ep { replicas = replicas; updated_at = now }
                  else ep)
                db.endpoints;
        },
        true,
      )

  -- `AutoscalerConfigRepository.Get`
  unfoldable pub get_config_row : String → Option (Option ConfigRow)
  unfolding find_config
  get_config_row name =
      if fails db (config_get name) then none else some (find_config name db.configs)

  unfoldable pub create_config : Time → ConfigRow → Db × Bool
  create_config now row =
      if fails db (config_create row.endpoint)
      then (db, false)
      else (record db { configs = db.configs ++ (inserted_config now row ∷ []) }, true)

  -- `Update`: GORM sets the time of the update.
  unfoldable pub save_config : Time → ConfigRow → Db × Bool
  save_config now row = if fails db (config_save row.endpoint) then (db, false) else (
    record db {
      configs =
          replace (λ c. str_eq c.endpoint row.endpoint) (record row { updated_at = now })
            db.configs;
    },
    true,
  )

  abbrev pub write_config : Time → ConfigRow → Option ConfigRow → Db × Bool
  write_config now row none = create_config now row
  write_config now row (some existing) =
      save_config now (record row { created_at = existing.created_at })

  unfoldable pub create_or_update_config : Time → ConfigRow → Db × Bool
  unfolding get_config_row create_config save_config
  create_or_update_config now row = elim (get_config_row row.endpoint) [
    | none ↦ (db, false)
    | some existing ↦ write_config now row existing
  ]

  unfoldable pub list_configs_by_endpoints : List String → Option (List ConfigRow)
  list_configs_by_endpoints names =
      if fails db config_list
      then none
      else some (select (λ c. mentions c.endpoint names) db.configs)
    where
      mentions : String → List String → Bool
      mentions name [] = false
      mentions name (n ∷ ns) = let rest = mentions name ns in if str_eq n name then true else rest

  unfoldable pub update_config_replicas : Time → String → ℤ → Db × Bool
  update_config_replicas now name replicas =
      if fails db (config_replicas name) then (db, false) else (
        record db {
          configs =
              map
                (λ c.
                  if str_eq c.endpoint name
                  then record c { replicas = replicas; updated_at = now }
                  else c)
                db.configs;
        },
        true,
      )
