-- ===== src/Endpoints/Handler/Limits.antt =====
-- app/handler/endpoint_handler.go: what a change of settings leaves in the tables.
use waverless.Base.{◌≡◌, ◌∙◌, refl, sym, Bool, true, false, Option, none, some, pos, String, Time}
use mathlib.Core.Path.{subst}
use waverless.Store.{EndpointRow, ConfigRow, Db, Query}
use waverless.Store.Endpoints.{find_endpoint}
use waverless.Store.Catalog.{find_config}
use waverless.Endpoints.Conversion.{EndpointMetadata, from_mysql_endpoint, merge_autoscaler_config}
use waverless.Endpoints.Metadata.{MetadataManager, save, get}
use waverless.Endpoints.Metadata.Settings.{
  Settings, text_or, number_or, flag_or, filled, settings, get_over_rows, get-save,
}
use waverless.Endpoints.Metadata.Messages.{get-name}
use waverless.Endpoints.Handler.{
  UpdateEndpointConfigRequest, given, given_some, applied, saved_status, update_endpoint,
}

-- What a request says of a setting, or what was there.
abbrev pub requested_or {ℓ} : {A : Type ℓ} → Option A → A → A
requested_or none before = before
requested_or (some wanted) before = wanted

abbrev pub first_of {ℓ} : {A : Type ℓ} → Option A → Option A → Option A
first_of none before = before
first_of (some wanted) before = some wanted

-- The settings that a request asks for: each that it names, else the one that was there, and the
-- empty ones filled in as `filled` says.
abbrev pub requested : UpdateEndpointConfigRequest → EndpointMetadata → Settings
requested req before = record {
  display_name = text_or (requested_or req.display_name before.display_name) before.name;
  description = requested_or req.description before.description;
  spec_name = before.spec_name;
  image = before.image;
  image_prefix = requested_or req.image_prefix before.image_prefix;
  replicas = before.replicas;
  gpu_count = before.gpu_count;
  min_replicas = requested_or req.min_replicas before.min_replicas;
  max_replicas = requested_or req.max_replicas before.max_replicas;
  scale_up_threshold =
      number_or (requested_or req.scale_up_threshold before.scale_up_threshold) (pos 1);
  scale_down_idle_time =
      number_or (requested_or req.scale_down_idle_time before.scale_down_idle_time) (pos 300);
  scale_up_cooldown = requested_or req.scale_up_cooldown before.scale_up_cooldown;
  scale_down_cooldown = requested_or req.scale_down_cooldown before.scale_down_cooldown;
  priority = requested_or req.priority before.priority;
  enable_dynamic_prio =
      some (flag_or (first_of req.enable_dynamic_prio before.enable_dynamic_prio) true);
  high_load_threshold =
      number_or (requested_or req.high_load_threshold before.high_load_threshold) (pos 10);
  priority_boost = requested_or req.priority_boost before.priority_boost;
  autoscaler_enabled = first_of req.autoscaler_enabled before.autoscaler_enabled;
  env = before.env;
  labels = before.labels;
  task_timeout = requested_or req.task_timeout before.task_timeout;
  enable_ptrace = before.enable_ptrace;
  status = text_or before.status "Deploying";
}

given-requested_or :
    {A : Type 0} (before : A) (wanted : Option A) → given before wanted ≡ requested_or wanted before
given-requested_or before none = refl
given-requested_or before (some a) = refl

given_some-first_of :
    {A : Type 0} (before wanted : Option A) → given_some before wanted ≡ first_of wanted before
given_some-first_of before none = refl
given_some-first_of before (some a) = refl

filled-applied :
    (req : UpdateEndpointConfigRequest) (before : EndpointMetadata)
    → filled (applied req before) ≡ requested req before
filled-applied req before = simp (given-requested_or, given_some-first_of)

saved_status-db : (m : MetadataManager) (w : Db × Bool) → (saved_status true m w).0 ≡ w.0
saved_status-db m (db, true) = refl
saved_status-db m (db, false) = refl

-- A change of settings is kept but for the limit of pending tasks: where both repositories are
-- there, no statement fails and both rows of the endpoint exist, what Get answers after
-- UpdateEndpoint has each setting that the request names as the request has it, and every other
-- setting of `Settings` as Get answered it before, but for the empty ones that are filled in: the
-- display name with the name, the status with "Deploying", the dynamic priority with true, and a
-- zero scale-up threshold, scale-down idle time and high-load threshold with 1, 300 and 10. Its
-- limit of pending tasks is the one of the row, whatever was asked.
pub get-update_endpoint :
    (m : MetadataManager) (db : Db) (now : Time) (name : String) (req : UpdateEndpointConfigRequest)
    {ep : EndpointRow} {cfg : ConfigRow}
    → m.has_endpoints ≡ true
    → m.has_configs ≡ true
    → ((d : Db) (q : Query) → m.fails d q ≡ false)
    → find_endpoint name db.endpoints ≡ some ep
    → find_config name db.configs ≡ some cfg
    → let before = merge_autoscaler_config (from_mysql_endpoint ep) cfg in
      (got : EndpointMetadata) × (get m (update_endpoint true m db now name (some req)).0 name
        ≡ some (some got))
      × (settings got ≡ requested req before)
      × (got.max_pending_tasks ≡ ep.max_pending_tasks)
unfolding update_endpoint
get-update_endpoint m db now name req {ep} {cfg} endpoints configs works found configured =
    let before = merge_autoscaler_config (from_mysql_endpoint ep) cfg in
    let read = get_over_rows m works db name endpoints configs found configured in
    let same : before.name ≡ name = get-name m works db name before endpoints read in
    let changed = applied req before in
    let (got, e, kept, limit) =
      get-save m db now changed {ep = ep} {cfg = cfg} endpoints configs works
        (subst (λ n. find_endpoint n db.endpoints ≡ some ep) (sym same) found)
        (subst (λ n. find_config n db.configs ≡ some cfg) (sym same) configured) in
    let stored = subst (λ n. get m (save m db now changed).0 n ≡ some (some got)) same e in
    (
      got,
      rw read (
          subst (λ d. get m d name ≡ some (some got))
            (sym (saved_status-db m (save m db now changed))) stored),
      kept ∙ filled-applied req before,
      limit,
    )
