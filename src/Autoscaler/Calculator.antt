-- ===== src/Autoscaler/Calculator.antt =====
-- pkg/autoscaler/resource_calculator.go. The specs come from the spec manager (pkg/deploy/k8s/spec.go),
-- and numbers are read by Go's `strconv`.
pub mod BySpec
use waverless.Base.{
  ◌≡◌, Bool, true, false, ◌&&◌, ◌||◌, not, Option, none, some, List, [], ◌∷◌, String, str_eq, ℤ,
  pos, eqb_ℤ, mul_int, if◌then◌else◌, Float64,
}
use waverless.Base.Dict.{StringMap, load, store}
use waverless.Base.Text.{trim_space, has_suffix, trim_suffix, to_upper}
use waverless.Autoscaler.Types.{EndpointConfig, Resources, add, subtract}

-- The `ResourceSpec` of pkg/deploy/k8s/spec.go, as far as it is read.
pub record ResourceSpec : Type 0 where
  pub name : String
  pub category : String
  pub gpu : String
  pub cpu : String
  pub memory : String

-- What the calculator calls: `strconv.Atoi`, `strconv.ParseFloat`, the spec manager, and the
-- metadata of an endpoint, of which it reads the name of the spec. An outer `none` is an error, an
-- inner one nil metadata.
pub record ResourceCalculator (F : Type 0) : Type 0 where
  pub fl : Float64 F
  pub atoi : String → Option ℤ
  pub parse_float : String → Option F
  pub get_spec : String → Option ResourceSpec
  pub spec_name_of : String → Option (Option String)

-- An error, the panic of reading a nil pointer, or the resources.
pub data Outcome (F : Type 0) : Type 0 where
  failed crashed : Outcome F
  made : Resources F → Outcome F

pub record ClusterResources (F : Type 0) : Type 0 where
  pub total : Resources F
  pub used : Resources F
  pub available : Resources F
  pub by_spec : StringMap (Resources F)

module _ {F : Type 0} (c : ResourceCalculator F) where
  abbrev pub one : F
  one = c.fl.of_int (pos 1)

  -- The constant 0.93, which is the quotient that division rounds to.
  abbrev pub gib_of_gb : F
  gib_of_gb = c.fl.div (c.fl.of_int (pos 93)) (c.fl.of_int (pos 100))

  abbrev pub mapped : (F → F) → Option F → Option F
  mapped f none = none
  mapped f (some x) = some (f x)

  unfoldable pub parse_cpu : String → Option F
  unfolding trim_space has_suffix trim_suffix
  parse_cpu text =
      let cpu = trim_space text in
      if str_eq cpu ""
      then some one
      else if has_suffix cpu "m"
      then (mapped (λ milli. c.fl.div milli (c.fl.of_int (pos 1000)))
          (c.parse_float (trim_suffix cpu "m")))
      else c.parse_float cpu

  abbrev pub without_unit : String → String → String → String
  without_unit memory second last = trim_suffix (trim_suffix memory second) last

  unfoldable pub parse_memory : String → Option F
  unfolding trim_space has_suffix trim_suffix to_upper
  parse_memory text =
      let memory = to_upper (trim_space text) in
      if str_eq (trim_space text) ""
      then some one
      else if has_suffix memory "GI" || has_suffix memory "GIB"
      then c.parse_float (trim_suffix (without_unit memory "B" "I") "G")
      else if has_suffix memory "GB" || has_suffix memory "G"
      then mapped (λ n. c.fl.mul n gib_of_gb) (c.parse_float (without_unit memory "B" "G"))
      else if has_suffix memory "MI" || has_suffix memory "MIB"
      then (mapped (λ n. c.fl.div n (c.fl.of_int (pos 1024)))
          (c.parse_float (trim_suffix (without_unit memory "B" "I") "M")))
      else if has_suffix memory "MB" || has_suffix memory "M"
      then (mapped (λ n. c.fl.mul (c.fl.div n (c.fl.of_int (pos 1024))) gib_of_gb)
          (c.parse_float (without_unit memory "B" "M")))
      else c.parse_float memory

  abbrev pub or_zero : Option ℤ → ℤ
  or_zero none = pos 0
  or_zero (some n) = n

  abbrev pub or_one : Option F → F
  or_one none = one
  or_one (some x) = x

  unfoldable pub resources_of : ResourceSpec → ℤ → Resources F
  unfolding parse_cpu parse_memory
  resources_of spec replicas = record {
    gpu_count =
        if str_eq spec.category "gpu" && not (str_eq spec.gpu "")
        then mul_int (or_zero (c.atoi spec.gpu)) replicas
        else pos 0;
    cpu_cores = c.fl.mul (or_one (parse_cpu spec.cpu)) (c.fl.of_int replicas);
    memory_gb = c.fl.mul (or_one (parse_memory spec.memory)) (c.fl.of_int replicas);
  }

  abbrev pub for_spec : Option ResourceSpec → ℤ → Outcome F
  for_spec none replicas = failed
  for_spec (some spec) replicas = made (resources_of spec replicas)

  abbrev pub for_metadata : Option (Option String) → ℤ → Outcome F
  for_metadata none replicas = failed
  for_metadata (some none) replicas = crashed
  for_metadata (some (some name)) replicas = for_spec (c.get_spec name) replicas

  unfoldable pub calculate_endpoint_resource : EndpointConfig → ℤ → Outcome F
  unfolding resources_of
  calculate_endpoint_resource ep replicas =
      if str_eq ep.spec_name ""
      then for_metadata (c.spec_name_of ep.name) replicas
      else for_spec (c.get_spec ep.spec_name) replicas

  abbrev pub no_resources : Resources F
  no_resources = record {
    gpu_count = pos 0;
    cpu_cores = c.fl.of_int (pos 0);
    memory_gb = c.fl.of_int (pos 0);
  }

  abbrev pub or_no_resources : Option (Resources F) → Resources F
  or_no_resources none = no_resources
  or_no_resources (some r) = r

  -- What the loop over the endpoints has summed up.
  abbrev pub Usage : Type 0
  Usage = Resources F × StringMap (Resources F)

  abbrev pub charge : Usage → EndpointConfig → Outcome F → Option Usage
  charge usage ep failed = some usage
  charge usage ep crashed = none
  charge usage ep (made r) = some (
    add c.fl usage.0 r,
    if str_eq ep.spec_name ""
        then usage.1
        else store ep.spec_name (add c.fl (or_no_resources (load ep.spec_name usage.1)) r) usage.1,
  )

  unfoldable pub charge_endpoint : Usage → EndpointConfig → Option Usage
  unfolding calculate_endpoint_resource
  charge_endpoint usage ep =
      if eqb_ℤ ep.actual_replicas (pos 0)
      then some usage
      else charge usage ep (calculate_endpoint_resource ep ep.actual_replicas)

  unfoldable pub charge_all : Usage → List EndpointConfig → Option Usage
  unfolding charge_endpoint
  charge_all usage [] = some usage
  charge_all usage (ep ∷ eps) = elim (charge_endpoint usage ep) [
    | none ↦ none
    | some next ↦ charge_all next eps
  ]

  -- `none` is a panic.
  unfoldable pub calculate_cluster_resources :
      List EndpointConfig → Resources F → Option (ClusterResources F)
  unfolding charge_all
  calculate_cluster_resources endpoints max_resources =
      elim (charge_all (no_resources, []) endpoints) [
        | none ↦ none
        | some usage ↦ some (record {
          total = max_resources;
          used = usage.0;
          available = subtract c.fl max_resources usage.0;
          by_spec = usage.1;
        })
      ]
