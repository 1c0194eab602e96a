-- ===== src/Autoscaler/Calculator/BySpec.antt =====
-- pkg/autoscaler/resource_calculator.go: the sums of CalculateClusterResources.
use mathlib.Core.Path.{subst}
use waverless.Base.{
  if_same, sym, ◌≡◌, refl, ap, ◌∙◌, false, Option, none, some, List, [], ◌∷◌, String, str_eq, pos,
  eqb_ℤ, Bool-cases, Option-cases, inl, inr, if◌then◌else◌, arith, eq_iff,
}
use waverless.Base.Dict.{StringMap, load, store, load-store}
use waverless.Autoscaler.Types.{EndpointConfig, Resources, add, subtract}
use waverless.Autoscaler.Calculator.{
  ResourceCalculator, Outcome, failed, crashed, made, ClusterResources, calculate_endpoint_resource,
  no_resources, or_no_resources, Usage, charge, charge_endpoint, charge_all,
  calculate_cluster_resources,
}

module _ {F : Type 0} (c : ResourceCalculator F) where
  -- The spec of an endpoint and the resources that its running replicas take.
  abbrev pub resources_made : Outcome F → Option (Resources F)
  resources_made (made r) = some r
  resources_made _ = none

  abbrev pub taken : EndpointConfig → Option (Resources F)
  taken ep =
      if eqb_ℤ ep.actual_replicas (pos 0)
      then none
      else resources_made (calculate_endpoint_resource c ep ep.actual_replicas)

  -- The sum over all endpoints, from an amount on.
  abbrev pub plus : Resources F → Option (Resources F) → Resources F
  plus sum none = sum
  plus sum (some r) = add c.fl sum r

  abbrev pub sum_all : Resources F → List EndpointConfig → Resources F
  sum_all sum [] = sum
  sum_all sum (ep ∷ eps) = sum_all (plus sum (taken ep)) eps

  -- The sum over the endpoints of one spec; there is none where no endpoint takes anything.
  abbrev pub plus_some : Option (Resources F) → Option (Resources F) → Option (Resources F)
  plus_some sum none = sum
  plus_some sum (some r) = some (add c.fl (or_no_resources c sum) r)

  abbrev pub sum_of : String → Option (Resources F) → List EndpointConfig → Option (Resources F)
  sum_of spec sum [] = sum
  sum_of spec sum (ep ∷ eps) =
      let next = sum_of spec (plus_some sum (taken ep)) eps in
      let same = sum_of spec sum eps in if str_eq ep.spec_name spec then next else same

  Charged : Usage c → Usage c → EndpointConfig → String → Option (Resources F) → Type 0
  Charged usage next ep spec r =
      (next.0 ≡ plus usage.0 r)
      × (load spec next.1 ≡ (
          if str_eq ep.spec_name spec then plus_some (load spec usage.1) r else load spec usage.1))

  some_eq : {A : Type 0} {x y : A} → some x ≡ some y → x ≡ y
  some_eq e = ground (arith, e)

  load-charge :
      (by_spec : StringMap (Resources F)) (own spec : String) (r : Resources F)
      → str_eq spec "" ≡ false
      → load spec (
          if str_eq own ""
          then by_spec
          else store own (add c.fl (or_no_resources c (load own by_spec)) r) by_spec)
        ≡ (if str_eq own spec then plus_some (load spec by_spec) (some r) else load spec by_spec)
  load-charge by_spec own spec r named = elim (Bool-cases (str_eq own spec)) [
    | inl same ↦
        let path : own ≡ spec = ground (arith, eq_iff own spec, same) in
        rw path (rw named (load-store spec spec _ by_spec))
    | inr distinct ↦ elim (Bool-cases (str_eq own "")) [
      | inl unnamed ↦ rw (unnamed, distinct) refl
      | inr has_name ↦ rw (has_name, distinct) (rw (load-store, distinct) refl)
    ]
  ]

  charge-Charged :
      (usage next : Usage c) (ep : EndpointConfig) (spec : String) (o : Outcome F)
      → str_eq spec "" ≡ false
      → charge c usage ep o ≡ some next
      → Charged usage next ep spec (resources_made o)
  unfolding Charged
  charge-Charged usage next ep spec failed named e =
      subst (λ u. Charged usage u ep spec none) (some_eq e) (refl, sym (if_same _ _))
  charge-Charged usage next ep spec crashed named e = cc
  charge-Charged usage next ep spec (made r) named e =
      subst (λ u. Charged usage u ep spec (some r)) (some_eq e)
        (refl, load-charge usage.1 ep.spec_name spec r named)

  -- One endpoint is charged to the whole and to its spec.
  charge-sums :
      (usage next : Usage c) (ep : EndpointConfig) (spec : String)
      → str_eq spec "" ≡ false
      → charge_endpoint c usage ep ≡ some next
      → (next.0 ≡ plus usage.0 (taken ep))
        × (load spec next.1 ≡ (
            if str_eq ep.spec_name spec
            then plus_some (load spec usage.1) (taken ep)
            else load spec usage.1))
  unfolding Charged charge_endpoint
  charge-sums usage next ep spec named e = elim (Bool-cases (eqb_ℤ ep.actual_replicas (pos 0))) [
    | inl idle ↦ rw idle (charge-Charged usage next ep spec failed named (simp idle at e))
    | inr runs ↦ rw runs (
        charge-Charged usage next ep spec (calculate_endpoint_resource c ep ep.actual_replicas)
          named (simp runs at e))
  ]

  charge_all-sums :
      (usage result : Usage c) (eps : List EndpointConfig) (spec : String)
      → str_eq spec "" ≡ false
      → charge_all c usage eps ≡ some result
      → (result.0 ≡ sum_all usage.0 eps)
        × (load spec result.1 ≡ sum_of spec (load spec usage.1) eps)
  unfolding charge_all
  charge_all-sums usage result [] spec named e =
      let same = some_eq e in (ap (λ u. u.0) (sym same), ap (λ u. load spec u.1) (sym same))
  charge_all-sums usage result (ep ∷ eps) spec named e =
      elim (Option-cases (charge_endpoint c usage ep)) [
        | inl panics ↦
            absurd
              (let h : none ≡ some result = simp (panics, charge_all) at e in ground (arith, h))
        | inr (next, step) ↦
            let (own, mine) = charge-sums usage next ep spec named step in
            let (all, of_spec) =
              charge_all-sums next result eps spec named (simp (step, charge_all) at e) in
            (
              all ∙ ap (λ sum. sum_all sum eps) own,
              of_spec ∙ elim (Bool-cases (str_eq ep.spec_name spec)) [
                | inl same ↦ rw same (ap (λ sum. sum_of spec sum eps) (simp same at mine))
                | inr distinct ↦
                    rw distinct (ap (λ sum. sum_of spec sum eps) (simp distinct at mine))
              ],
            )
      ]

  -- The cluster's sums: where CalculateClusterResources has a result, what is used is the sum of
  -- what the running endpoints take, what is available is the rest of the total, and each named
  -- spec has the sum over its own endpoints, in their order.
  pub calculate_cluster_resources-sums :
      (endpoints : List EndpointConfig) (max_resources : Resources F) (cluster : ClusterResources F)
      (spec : String)
      → str_eq spec "" ≡ false
      → calculate_cluster_resources c endpoints max_resources ≡ some cluster
      → (cluster.used ≡ sum_all (no_resources c) endpoints)
        × (cluster.available ≡ subtract c.fl max_resources cluster.used)
        × (load spec cluster.by_spec ≡ sum_of spec none endpoints)
  unfolding calculate_cluster_resources load
  calculate_cluster_resources-sums endpoints max_resources cluster spec named e =
      elim (Option-cases (charge_all c (no_resources c, []) endpoints)) [
        | inl panics ↦ absurd (
            let h : none ≡ some cluster = simp (panics, calculate_cluster_resources) at e in
            ground (arith, h))
        | inr (usage, done) ↦
            let whole : some (record {
              total = max_resources;
              used = usage.0;
              available = subtract c.fl max_resources usage.0;
              by_spec = usage.1;
            })
                ≡ some cluster =
              simp (done, calculate_cluster_resources) at e in
            let (all, of_spec) =
              charge_all-sums (no_resources c, []) usage endpoints spec named done in
            subst
              (λ k.
                (k.used ≡ sum_all (no_resources c) endpoints)
                × (k.available ≡ subtract c.fl max_resources k.used)
                × (load spec k.by_spec ≡ sum_of spec none endpoints))
              (some_eq whole) (all, refl, of_spec)
      ]
