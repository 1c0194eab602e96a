-- ===== src/Releaser/Health.antt =====
-- The health of an endpoint, and when it is scaled to 0.
use waverless.Base.{
  ℕ, ◌≡◌, ◌↔◌, ◌⊎◌, ◌<◌, inl, inr, refl, true, some, List, ◌∷◌, String, pos, length, select,
  length-select-le, All, All-length-select, Option-cases, Bool-cases, arith,
}
use waverless.Store.{WorkerRow}
use waverless.Store.Workers.{get_by_endpoint}
use waverless.Store.Endpoints.{update_health_status}
use waverless.Releaser.{
  HealthStatus, healthy, degraded, unhealthy, State, Setting, is_failed, health_of, message_for,
  update_endpoint_health_status,
}

abbrev pub failures : List WorkerRow → ℕ
failures ws = length (select is_failed ws)

-- An endpoint is healthy exactly when no worker failed, degraded exactly when some failed and not
-- all, and unhealthy exactly when there are workers and all of them failed.
pub health_of_iff :
    (ws : List WorkerRow)
    → ((health_of ws ≡ healthy) ↔ (failures ws ≡ 0))
      × ((health_of ws ≡ degraded) ↔ ((0 < failures ws) × (failures ws < length ws)))
      × ((health_of ws ≡ unhealthy) ↔ ((0 < length ws) × (failures ws ≡ length ws)))
unfolding health_of
health_of_iff ws = (
  (
    λ h. ground (arith, length-select-le is_failed ws),
    λ h. ground (arith, length-select-le is_failed ws),
  ),
  (
    λ h. ground (arith, length-select-le is_failed ws),
    λ h. ground (arith, length-select-le is_failed ws),
  ),
  (
    λ h. ground (arith, length-select-le is_failed ws),
    λ h. ground (arith, length-select-le is_failed ws),
  ),
)

module _ (e : Setting) (s : State) (endpoint : String) where
  -- The active workers of the endpoint, at least one, have all failed.
  pub record AllFailed : Type 0 where
    pub workers : List WorkerRow
    pub active : get_by_endpoint e.fails s.db endpoint ≡ some workers
    pub present : 0 < length workers
    pub failed : All (λ w. is_failed w ≡ true) workers

  -- An update of the health scales at most its own endpoint, to 0, and only if all its active
  -- workers have failed.
  pub update_endpoint_health_status-scales :
      ((update_endpoint_health_status e s endpoint).scaled ≡ s.scaled)
      ⊎ (((update_endpoint_health_status e s endpoint).scaled ≡ (endpoint, pos 0) ∷ s.scaled)
          × AllFailed)
  unfolding update_endpoint_health_status
  update_endpoint_health_status-scales =
      elim (Option-cases (get_by_endpoint e.fails s.db endpoint)) [
        | inl failed ↦ inl (ground arith)
        | inr (ws, found) ↦ cases ws found (health_of ws) refl
      ]
    where
      cases :
          (ws : List WorkerRow)
          → get_by_endpoint e.fails s.db endpoint ≡ some ws
          → (h : HealthStatus) → health_of ws ≡ h
          → ((update_endpoint_health_status e s endpoint).scaled ≡ s.scaled)
            ⊎ (((update_endpoint_health_status e s endpoint).scaled ≡ (endpoint, pos 0) ∷ s.scaled)
                × AllFailed)
      cases ws found healthy q = inl (ground arith)
      cases ws found degraded q = inl (ground arith)
      cases ws found unhealthy q =
          let (present, all) = ((health_of_iff ws).2).0 q in
          let facts : AllFailed = record {
            workers = ws;
            active = found;
            present = present;
            failed = All-length-select is_failed ws all;
          } in
          elim (Bool-cases
            (update_health_status e.fails s.db endpoint "UNHEALTHY" (message_for unhealthy ws)
              e.now).1) [
                | inl written ↦ inr (ground arith, facts)
                | inr refused ↦ inl (ground arith)
              ]
