-- ===== src/Autoscaler/Control/Settings.antt =====
-- pkg/autoscaler/manager.go: the configuration over a restart.
use waverless.Base.{
  ◌≡◌, refl, true, false, some, String, pos, ◌≤ℤ◌, ◌<ℤ◌, Bool-cases, inl, inr, arith,
}
use waverless.Autoscaler.Types.{Config}
use waverless.Autoscaler.Control.{
  Manager, ConfigStore, is_valid, persist_config, load_persisted_config, update_global_config,
}

-- The intervals and limits that UpdateGlobalConfig takes.
abbrev pub InRange : Config → Type 0
InRange c =
    (pos 0 <ℤ c.interval)
    × (pos 0 ≤ℤ c.max_gpu_count)
    × (pos 0 ≤ℤ c.max_cpu_cores)
    × (pos 0 ≤ℤ c.max_memory_gb)
    × (pos 0 ≤ℤ c.starvation_time)

valid-InRange : (c : Config) → is_valid c ≡ true → InRange c
valid-InRange c valid = (
  ground (arith, valid),
  ground (arith, valid),
  ground (arith, valid),
  ground (arith, valid),
  ground (arith, valid),
)

module _ {R : Type 0} (io : ConfigStore R) where
  -- A configuration that is taken survives a restart: where Redis is there and gives back what was
  -- written, and the configuration can be written as JSON and read again, a manager that loads the
  -- configuration after UpdateGlobalConfig has taken it has that configuration and that switch,
  -- whatever it had before, and its interval is positive and its limits are not negative.
  pub load_persisted_config-update_global_config :
      (r : R) (m fresh : Manager) (config : Config) (encoded : String)
      → io.has_redis ≡ true
      → io.marshal config ≡ some encoded
      → io.unmarshal encoded ≡ some config
      → io.get (io.set r encoded) ≡ some encoded
      → (update_global_config io r m config).1 ≡ true
      → let loaded = load_persisted_config io (update_global_config io r m config).0.0 fresh in
        (loaded.config ≡ config) × (loaded.enabled ≡ config.enabled) × InRange config
  unfolding load_persisted_config update_global_config persist_config
  load_persisted_config-update_global_config r m fresh config encoded redis writes reads kept
        taken =
      elim (Bool-cases (is_valid config)) [
        | inr invalid ↦ absurd (
            let h : false ≡ true = simp (invalid, update_global_config) at taken in
            ground (arith, h))
        | inl valid ↦ (
          rw (valid, redis, writes, kept, reads) refl,
          rw (valid, redis, writes, kept, reads) refl,
          valid-InRange config valid,
        )
      ]
