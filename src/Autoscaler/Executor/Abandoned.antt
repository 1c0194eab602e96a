-- ===== src/Autoscaler/Executor/Abandoned.antt =====
-- pkg/autoscaler/executor.go: which endpoints a scale-down stops as orphaned.
use waverless.Base.{◌≡◌, ◌≢◌, true, false, some, List, [], ◌∷◌, pos, ◌≤ℤ◌, All, since, Time}
use waverless.Autoscaler.Types.{ScaleDecision}
use waverless.Autoscaler.World.{
  Worker, Metadata, Log, Env, update_endpoint, get_endpoint, get_app, list_workers,
}

-- The metadata that a log writes, the latest first.
unfoldable pub metadata_writes : {F : Type 0} → Log F → List Metadata
metadata_writes [] = []
metadata_writes (update_endpoint meta ∷ log) = meta ∷ metadata_writes log
metadata_writes (c ∷ log) = metadata_writes log

module _ {F : Type 0} (env : Env F) (d : ScaleDecision F) where
  -- What the tests of isOrphanedEndpoint find at `log`: a provider that has no deployment of the
  -- endpoint, metadata of an endpoint that was created ten minutes ago or earlier, and a worker on
  -- record.
  pub record IsAbandoned (log : Log F) : Type 0 where
    pub has_provider : env.has_k8s ≡ true
    pub no_deployment : env.app_exists log d.endpoint ≡ false
    pub meta : Metadata
    pub known : env.endpoint_of (get_app d.endpoint ∷ log) d.endpoint ≡ some (some meta)
    pub old :
        pos 600000000000
        ≤ℤ since (env.now (get_endpoint d.endpoint ∷ get_app d.endpoint ∷ log)) meta.created_at
    pub worker : Worker
    pub others : List Worker
    pub on_record :
        env.workers_of (get_endpoint d.endpoint ∷ get_app d.endpoint ∷ log) d.endpoint
        ≡ some (worker ∷ others)

  -- From one log to another, the metadata of the endpoint was written once, as stopped.
  abbrev pub WritesStopped : Log F → Log F → Type 0
  WritesStopped log end =
      (meta : Metadata) × (now : Time) × (metadata_writes end
        ≡ record meta { replicas = pos 0; status = "Stopped"; updated_at = now }
          ∷ metadata_writes log)

  -- A scale-down of the endpoint finds that it is orphaned: workers are on record, none of them is
  -- idle, and the tests of isOrphanedEndpoint hold.
  pub record FindsOrphan (log : Log F) : Type 0 where
    pub workers : List Worker
    pub listed : env.workers_of log d.endpoint ≡ some workers
    pub nobody_idle : All (λ w. w.current_jobs ≢ pos 0) workers
    pub abandoned : IsAbandoned (list_workers d.endpoint ∷ log)
