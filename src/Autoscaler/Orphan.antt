-- ===== src/Autoscaler/Orphan.antt =====
-- pkg/autoscaler/executor.go: isOrphanedEndpoint and fixOrphanedEndpoint.
use waverless.Base.{
  ◌*◌, Bool, true, false, not, none, some, List, [], ◌∷◌, pos, ltb_ℤ, if◌then◌else◌, since,
}
use waverless.Autoscaler.Types.{ScaleDecision}
use waverless.Autoscaler.World.{
  Worker, Metadata, Env, M, pure, crash, ◌>>=◌, ask, get_endpoint, update_endpoint, list_workers,
  get_app, orphan_fixed, deployment_not_found,
}
use waverless.Autoscaler.Recorder.{clock, save}

module _ {F : Type 0} (env : Env F) where
  abbrev pub has_worker : List Worker → Bool
  has_worker [] = false
  has_worker (w ∷ ws) = true

  -- The last two tests of `isOrphanedEndpoint`: older than ten minutes, and with workers on record.
  unfoldable pub is_abandoned : ScaleDecision F → Metadata → M F Bool
  is_abandoned d meta = do
    now ← clock env
    elim (ltb_ℤ (since now meta.created_at) (pos (600 * 1000000000))) [
      | true ↦ pure false
      | false ↦ do
        workers ← ask (list_workers d.endpoint) (λ log. env.workers_of log d.endpoint)
        pure (elim workers [ none ↦ false | some ws ↦ has_worker ws ])
    ]

  unfoldable pub is_orphaned : ScaleDecision F → M F Bool
  unfolding is_abandoned
  is_orphaned d = if not env.has_k8s then pure false else (do
    exists ← ask (get_app d.endpoint) (λ log. env.app_exists log d.endpoint)
    elim exists [
      | true ↦ pure false
      | false ↦ do
        found ← ask (get_endpoint d.endpoint) (λ log. env.endpoint_of log d.endpoint)
        elim found [
          | none ↦ pure false
          | some none ↦ crash
          | some (some meta) ↦ is_abandoned d meta
        ]
    ])

  -- Writes the stopped state, and records it if the write succeeds.
  unfoldable pub stop_orphan : ScaleDecision F → Metadata → M F (Unit {0})
  stop_orphan d meta = do
    now ← clock env
    let stopped = record meta { replicas = pos 0; status = "Stopped"; updated_at = now }
    written ← ask (update_endpoint stopped) (λ log. env.endpoint_updated log stopped)
    elim written [
      | false ↦ pure tt
      | true ↦ save env d orphan_fixed meta.replicas (pos 0) deployment_not_found []
    ]

  unfoldable pub fix_orphaned : ScaleDecision F → M F (Unit {0})
  unfolding stop_orphan
  fix_orphaned d = do
    found ← ask (get_endpoint d.endpoint) (λ log. env.endpoint_of log d.endpoint)
    elim found [ none ↦ pure tt | some none ↦ crash | some (some meta) ↦ stop_orphan d meta ]
