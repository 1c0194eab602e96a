-- ===== src/Autoscaler/Recorder.antt =====
-- What several methods of pkg/autoscaler/executor.go do: reading the clock, saving an event, writing
-- metadata back and setting the deletion cost of a pod.
use waverless.Base.{◌&&◌, none, some, List, String, str_eq, ℤ, pos, ltb_ℤ, if◌then◌else◌, Time}
use waverless.Autoscaler.Types.{ScaleDecision}
use waverless.Autoscaler.World.{
  Metadata, Action, EventText, Env, M, pure, crash, ◌>>=◌, ask, send, get_endpoint, update_endpoint,
  create_event, set_deletion_cost,
}

module _ {F : Type 0} (env : Env F) where
  abbrev pub clock : M F Time
  clock log = (some (env.now log), log)

  -- A scaling event about a decision, saved at the current time.
  abbrev pub save : ScaleDecision F → Action → ℤ → ℤ → EventText → List String → M F (Unit {0})
  save d action from to reason preempted_from = do
    now ← clock
    send (
        create_event (record {
          endpoint = d.endpoint;
          timestamp = now;
          action = action;
          from_replicas = from;
          to_replicas = to;
          reason = reason;
          queue_length = d.queue_length;
          priority = d.priority;
          preempted_from = preempted_from;
        }))

  -- The new metadata after a scale-up, with the status repaired.
  abbrev pub scaled_up : ScaleDecision F → Time → Metadata → Metadata
  scaled_up d now meta = record meta {
    replicas = d.desired_replicas;
    last_scale_time = now;
    updated_at = now;
    status =
        if str_eq meta.status "Stopped" && ltb_ℤ (pos 0) d.desired_replicas
        then "Pending"
        else meta.status;
  }

  abbrev pub scaled_down : ScaleDecision F → Time → Metadata → Metadata
  scaled_down d now meta = record meta {
    replicas = d.desired_replicas;
    last_scale_time = now;
    updated_at = now;
  }

  -- Reads the metadata and writes it back changed; a failure is only logged, but nil metadata is
  -- written to and panics.
  abbrev pub write_metadata : ScaleDecision F → (Time → Metadata → Metadata) → M F (Unit {0})
  write_metadata d change = do
    found ← ask (get_endpoint d.endpoint) (λ log. env.endpoint_of log d.endpoint)
    elim found [
      | none ↦ pure tt
      | some none ↦ crash
      | some (some meta) ↦ do now ← clock; send (update_endpoint (change now meta))
    ]

  -- The cost that makes Kubernetes delete the pod first, or 0 again.
  abbrev pub set_cost : String → ℤ → M F (Unit {0})
  set_cost pod cost = if env.has_k8s then send (set_deletion_cost pod cost) else pure tt
