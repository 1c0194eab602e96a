-- ===== src/Autoscaler/Lock/Shared.antt =====
-- Several instances that share one key, each named by its `lockValue`, and what can happen to them,
-- in any order.
use waverless.Base.{ℕ, ◌+◌, Bool, List, [], ◌∷◌, String, str_eq, if◌then◌else◌, Time}
use waverless.Autoscaler.Lock.{
  Redis, Lock, Delivery, Attempt, try_lock, begin_unlock, finish_unlock, renew, stop_renewal,
}

pub record World (R : Type 0) : Type 0 where
  pub now : Time
  pub redis : R
  pub locks : String → Lock

pub data Event : Type 0 where
  waits : ℕ → Event
  tries : String → Delivery → Event
  begins_unlock : String → Event
  finishes_unlock : String → Delivery → Event
  ticks : String → Delivery → Event
  stops : String → Bool → Event

abbrev pub put : String → Lock → (String → Lock) → String → Lock
put id l locks j = if str_eq id j then l else locks j

module _ {R : Type 0} (redis : Redis R) (key : String) where
  -- What `TryLock` of an instance returns in a world.
  abbrev pub attempt : String → Delivery → World R → Attempt
  attempt id delivery w = (try_lock redis w.now key id delivery (w.locks id) w.redis).0

  unfoldable pub step : Event → World R → World R
  step (waits d) w = record w { now = w.now + d }
  step (tries id delivery) w =
      let (_, l, r) = try_lock redis w.now key id delivery (w.locks id) w.redis in
      record w { redis = r; locks = put id l w.locks }
  step (begins_unlock id) w = record w { locks = put id (begin_unlock (w.locks id)) w.locks }
  step (finishes_unlock id delivery) w =
      let (l, r) = finish_unlock redis w.now key id delivery (w.locks id) w.redis in
      record w { redis = r; locks = put id l w.locks }
  step (ticks id delivery) w =
      let (l, r) = renew redis w.now key id delivery (w.locks id) w.redis in
      record w { redis = r; locks = put id l w.locks }
  step (stops id done) w = record w { locks = put id (stop_renewal done (w.locks id)) w.locks }

  unfoldable pub run : List Event → World R → World R
  unfolding step
  run [] w = w
  run (e ∷ es) w = run es (step e w)
