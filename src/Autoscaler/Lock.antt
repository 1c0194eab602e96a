-- ===== src/Autoscaler/Lock.antt =====
-- pkg/autoscaler/distributed_lock.go: one lock of one instance. Redis is a parameter.
pub mod Shared
pub mod Exclusion
pub mod Channel
mod Tests
use waverless.Base.{
  ℕ, suc, ◌+◌, ◌-◌, ◌*◌, ◌≤◌, ◌<◌, ◌≡◌, ◌==◌, Bool, true, false, not, ◌||◌, Option, none, some,
  String, str_eq, pos, ltb_ℤ, if◌then◌else◌, Time, since,
}

-- What the code calls of Redis, at a time: reading a key, setting it if it is absent, deleting it
-- and giving it a new time to live. A lifetime is in nanoseconds.
pub record Redis (R : Type 0) : Type 0 where
  pub read : Time → String → R → Option String
  pub set_nx : Time → String → String → ℕ → R → Bool × R
  pub del : Time → String → R → R
  pub expire : Time → String → ℕ → R → R

-- The documented behaviour of these commands on one key.
pub record IsRedis {R : Type 0} (redis : Redis R) : Type 0 where
  pub set_free :
      (now : Time) (k v : String) (ttl : ℕ) (r : R)
      → redis.read now k r ≡ none
      → (redis.set_nx now k v ttl r).0 ≡ true
  pub set_taken :
      (now : Time) (k v u : String) (ttl : ℕ) (r : R)
      → redis.read now k r ≡ some u
      → redis.set_nx now k v ttl r ≡ (false, r)
  pub read_set :
      (now later : Time) (k v : String) (ttl : ℕ) (r : R)
      → redis.read now k r ≡ none
      → now ≤ later
      → later < now + ttl
      → redis.read later k (redis.set_nx now k v ttl r).1 ≡ some v
  pub read_expire :
      (now later : Time) (k v : String) (ttl : ℕ) (r : R)
      → redis.read now k r ≡ some v
      → now ≤ later
      → later < now + ttl
      → redis.read later k (redis.expire now k ttl r) ≡ some v
  pub read_del :
      (now later : Time) (k : String) (r : R)
      → now ≤ later
      → redis.read later k (redis.del now k r) ≡ none

-- What becomes of a command: it is carried out and answered, it never arrives, or it is carried
-- out and the answer is lost. The last two are errors to the caller.
pub data Delivery : Type 0 where
  answered unsent unheard : Delivery

-- `RedisDistributedLock`. `stop_closed` says of the current channel `stopRenew` that it is closed,
-- `panicked` that a closed channel was closed. `renewers` counts the live goroutines of `renewLock`,
-- and `unlocking` says that `Unlock` stands between its two critical sections.
pub record Lock : Type 0 where
  pub has_client : Bool
  pub is_held : Bool
  pub acquired_at : Time
  pub stop_closed : Bool
  pub renew_stopped : Bool
  pub panicked : Bool
  pub renewers : ℕ
  pub unlocking : Bool

abbrev pub lock_ttl : ℕ
lock_ttl = 30 * 1000000000

abbrev pub max_lock_hold_duration : ℕ
max_lock_hold_duration = 120 * 1000000000

-- `NewRedisDistributedLock`
abbrev pub new_lock : Bool → Lock
new_lock has_client = record {
  has_client = has_client;
  is_held = false;
  acquired_at = 0;
  stop_closed = false;
  renew_stopped = false;
  panicked = false;
  renewers = 0;
  unlocking = false;
}

-- The result of `TryLock`.
pub data Attempt : Type 0 where
  acquired refused failed : Attempt

abbrev pub is_acquired : Attempt → Bool
is_acquired acquired = true
is_acquired _ = false

-- What `TryLock` does with the answer of `SetNX`.
unfoldable pub take : Time → Lock → Delivery → Bool → Attempt × Lock
take now l answered true = (
  acquired,
  record l {
    is_held = true;
    acquired_at = now;
    stop_closed = false;
    renew_stopped = false;
    renewers = suc l.renewers;
  },
)
take now l answered false = (refused, l)
take now l _ set = (failed, l)

-- Closing a channel that is closed panics.
abbrev pub close_stop : Lock → Lock
close_stop l =
    if l.stop_closed then record l { panicked = true } else record l { stop_closed = true }

-- The first critical section of `Unlock`.
unfoldable pub begin_unlock : Lock → Lock
begin_unlock l =
    if not l.is_held
    then l
    else if not l.has_client
    then record l { is_held = false }
    else if not l.renew_stopped
    then record (close_stop l) { renew_stopped = true; unlocking = true }
    else record l { unlocking = true }

-- What `Unlock` does with the answer of its script.
unfoldable pub end_unlock : Lock → Delivery → Lock
end_unlock l answered = record l { is_held = false; unlocking = false }
end_unlock l _ = record l { unlocking = false }

-- What `renewLock` does when its script has answered whether the key was still its own.
unfoldable pub end_renewal : Lock → Delivery → Bool → Lock
end_renewal l answered true = l
end_renewal l _ own = record l { is_held = false; renewers = l.renewers - 1 }

abbrev pub is_held_too_long : Time → Lock → Bool
is_held_too_long now l = ltb_ℤ (pos max_lock_hold_duration) (since now l.acquired_at)

abbrev pub has_value : String → Option String → Bool
has_value value none = false
has_value value (some v) = str_eq v value

module _ {R : Type 0} (redis : Redis R) where
  -- A command, where it is carried out.
  abbrev pub deliver : {A : Type 0} → Delivery → A → (A × R) → R → A × R
  deliver unsent default done r = (default, r)
  deliver _ default done r = done

  -- The test of the Lua scripts: does the key have the value of this lock?
  abbrev pub is_own : Time → String → String → R → Bool
  is_own now key value r = has_value value (redis.read now key r)

  -- `TryLock`
  unfoldable pub try_lock : Time → String → String → Delivery → Lock → R → Attempt × Lock × R
  unfolding take
  try_lock now key value delivery l r =
      if not l.has_client
      then (acquired, record l { is_held = true }, r)
      else (let (set, r') = deliver delivery false (redis.set_nx now key value lock_ttl r) r in
          let (attempt, l') = take now l delivery set in (attempt, l', r'))

  -- The script of `Unlock`: deletes the key if it is this lock's own.
  unfoldable pub release_script : Time → String → String → R → R
  release_script now key value r = if is_own now key value r then redis.del now key r else r

  -- The rest of `Unlock` behind its first critical section.
  unfoldable pub finish_unlock : Time → String → String → Delivery → Lock → R → Lock × R
  unfolding release_script end_unlock
  finish_unlock now key value delivery l r =
      if not l.unlocking
      then (l, r)
      else (end_unlock l delivery, (deliver delivery tt (tt, release_script now key value r) r).1)

  -- `Unlock`, undisturbed.
  unfoldable pub unlock : Time → String → String → Delivery → Lock → R → Lock × R
  unfolding begin_unlock finish_unlock
  unlock now key value delivery l r = finish_unlock now key value delivery (begin_unlock l) r

  -- The script of `renewLock`: a new time to live for the key if it is this lock's own.
  unfoldable pub renew_script : Time → String → String → R → Bool × R
  renew_script now key value r =
      if is_own now key value r then (true, redis.expire now key lock_ttl r) else (false, r)

  -- One tick of `renewLock`.
  unfoldable pub renew : Time → String → String → Delivery → Lock → R → Lock × R
  unfolding renew_script end_renewal
  renew now key value delivery l r =
      if l.renewers == 0
      then (l, r)
      else if is_held_too_long now l
      then (record l { is_held = false; renewers = l.renewers - 1 }, r)
      else (let (own, r') = deliver delivery false (renew_script now key value r) r in
          (end_renewal l delivery own, r'))

-- A goroutine of `renewLock` that sees the channel closed, or its context done.
abbrev pub stop_renewal : Bool → Lock → Lock
stop_renewal done l = if l.stop_closed || done then record l { renewers = l.renewers - 1 } else l
