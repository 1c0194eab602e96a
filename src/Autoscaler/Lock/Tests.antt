-- ===== src/Autoscaler/Lock/Tests.antt =====
-- The theorems on the lock at concrete inputs, over a Redis that keeps one key.
use waverless.Base.{
  ℕ, ◌+◌, ◌*◌, ◌≡◌, ◌≢◌, refl, Bool, true, false, Option, none, some, List, [], ◌∷◌, String, ltb,
  Time, if◌then◌else◌, arith,
}
use waverless.Autoscaler.Lock.{
  Redis, IsRedis, Lock, answered, unheard, acquired, new_lock, try_lock, take, renew,
}
use waverless.Autoscaler.Lock.Shared.{
  World, Event, waits, tries, begins_unlock, ticks, attempt, run, step,
}
use waverless.Autoscaler.Lock.Exclusion.{attempt-exclusive}
use waverless.Autoscaler.Lock.Channel.{AllSound, run-AllSound}

abbrev Entry : Type 0
Entry = Option (String × Time)

abbrev read_entry : Time → Entry → Option String
read_entry now none = none
read_entry now (some (v, until)) = if ltb now until then some v else none

abbrev set_entry : Time → String → ℕ → Entry → Option String → Bool × Entry
set_entry now v ttl r none = (true, some (v, now + ttl))
set_entry now v ttl r (some u) = (false, r)

abbrev expire_entry : Time → ℕ → Entry → Option String → Entry
expire_entry now ttl r none = r
expire_entry now ttl r (some u) = some (u, now + ttl)

abbrev one_key : Redis Entry
one_key = record {
  read = λ now k r. read_entry now r;
  set_nx = λ now k v ttl r. set_entry now v ttl r (read_entry now r);
  del = λ now k r. none;
  expire = λ now k ttl r. expire_entry now ttl r (read_entry now r);
}

one_key-IsRedis : IsRedis one_key
one_key-IsRedis = record {
  set_free = λ now k v ttl r free. simp free;
  set_taken = λ now k v u ttl r taken. simp taken;
  read_set = λ now later k v ttl r free p q. simp free (ground arith);
  read_expire = λ now later k v ttl r own p q. simp own (ground arith);
  read_del = λ now later k r p. refl;
}

abbrev start : World Entry
start = record { now = 1000; redis = none; locks = λ id. new_lock true }

first_acquires : attempt one_key "k" "a" answered start ≡ acquired
unfolding try_lock take
first_acquires = refl

-- The owner renews after 29 s, and another instance tries in between and 29.9 s in.
abbrev busy : List Event
busy =
    waits (29 * 1000000000)
    ∷ tries "b" answered
    ∷ ticks "a" unheard
    ∷ begins_unlock "a"
    ∷ waits 900000000
    ∷ []

busy_now : (run one_key "k" (tries "a" answered ∷ busy) start).now ≡ 29900001000
unfolding run step
busy_now = refl

busy_client : ((run one_key "k" (tries "a" answered ∷ busy) start).locks "b").has_client ≡ true
unfolding run step try_lock take renew
busy_client = refl

attempt-exclusive_example :
    attempt one_key "k" "b" answered (run one_key "k" (tries "a" answered ∷ busy) start) ≢ acquired
attempt-exclusive_example =
    attempt-exclusive one_key one_key-IsRedis "k" "a" answered start busy "b" answered refl
      first_acquires (refl, (refl, (refl, (refl, (refl, tt))))) (rw busy_now (omega arith))
      busy_client

run-AllSound_example : AllSound one_key "k" (run one_key "k" (tries "a" answered ∷ busy) start)
run-AllSound_example =
    run-AllSound one_key "k" (tries "a" answered ∷ busy) start
      (record { each = λ id. record { calm = refl; marked = λ e. e } })

abbrev held : Lock
held = record (new_lock true) { is_held = true; acquired_at = 1000; renewers = 1 }
