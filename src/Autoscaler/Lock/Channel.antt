-- ===== src/Autoscaler/Lock/Channel.antt =====
-- What Unlock does: the channel that it closes, the key that it deletes and the one that it leaves.
use waverless.Base.{
  ◌-◌, ◌≡◌, ◌≤◌, inl, inr, refl, Bool, true, false, none, some, List, [], ◌∷◌, String, str_eq, Time,
  Bool-cases, ◌==◌, arith,
}
use text.Mathlib.TextPositions.{eq_refl}
use waverless.Autoscaler.Lock.{
  Redis, IsRedis, Lock, Delivery, answered, unsent, unheard, try_lock, take, begin_unlock,
  end_unlock, finish_unlock, release_script, unlock, renew, end_renewal, is_held_too_long,
  stop_renewal,
}
use waverless.Autoscaler.Lock.Shared.{
  World, Event, waits, tries, begins_unlock, finishes_unlock, ticks, stops, put, step, run,
}

-- No closed channel has been closed, and a closed channel is marked as stopped.
pub record IsSound (l : Lock) : Type 0 where
  pub calm : l.panicked ≡ false
  pub marked : l.stop_closed ≡ true → l.renew_stopped ≡ true

take-IsSound :
    (now : Time) (l : Lock) (d : Delivery) (set : Bool) → IsSound l → IsSound (take now l d set).1
unfolding take
take-IsSound now l answered true h = record { calm = h.calm; marked = λ e. cc }
take-IsSound now l answered false h = h
take-IsSound now l unsent set h = h
take-IsSound now l unheard set h = h

begin_unlock-IsSound : (l : Lock) → IsSound l → IsSound (begin_unlock l)
unfolding begin_unlock
begin_unlock-IsSound l h = ground (arith, h.calm, h.marked)

end_unlock-IsSound : (l : Lock) (d : Delivery) → IsSound l → IsSound (end_unlock l d)
unfolding end_unlock
end_unlock-IsSound l answered h = record { calm = h.calm; marked = h.marked }
end_unlock-IsSound l unsent h = record { calm = h.calm; marked = h.marked }
end_unlock-IsSound l unheard h = record { calm = h.calm; marked = h.marked }

end_renewal-IsSound :
    (l : Lock) (d : Delivery) (own : Bool) → IsSound l → IsSound (end_renewal l d own)
unfolding end_renewal
end_renewal-IsSound l answered true h = h
end_renewal-IsSound l answered false h = record { calm = h.calm; marked = h.marked }
end_renewal-IsSound l unsent own h = record { calm = h.calm; marked = h.marked }
end_renewal-IsSound l unheard own h = record { calm = h.calm; marked = h.marked }

stop_renewal-IsSound : (done : Bool) (l : Lock) → IsSound l → IsSound (stop_renewal done l)
stop_renewal-IsSound done l h = ground (arith, h.calm, h.marked)

module _ {R : Type 0} (redis : Redis R) (key : String) where
  try_lock-IsSound :
      (now : Time) (id : String) (d : Delivery) (l : Lock) (r : R)
      → IsSound l
      → IsSound (try_lock redis now key id d l r).1
  unfolding try_lock
  try_lock-IsSound now id d l r h = elim (Bool-cases l.has_client) [
    | inr alone ↦ simp (alone, try_lock) (record { calm = h.calm; marked = h.marked })
    | inl shared ↦ simp (shared, try_lock) (take-IsSound now l d _ h)
  ]

  finish_unlock-IsSound :
      (now : Time) (id : String) (d : Delivery) (l : Lock) (r : R)
      → IsSound l
      → IsSound (finish_unlock redis now key id d l r).0
  unfolding finish_unlock
  finish_unlock-IsSound now id d l r h = elim (Bool-cases l.unlocking) [
    | inr idle ↦ simp (idle, finish_unlock) h
    | inl busy ↦ simp (busy, finish_unlock) (end_unlock-IsSound l d h)
  ]

  renew-IsSound :
      (now : Time) (id : String) (d : Delivery) (l : Lock) (r : R)
      → IsSound l
      → IsSound (renew redis now key id d l r).0
  unfolding renew
  renew-IsSound now id d l r h = elim (Bool-cases (l.renewers == 0)) [
    | inl none_live ↦ simp (none_live, renew) h
    | inr live ↦ elim (Bool-cases (is_held_too_long now l)) [
      | inl long ↦
          let ended : IsSound (record l { is_held = false; renewers = l.renewers - 1 }) = record {
            calm = h.calm;
            marked = h.marked;
          } in
          simp (live, long, renew) ended
      | inr short ↦ simp (live, short, renew) (end_renewal-IsSound l d _ h)
    ]
  ]

  pub record AllSound (w : World R) : Type 0 where
    pub each : (id : String) → IsSound (w.locks id)

  put-IsSound :
      (id : String) (l : Lock) (locks : String → Lock)
      → IsSound l
      → ((j : String) → IsSound (locks j))
      → (j : String) → IsSound (put id l locks j)
  put-IsSound id l locks one all j = elim (Bool-cases (str_eq id j)) [
    | inl same ↦ rw same one
    | inr other ↦ rw other (all j)
  ]

  step-AllSound : (e : Event) (w : World R) → AllSound w → AllSound (step redis key e w)
  unfolding step
  step-AllSound (waits d) w h = record { each = h.each }
  step-AllSound (tries id d) w h = record {
    each =
        put-IsSound id _ w.locks (try_lock-IsSound w.now id d (w.locks id) w.redis (h.each id))
          h.each;
  }
  step-AllSound (begins_unlock id) w h = record {
    each = put-IsSound id _ w.locks (begin_unlock-IsSound (w.locks id) (h.each id)) h.each;
  }
  step-AllSound (finishes_unlock id d) w h = record {
    each =
        put-IsSound id _ w.locks (finish_unlock-IsSound w.now id d (w.locks id) w.redis (h.each id))
          h.each;
  }
  step-AllSound (ticks id d) w h = record {
    each =
        put-IsSound id _ w.locks (renew-IsSound w.now id d (w.locks id) w.redis (h.each id)) h.each;
  }
  step-AllSound (stops id done) w h = record {
    each = put-IsSound id _ w.locks (stop_renewal-IsSound done (w.locks id) (h.each id)) h.each;
  }

  -- Whatever happens, in any order, no instance closes its channel twice (which would panic), and a
  -- closed channel is marked as stopped.
  pub run-AllSound : (es : List Event) (w : World R) → AllSound w → AllSound (run redis key es w)
  unfolding run
  run-AllSound [] w h = h
  run-AllSound (e ∷ es) w h = run-AllSound es (step redis key e w) (step-AllSound e w h)

  -- Unlock of an instance that still has the key: when the answer comes, the key is free, the
  -- instance no longer holds the lock, and the channel tells its renewal to stop.
  pub unlock_frees :
      (laws : IsRedis redis) (now later : Time) (id : String) (l : Lock) (r : R)
      → l.has_client ≡ true
      → l.is_held ≡ true
      → l.renew_stopped ≡ false
      → redis.read now key r ≡ some id
      → now ≤ later
      → let (l', r') = unlock redis now key id answered l r in
        (redis.read later key r' ≡ none) × (l'.is_held ≡ false) × (l'.stop_closed ≡ true)
  unfolding unlock begin_unlock finish_unlock end_unlock release_script
  unlock_frees laws now later id l r client held fresh own after =
      let gone = laws.read_del now later key r after in
      simp
        (
          client,
          held,
          fresh,
          own,
          eq_refl id,
          unlock,
          begin_unlock,
          finish_unlock,
          end_unlock,
          release_script,
        )
        (gone, refl, ground arith)

  -- A renewal that finds the lock held for more than two minutes drops it, and the Unlock that
  -- follows then does nothing: the key stays in Redis, and the channel as it is.
  pub unlock_overlong :
      (now later : Time) (id : String) (d d' : Delivery) (l : Lock) (r : R)
      → (l.renewers == 0) ≡ false
      → is_held_too_long now l ≡ true
      → l.unlocking ≡ false
      → let (l', r') = renew redis now key id d l r in
        let (l'', r'') = unlock redis later key id d' l' r' in
        (r'' ≡ r) × (l''.is_held ≡ false) × (l''.stop_closed ≡ l.stop_closed)
  unfolding unlock begin_unlock finish_unlock renew
  unlock_overlong now later id d d' l r live long quiet =
      simp (live, long, quiet, renew, unlock, begin_unlock, finish_unlock) (refl, refl, refl)
