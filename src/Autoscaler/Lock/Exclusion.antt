-- ===== src/Autoscaler/Lock/Exclusion.antt =====
-- Who has the lock, and for how long.
use waverless.Base.{
  ◌+◌, ◌≤◌, ◌<◌, ◌≡◌, ◌≢◌, ◌⊎◌, inl, inr, refl, Bool, true, false, not, none, some, List, [], ◌∷◌,
  String, str_eq, Time, All, Bool-cases, Option-cases, ltb, ◌==◌, ap, arith,
}
use waverless.Autoscaler.Lock.{
  Redis, IsRedis, Lock, Delivery, answered, unsent, unheard, acquired, try_lock, take,
  finish_unlock, release_script, renew, renew_script, lock_ttl, deliver, is_held_too_long,
}
use waverless.Autoscaler.Lock.Shared.{
  World, Event, waits, tries, begins_unlock, finishes_unlock, ticks, stops, attempt, step, run,
}

-- The event is not the second critical section of the owner's `Unlock`.
abbrev pub spares : String → Event → Bool
spares owner (finishes_unlock id d) = not (str_eq owner id)
spares owner _ = true

module _ {R : Type 0} (redis : Redis R) (laws : IsRedis redis) (key owner : String) where
  -- From now until some time the key has the owner's value.
  pub record Owns (now until : Time) (r : R) : Type 0 where
    pub reads : (t : Time) → now ≤ t → t < until → redis.read t key r ≡ some owner
    pub recent : until ≤ now + lock_ttl

  -- Redis changes to `r'` in one step, which the owner's key prevents or which prolongs its life.
  abbrev Harmless : Time → R → R → Type 0
  Harmless now r r' =
      redis.read now key r ≡ some owner → (r' ≡ r) ⊎ (r' ≡ redis.expire now key lock_ttl r)

  Harmless-Owns :
      (now until : Time) (r r' : R) → Harmless now r r' → Owns now until r → Owns now until r'
  Harmless-Owns now until r r' kept h = elim (Bool-cases (ltb now until)) [
    | inr over ↦ record { reads = λ t p q. ground arith; recent = h.recent }
    | inl yet ↦
        let mine : redis.read now key r ≡ some owner = h.reads now (omega arith) (ground arith) in
        elim (kept mine) [
          | inl same ↦ rw same h
          | inr renewed ↦ record {
            reads = λ t p q.
                rw renewed
                  (laws.read_expire now t key owner lock_ttl r mine p (omega (arith, h.recent)));
            recent = h.recent;
          }
        ]
  ]

  set-Harmless :
      (now : Time) (id : String) (r : R) → Harmless now r (redis.set_nx now key id lock_ttl r).1
  set-Harmless now id r mine = inl (ap (λ p. p.1) (laws.set_taken now key id owner lock_ttl r mine))

  release-Harmless :
      (now : Time) (id : String) (r : R)
      → str_eq owner id ≡ false
      → Harmless now r (release_script redis now key id r)
  unfolding release_script
  release-Harmless now id r other mine = inl (simp (mine, other, release_script))

  renew-Harmless :
      (now : Time) (id : String) (r : R) → Harmless now r (renew_script redis now key id r).1
  unfolding renew_script
  renew-Harmless now id r mine = elim (Bool-cases (str_eq owner id)) [
    | inl own ↦ inr (simp (mine, own, renew_script))
    | inr other ↦ inl (simp (mine, other, renew_script))
  ]

  -- What a command does is harmless, however it is delivered.
  deliver-Harmless :
      {A : Type 0} (now : Time) (d : Delivery) (default : A) (done : A × R) (r : R)
      → Harmless now r done.1
      → Harmless now r (deliver redis d default done r).1
  deliver-Harmless now answered default done r h = h
  deliver-Harmless now unheard default done r h = h
  deliver-Harmless now unsent default done r h = λ mine. inl refl

  Harmless-refl : (now : Time) (r : R) → Harmless now r r
  Harmless-refl now r mine = inl refl

  try_lock-Harmless :
      (now : Time) (id : String) (d : Delivery) (l : Lock) (r : R)
      → Harmless now r (try_lock redis now key id d l r).2
  unfolding try_lock
  try_lock-Harmless now id d l r = elim (Bool-cases l.has_client) [
    | inr alone ↦ simp (alone, try_lock) (Harmless-refl now r)
    | inl shared ↦
        simp (shared, try_lock)
          (deliver-Harmless now d false (redis.set_nx now key id lock_ttl r) r
            (set-Harmless now id r))
  ]

  finish_unlock-Harmless :
      (now : Time) (id : String) (d : Delivery) (l : Lock) (r : R)
      → str_eq owner id ≡ false
      → Harmless now r (finish_unlock redis now key id d l r).1
  unfolding finish_unlock
  finish_unlock-Harmless now id d l r other = elim (Bool-cases l.unlocking) [
    | inr idle ↦ simp (idle, finish_unlock) (Harmless-refl now r)
    | inl busy ↦
        simp (busy, finish_unlock)
          (deliver-Harmless now d tt (tt, release_script redis now key id r) r
            (release-Harmless now id r other))
  ]

  tick-Harmless :
      (now : Time) (id : String) (d : Delivery) (l : Lock) (r : R)
      → Harmless now r (renew redis now key id d l r).1
  unfolding renew
  tick-Harmless now id d l r = elim (Bool-cases (l.renewers == 0)) [
    | inl none_live ↦ simp (none_live, renew) (Harmless-refl now r)
    | inr live ↦ elim (Bool-cases (is_held_too_long now l)) [
      | inl long ↦ simp (live, long, renew) (Harmless-refl now r)
      | inr short ↦
          simp (live, short, renew)
            (deliver-Harmless now d false (renew_script redis now key id r) r
              (renew-Harmless now id r))
    ]
  ]

  abbrev pub WorldOwns : Time → World R → Type 0
  WorldOwns until w = Owns w.now until w.redis

  step-Owns :
      (until : Time) (e : Event) (w : World R)
      → spares owner e ≡ true
      → WorldOwns until w
      → WorldOwns until (step redis key e w)
  unfolding step
  step-Owns until (waits d) w s h = record {
    reads = λ t p q. h.reads t (omega (arith, p)) q;
    recent = omega (arith, h.recent);
  }
  step-Owns until (tries id d) w s h =
      Harmless-Owns w.now until w.redis _ (try_lock-Harmless w.now id d (w.locks id) w.redis) h
  step-Owns until (begins_unlock id) w s h = h
  step-Owns until (finishes_unlock id d) w s h =
      Harmless-Owns w.now until w.redis _
        (finish_unlock-Harmless w.now id d (w.locks id) w.redis (ground arith)) h
  step-Owns until (ticks id d) w s h =
      Harmless-Owns w.now until w.redis _ (tick-Harmless w.now id d (w.locks id) w.redis) h
  step-Owns until (stops id done) w s h = h

  run-Owns :
      (until : Time) (es : List Event) (w : World R)
      → All (λ e. spares owner e ≡ true) es
      → WorldOwns until w
      → WorldOwns until (run redis key es w)
  unfolding run
  run-Owns until [] w s h = h
  run-Owns until (e ∷ es) w s h =
      run-Owns until es (step redis key e w) s.1 (step-Owns until e w s.0 h)

  take-acquired :
      (now : Time) (l : Lock) (d : Delivery) (set : Bool)
      → (take now l d set).0 ≡ acquired
      → (d ≡ answered) × (set ≡ true)
  unfolding take
  take-acquired now l answered true h = (refl, refl)
  take-acquired now l answered false h = cc
  take-acquired now l unsent set h = cc
  take-acquired now l unheard set h = cc

  set-free :
      (now : Time) (id : String) (r : R)
      → (redis.set_nx now key id lock_ttl r).0 ≡ true
      → redis.read now key r ≡ none
  set-free now id r set = elim (Option-cases (redis.read now key r)) [
    | inl free ↦ free
    | inr (v, taken) ↦ let same = ap (λ p. p.0) (laws.set_taken now key id v lock_ttl r taken) in cc
  ]

  -- An instance that acquires the lock has had an answer, and found the key free.
  try_lock-acquired :
      (now : Time) (id : String) (d : Delivery) (l : Lock) (r : R)
      → l.has_client ≡ true
      → (try_lock redis now key id d l r).0 ≡ acquired
      → (d ≡ answered) × (redis.read now key r ≡ none)
  unfolding try_lock
  try_lock-acquired now id d l r client got =
      let set = (deliver redis d false (redis.set_nx now key id lock_ttl r) r).0 in
      let (heard, won) = take-acquired now l d set (simp (client, try_lock) at got) in
      (heard, set-free now id r (rw heard at won))

  acquired-Owns :
      (d : Delivery) (w : World R)
      → (w.locks owner).has_client ≡ true
      → attempt redis key owner d w ≡ acquired
      → WorldOwns (w.now + lock_ttl) (step redis key (tries owner d) w)
  unfolding step try_lock
  acquired-Owns d w client got =
      let (heard, free) = try_lock-acquired w.now owner d (w.locks owner) w.redis client got in
      let owns : Owns w.now (w.now + lock_ttl) (redis.set_nx w.now key owner lock_ttl w.redis).1 =
        record {
          reads = λ t p q. laws.read_set w.now t key owner lock_ttl w.redis free p q;
          recent = omega arith;
        } in
      simp (client, heard, try_lock) owns

  -- After an instance has acquired the lock, no instance acquires it for the time to live of the
  -- key, whatever happens in between and in whatever order, as long as the owner does not carry out
  -- its Unlock.
  pub attempt-exclusive :
      (d : Delivery) (w : World R) (es : List Event) (id : String) (d' : Delivery)
      → (w.locks owner).has_client ≡ true
      → attempt redis key owner d w ≡ acquired
      → All (λ e. spares owner e ≡ true) es
      → let w' = run redis key (tries owner d ∷ es) w in
        w'.now < w.now + lock_ttl
        → (w'.locks id).has_client ≡ true
        → attempt redis key id d' w' ≢ acquired
  unfolding run
  attempt-exclusive d w es id d' client got s soon client' won =
      let w' = run redis key (tries owner d ∷ es) w in
      let owns : WorldOwns (w.now + lock_ttl) w' =
        run-Owns (w.now + lock_ttl) es (step redis key (tries owner d) w) s
          (acquired-Owns d w client got) in
      let mine : redis.read w'.now key w'.redis ≡ some owner =
        owns.reads w'.now (omega arith) soon in
      let free = (try_lock-acquired w'.now id d' (w'.locks id) w'.redis client' won).1 in cc
