-- ===== src/Images/Cache/RoundTrip.antt =====
-- pkg/image/cache.go with Redis: what is read back.
use waverless.Base.{
  ◌≡◌, ◌∙◌, refl, true, false, none, some, String, ℤ, pos, ltb_ℤ, ◌⊎◌, inl, inr, Bool-cases,
  Option-cases, Time,
}
use waverless.Base.Dict.{load-store}
use waverless.Images.Cache.{
  ImageValidationResult, ImageValidationCache, Redis, Codec, add_time, value_of, set_in_memory,
  get_from_memory, generate_cache_key, read_key, get_from_redis, get, set_in_redis, ttl_or_default,
  set,
}
use text.Mathlib.TextPositions.{eq_refl}

module _ {R : Type 0} (redis : Redis R) (codec : Codec) where
  -- The memory answers what was set, until it expires.
  get_from_memory-set_in_memory :
      (c : ImageValidationCache) (now later : Time) (image : String)
      (result : ImageValidationResult) (ttl : ℤ)
      → ltb_ℤ (add_time now ttl) (pos later) ≡ false
      → get_from_memory (set_in_memory c now image result ttl) later image ≡ some result
  unfolding get_from_memory set_in_memory
  get_from_memory-set_in_memory c now later image result ttl early =
      rw (load-store, eq_refl) (rw early refl)

  module _ (c : ImageValidationCache) (r : R) (now : Time) (image : String) where
    get_off : c.has_redis ≡ false → (get redis codec c r now image).0 ≡ get_from_memory c now image
    unfolding get
    get_off off = rw off refl

    get_missing :
        redis.get r now (generate_cache_key redis codec image) ≡ none
        → (get redis codec c r now image).0 ≡ get_from_memory c now image
    unfolding get get_from_redis read_key
    get_missing gone = elim (Bool-cases c.has_redis) [
      | inl on ↦ rw (on, gone) refl
      | inr off ↦ rw off refl
    ]

    get_held :
        (data_read : String) (result : ImageValidationResult)
        → c.has_redis ≡ true
        → redis.get r now (generate_cache_key redis codec image) ≡ some data_read
        → codec.unmarshal data_read ≡ some (value_of result)
        → (get redis codec c r now image).0 ≡ some result
    unfolding get get_from_redis read_key
    get_held data_read result on held unmarshals = rw (on, held, unmarshals) refl

  -- What was set is read back until its time to live is over, with Redis or without: where the
  -- value can be written as JSON and read again, and where Redis gives the data that was written
  -- last or nothing, Get answers the result of the last Set.
  pub get-set :
      (c : ImageValidationCache) (r : R) (now later : Time) (image data_written : String)
      (result : ImageValidationResult) (ttl : ℤ)
      → ltb_ℤ (add_time now (ttl_or_default redis codec c ttl)) (pos later) ≡ false
      → codec.marshal (value_of result) ≡ some data_written
      → codec.unmarshal data_written ≡ some (value_of result)
      → let key = generate_cache_key redis codec image in
        let written = redis.set r now key data_written (ttl_or_default redis codec c ttl) in
        (redis.get written later key ≡ none) ⊎ (redis.get written later key ≡ some data_written)
        → let (c', r') = set redis codec c r now image result ttl in
          (get redis codec c' r' later image).0 ≡ some result
  unfolding set set_in_redis set_in_memory
  get-set c r now later image data_written result ttl early marshals unmarshals answers =
      let lasting = ttl_or_default redis codec c ttl in
      let c' = set_in_memory c now image result lasting in
      let held = get_from_memory-set_in_memory c now later image result lasting early in
      elim (Bool-cases c.has_redis) [
        | inr off ↦ get_off c' _ later image off ∙ held
        | inl on ↦ elim answers [
          | inl gone ↦ get_missing c' _ later image (rw (on, marshals) gone) ∙ held
          | inr kept ↦
              get_held c' _ later image data_written result on (rw (on, marshals) kept) unmarshals
        ]
      ]

  set_in_redis-refused :
      (r : R) (now : Time) (image : String) (result : ImageValidationResult) (ttl : ℤ)
      → ((key d : String) (t : ℤ) → redis.set r now key d t ≡ r)
      → set_in_redis redis codec r now image result ttl ≡ r
  unfolding set_in_redis
  set_in_redis-refused r now image result ttl refuses =
      elim (Option-cases (codec.marshal (value_of result))) [
        | inl failed ↦ rw failed refl
        | inr (d, e) ↦ rw e (refuses (generate_cache_key redis codec image) d ttl)
      ]

  -- A Set that Redis refuses leaves the old entry in front: where Redis holds the data of an
  -- older result for the image and the write changes nothing, Get answers the older result,
  -- although the memory has the new one.
  pub get-set_refused :
      (c : ImageValidationCache) (r : R) (now later : Time) (image data_old : String)
      (result older : ImageValidationResult) (ttl : ℤ)
      → c.has_redis ≡ true
      → redis.get r later (generate_cache_key redis codec image) ≡ some data_old
      → codec.unmarshal data_old ≡ some (value_of older)
      → ((key d : String) (t : ℤ) → redis.set r now key d t ≡ r)
      → let (c', r') = set redis codec c r now image result ttl in
        (get redis codec c' r' later image).0 ≡ some older
  unfolding set set_in_redis set_in_memory
  get-set_refused c r now later image data_old result older ttl on held unmarshals refuses =
      get_held (set redis codec c r now image result ttl).0 _ later image data_old older on
        (rw (on, set_in_redis-refused r now image result (ttl_or_default redis codec c ttl) refuses)
          held)
        unmarshals
