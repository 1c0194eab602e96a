-- ===== src/Images/Cache.antt =====
-- pkg/image/cache.go: the cache of validation results, in memory and in Redis. Redis, the JSON
-- codec and SHA-256 are parameters; what the code throws away of their answers is not modelled.
pub mod Refinement
pub mod RoundTrip
use Prim.Native.String.{◌++◌ as str_append}
use waverless.Base.{
  ℕ, zero, suc, ◌+◌, ◌==◌, Bool, true, false, Option, none, some, List, [], ◌∷◌, String, str_eq, ℤ,
  pos, negsuc, sub_ℕ, eqb_ℤ, ltb_ℤ, length, select, not, if◌then◌else◌, Time,
}
use waverless.Base.Dict.{StringMap, load, store, delete}

-- `interfaces.ImageValidationResult`, and the same fields as `redisCacheValue`.
pub record ImageValidationResult : Type 0 where
  pub valid : Bool
  pub exists : Bool
  pub accessible : Bool
  pub error : String
  pub warning : String
  pub checked_at : Time

pub record RedisCacheValue : Type 0 where
  pub valid : Bool
  pub exists : Bool
  pub accessible : Bool
  pub error : String
  pub warning : String
  pub checked_at : Time

-- A time to live may be negative, and a time to expire lie before the zero time.
pub record CacheItem : Type 0 where
  pub result : ImageValidationResult
  pub expires_at : ℤ

-- `has_redis` is `redisClient != nil`.
pub record ImageValidationCache : Type 0 where
  pub items : StringMap CacheItem
  pub has_redis : Bool
  pub default_ttl : ℤ

abbrev pub default_cache_duration : ℤ
default_cache_duration = pos 3600000000000

abbrev pub cache_key_prefix : String
cache_key_prefix = "image:validation:"

-- `CacheConfig.DefaultTTL`; no configuration is the default one.
unfoldable pub new_image_validation_cache_with_config : Option ℤ → ImageValidationCache
new_image_validation_cache_with_config none = record {
  items = [];
  has_redis = false;
  default_ttl = default_cache_duration;
}
new_image_validation_cache_with_config (some ttl) = record {
  items = [];
  has_redis = false;
  default_ttl = ttl;
}

unfoldable pub with_redis : ImageValidationCache → ImageValidationCache
with_redis c = record c { has_redis = true }

-- `t.Add(d)`
abbrev pub add_time : Time → ℤ → ℤ
add_time t (pos d) = pos (t + d)
add_time t (negsuc d) = sub_ℕ t (suc d)

-- `now.After(expiresAt)`
abbrev pub is_expired : Time → CacheItem → Bool
is_expired now item = ltb_ℤ item.expires_at (pos now)

-- What the memory answers for an item that may be missing.
abbrev pub fresh : Time → Option CacheItem → Option ImageValidationResult
fresh now none = none
fresh now (some item) = if is_expired now item then none else some item.result

unfoldable pub get_from_memory : ImageValidationCache → Time → String → Option ImageValidationResult
get_from_memory c now image = fresh now (load image c.items)

unfoldable pub set_in_memory :
    ImageValidationCache → Time → String → ImageValidationResult → ℤ → ImageValidationCache
set_in_memory c now image result ttl = record c {
  items = store image (record { result = result; expires_at = add_time now ttl }) c.items;
}

-- The loop of `removeExpired` over the map.
abbrev pub without_expired : Time → StringMap CacheItem → StringMap CacheItem
without_expired now = select (λ entry. not (is_expired now entry.1))

unfoldable pub remove_expired : ImageValidationCache → Time → ImageValidationCache
remove_expired c now = record c { items = without_expired now c.items }

unfoldable pub size : ImageValidationCache → ℕ
size c = length c.items

unfoldable pub has_redis : ImageValidationCache → Bool
has_redis c = c.has_redis

unfoldable pub get_config : ImageValidationCache → ℤ
get_config c = c.default_ttl

-- The Redis server, whose data is an `R`: a failed write leaves it as it was or not, a failed read
-- or a missing key is `none`. The last argument of `scan` is the cursor.
pub record Redis (R : Type 0) : Type 0 where
  pub get : R → Time → String → Option String
  pub set : R → Time → String → String → ℤ → R
  pub del : R → Time → List String → R
  pub scan : R → Time → (pattern : String) (count cursor : ℕ) → Option (List String × ℕ)

-- `encoding/json` on a `redisCacheValue`, and the hexadecimal digits of the SHA-256 of a text.
pub record Codec : Type 0 where
  pub marshal : RedisCacheValue → Option String
  pub unmarshal : String → Option RedisCacheValue
  pub sha256_hex : String → String

abbrev pub value_of : ImageValidationResult → RedisCacheValue
value_of result = record {
  valid = result.valid;
  exists = result.exists;
  accessible = result.accessible;
  error = result.error;
  warning = result.warning;
  checked_at = result.checked_at;
}

abbrev pub result_of : RedisCacheValue → ImageValidationResult
result_of cached = record {
  valid = cached.valid;
  exists = cached.exists;
  accessible = cached.accessible;
  error = cached.error;
  warning = cached.warning;
  checked_at = cached.checked_at;
}

module _ {R : Type 0} (redis : Redis R) (codec : Codec) where
  unfoldable pub generate_cache_key : String → String
  generate_cache_key image = str_append cache_key_prefix (codec.sha256_hex image)

  -- What is made of the data that was read: data that cannot be parsed is deleted.
  abbrev pub parsed : R → Time → String → Option RedisCacheValue → Option ImageValidationResult × R
  parsed r now key none = (none, redis.del r now (key ∷ []))
  parsed r now key (some cached) = (some (result_of cached), r)

  unfoldable pub read_key : R → Time → String → Option String → Option ImageValidationResult × R
  read_key r now key none = (none, r)
  read_key r now key (some data_read) = parsed r now key (codec.unmarshal data_read)

  unfoldable pub get_from_redis : R → Time → String → Option ImageValidationResult × R
  unfolding generate_cache_key read_key
  get_from_redis r now image =
      let key = generate_cache_key image in read_key r now key (redis.get r now key)

  abbrev pub or_memory :
      ImageValidationCache
      → Time
      → String
      → Option ImageValidationResult
      → Option ImageValidationResult
  or_memory c now image none = get_from_memory c now image
  or_memory c now image (some result) = some result

  unfoldable pub get : ImageValidationCache → R → Time → String → Option ImageValidationResult × R
  unfolding get_from_redis get_from_memory
  get c r now image =
      if c.has_redis
      then (or_memory c now image (get_from_redis r now image).0, (get_from_redis r now image).1)
      else (get_from_memory c now image, r)

  -- Data that cannot be marshalled is not written.
  abbrev pub write_key : R → Time → String → Option String → ℤ → R
  write_key r now key none ttl = r
  write_key r now key (some data_written) ttl = redis.set r now key data_written ttl

  unfoldable pub set_in_redis : R → Time → String → ImageValidationResult → ℤ → R
  unfolding generate_cache_key
  set_in_redis r now image result ttl =
      write_key r now (generate_cache_key image) (codec.marshal (value_of result)) ttl

  abbrev pub ttl_or_default : ImageValidationCache → ℤ → ℤ
  ttl_or_default c ttl = if eqb_ℤ ttl (pos 0) then c.default_ttl else ttl

  unfoldable pub set :
      ImageValidationCache
      → R
      → Time
      → String
      → ImageValidationResult
      → ℤ
      → ImageValidationCache × R
  unfolding set_in_redis set_in_memory
  set c r now image result ttl =
      let lasting = ttl_or_default c ttl in
      (
        set_in_memory c now image result lasting,
        if c.has_redis then set_in_redis r now image result lasting else r,
      )

  unfoldable pub remove : ImageValidationCache → R → Time → String → ImageValidationCache × R
  unfolding generate_cache_key
  remove c r now image = (
    record c { items = delete image c.items },
    if c.has_redis then redis.del r now (generate_cache_key image ∷ []) else r,
  )

  abbrev pub del_keys : R → Time → List String → R
  del_keys r now [] = r
  del_keys r now (key ∷ keys) = redis.del r now (key ∷ keys)

  -- `clearRedis`: of its scans, `in_time` are answered before the ten seconds of its context are over.
  -- A scan after them fails, as any scan that fails does, and the keys that are left stay.
  unfoldable pub clear_redis : (in_time : ℕ) → R → Time → (cursor : ℕ) → R
  clear_redis zero r now cursor = r
  clear_redis (suc in_time) r now cursor =
      elim (redis.scan r now (str_append cache_key_prefix "*") 100 cursor) [
        | none ↦ r
        | some batch ↦
            let rest = clear_redis in_time (del_keys r now batch.0) now batch.1 in
            if batch.1 == 0 then del_keys r now batch.0 else rest
      ]

  unfoldable pub clear : (in_time : ℕ) → ImageValidationCache → R → Time → ImageValidationCache × R
  unfolding clear_redis
  clear in_time c r now =
      (record c { items = [] }, if c.has_redis then clear_redis in_time r now 0 else r)
