-- ===== src/Images/Cache/Refinement.antt =====
-- pkg/image/cache.go without Redis, against what its callers may rely on: an answer for each image
-- and each time, without the map, its items and its clean-ups.
use mathlib.Core.Path.{ap₂}
use waverless.Base.{
  ℕ, ◌≤◌, ◌≡◌, refl, ap, sym, ◌∙◌, false, not, Option, none, some, List, [], ◌∷◌, String, str_eq, ℤ,
  pos, eqb_ℤ, ltb_ℤ, All, if◌then◌else◌, Time, arith,
}
use waverless.Base.Dict.{load, load-store, load-delete}
use waverless.Base.Dict.Unique.{
  IsMap, passing, IsMap-store, IsMap-delete, IsMap-select, load-select,
}
use waverless.Images.Cache.{
  ImageValidationResult, CacheItem, ImageValidationCache, Redis, Codec, add_time, is_expired, fresh,
  set_in_memory, get_from_memory, remove_expired, get, set, remove, clear,
}

-- A call of the cache that changes it.
pub data Call : Type 0 where
  sets : String → ImageValidationResult → ℤ → Call
  deletes : String → Call
  clears cleans : Call

module _ {R : Type 0} (redis : Redis R) (codec : Codec) where
  unfoldable pub step :
      (in_time : ℕ) → ImageValidationCache × R → Time × Call → ImageValidationCache × R
  unfolding set remove clear remove_expired
  step in_time s (now, sets image result ttl) = set redis codec s.0 s.1 now image result ttl
  step in_time s (now, deletes image) = remove redis codec s.0 s.1 now image
  step in_time s (now, clears) = clear redis codec in_time s.0 s.1 now
  step in_time s (now, cleans) = (remove_expired s.0 now, s.1)

  unfoldable pub run :
      (in_time : ℕ) → List (Time × Call) → ImageValidationCache × R → ImageValidationCache × R
  unfolding step
  run in_time [] s = s
  run in_time (call ∷ calls) s = run in_time calls (step in_time s call)

-- What is promised about the image `wanted` at the time `later`: the answer after a call, from the
-- answer before it. A clean-up changes no answer.
abbrev pub promised :
    (default_ttl : ℤ) (later : Time) (wanted : String)
    → Time × Call
    → Option ImageValidationResult
    → Option ImageValidationResult
promised default_ttl later wanted (now, sets image result ttl) before =
    if str_eq image wanted
    then (if ltb_ℤ (add_time now (if eqb_ℤ ttl (pos 0) then default_ttl else ttl)) (pos later)
        then none
        else some result)
    else before
promised default_ttl later wanted (now, deletes image) before =
    if str_eq image wanted then none else before
promised default_ttl later wanted (now, clears) before = none
promised default_ttl later wanted (now, cleans) before = before

abbrev pub replay :
    (default_ttl : ℤ) (later : Time) (wanted : String)
    → List (Time × Call)
    → Option ImageValidationResult
    → Option ImageValidationResult
replay default_ttl later wanted [] before = before
replay default_ttl later wanted (call ∷ calls) before =
    replay default_ttl later wanted calls (promised default_ttl later wanted call before)

-- An item that a clean-up drops would not be answered at any later time either.
fresh-passing :
    (now later : Time) (found : Option CacheItem)
    → now ≤ later
    → fresh later (passing (λ item. not (is_expired now item)) found) ≡ fresh later found
fresh-passing now later none le = refl
fresh-passing now later (some item) le = ground arith

module _ {R : Type 0} (redis : Redis R) (codec : Codec) where
  get_without_redis :
      (s : ImageValidationCache × R) (later : Time) (wanted : String)
      → s.0.has_redis ≡ false
      → (get redis codec s.0 s.1 later wanted).0 ≡ get_from_memory s.0 later wanted
  unfolding get
  get_without_redis s later wanted off = rw off refl

  -- The memory keeps its promise over one call, and the cache stays without Redis.
  pub step_refines :
      (in_time : ℕ) (s : ImageValidationCache × R) (call : Time × Call) (later : Time)
      (wanted : String)
      → s.0.has_redis ≡ false
      → IsMap s.0.items
      → call.0 ≤ later
      → let s' = step redis codec in_time s call in
        (s'.0.has_redis ≡ false)
        × (s'.0.default_ttl ≡ s.0.default_ttl)
        × IsMap s'.0.items
        × (get_from_memory s'.0 later wanted
            ≡ promised s.0.default_ttl later wanted call (get_from_memory s.0 later wanted))
  unfolding step set remove clear remove_expired get_from_memory set_in_memory load
  step_refines in_time s (now, sets image result ttl) later wanted off is_map le =
      (off, refl, IsMap-store image _ s.0.items is_map, rw load-store (ground arith))
  step_refines in_time s (now, deletes image) later wanted off is_map le =
      (off, refl, IsMap-delete image s.0.items is_map, rw load-delete (ground arith))
  step_refines in_time s (now, clears) later wanted off is_map le = (off, refl, tt, refl)
  step_refines in_time s (now, cleans) later wanted off is_map le = (
    off,
    refl,
    IsMap-select (λ item. not (is_expired now item)) s.0.items is_map,
    rw (load-select (λ item. not (is_expired now item)) wanted s.0.items is_map)
        (fresh-passing now later (load wanted s.0.items) le),
  )

  -- Without Redis, whatever calls of Set, Delete, Clear and removeExpired are made by the time
  -- `later`, what Get then answers about an image at `later` is what the calls promise from what it
  -- answered before them.
  pub run_refines :
      (in_time : ℕ) (calls : List (Time × Call)) (s : ImageValidationCache × R) (later : Time)
      (wanted : String)
      → s.0.has_redis ≡ false
      → IsMap s.0.items
      → All (λ call. call.0 ≤ later) calls
      → let s' = run redis codec in_time calls s in
        (get redis codec s'.0 s'.1 later wanted).0
        ≡ replay s.0.default_ttl later wanted calls (get redis codec s.0 s.1 later wanted).0
  unfolding run get
  run_refines in_time [] s later wanted off is_map le = refl
  run_refines in_time (call ∷ calls) s later wanted off is_map le =
      let next = step redis codec in_time s call in
      let (off', same, is_map', kept) = step_refines in_time s call later wanted off is_map le.0 in
      let kept' = run_refines in_time calls next later wanted off' is_map' le.1 in
      let answer =
        get_without_redis next later wanted off'
        ∙ kept
        ∙ ap (promised s.0.default_ttl later wanted call)
            (sym (get_without_redis s later wanted off)) in
      kept' ∙ ap₂ (λ ttl o. replay ttl later wanted calls o) same answer
