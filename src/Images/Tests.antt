-- ===== src/Images/Tests.antt =====
-- The theorems on the cache of image validations at concrete inputs. The Redis of the tests keeps
-- its last write, and answers it for every key.
use waverless.Base.{
  ℕ, ◌≡◌, refl, true, false, Option, none, some, List, [], ◌∷◌, String, pos, inr, arith,
}
use waverless.Images.Cache.{
  ImageValidationResult, ImageValidationCache, Redis, Codec, value_of, get, set,
}
use waverless.Images.Cache.Refinement.{Call, sets, deletes, cleans, run, replay, run_refines}
use waverless.Images.Cache.RoundTrip.{get-set}

abbrev found : ImageValidationResult
found = record {
  valid = true;
  exists = true;
  accessible = true;
  error = "";
  warning = "";
  checked_at = 5;
}

abbrev missing : ImageValidationResult
missing = record {
  valid = true;
  exists = false;
  accessible = false;
  error = "no such image";
  warning = "";
  checked_at = 5;
}

-- One value of the cache has a text, and one text is read.
abbrev one_value : Codec
one_value = record {
  marshal = λ v. some "found";
  unmarshal = λ s. some (value_of found);
  sha256_hex = λ s. s;
}

abbrev last_write : Redis (Option String)
last_write = record {
  get = λ r now key. r;
  set = λ r now key value ttl. some value;
  del = λ r now keys. none;
  scan = λ r now pattern count cursor. some ("a" ∷ [], 0);
}

abbrev refusing : Redis (Option String)
refusing = record {
  get = λ r now key. r;
  set = λ r now key value ttl. r;
  del = λ r now keys. r;
  scan = λ r now pattern count cursor. none;
}

abbrev in_memory : ImageValidationCache
in_memory = record { items = []; has_redis = false; default_ttl = pos 100 }

abbrev with_server : ImageValidationCache
with_server = record { items = []; has_redis = true; default_ttl = pos 100 }

abbrev morning : List (ℕ × Call)
morning =
    (10, sets "a" found (pos 0))
    ∷ (20, sets "b" missing (pos 30))
    ∷ (40, deletes "a")
    ∷ (60, cleans)
    ∷ []

-- The short-lived result is gone after the clean-up, and the deleted one before.
run_refines_example :
    let s' = run last_write one_value 0 morning (in_memory, none) in
    (get last_write one_value s'.0 s'.1 90 "a").0
    ≡ replay (pos 100) 90 "a" morning (get last_write one_value in_memory none 90 "a").0
run_refines_example =
    run_refines last_write one_value 0 morning (in_memory, none) 90 "a" refl tt
      (omega arith, (omega arith, (omega arith, (omega arith, tt))))

get-set_example :
    let (c', r') = set last_write one_value with_server none 10 "a" found (pos 0) in
    (get last_write one_value c' r' 110 "a").0 ≡ some found
get-set_example =
    get-set last_write one_value with_server none 10 110 "a" "found" found (pos 0) refl refl refl
      (inr refl)

short_lived_is_dropped : replay (pos 100) 90 "b" morning none ≡ none
short_lived_is_dropped = refl
