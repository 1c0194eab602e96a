-- ===== src/Base/Dict.antt =====
-- A Go map with text keys and its operations, as a list of pairs with one pair for each key.
pub mod Unique
use waverless.Base.Tests.{if◌then◌else◌, Bool-cases}
use waverless.Base.Lists.{All}
use Prim.Native.String.{String}
use mathlib.Core.Path.{◌≡◌, refl, subst}
use mathlib.Core.Logic.{inl, inr}
use mathlib.Core.Option.{Option, none, some}
use mathlib.Core.List.{List, [], ◌∷◌}
use native.Mathlib.Omega.{arith}
use text.Mathlib.Text.{◌==◌ as str_eq}
use text.Mathlib.TextEquality.{eq_iff}

abbrev pub StringMap {ℓ} : Type ℓ → Type ℓ
StringMap V = List (String × V)

module _ {ℓ} {V : Type ℓ} where
  unfoldable pub load : String → StringMap V → Option V
  load key [] = none
  load key (entry ∷ rest) =
      let later = load key rest in if str_eq entry.0 key then some entry.1 else later

  unfoldable pub store : String → V → StringMap V → StringMap V
  store key value [] = (key, value) ∷ []
  store key value (entry ∷ rest) =
      let later = entry ∷ store key value rest in
      if str_eq entry.0 key then (key, value) ∷ rest else later

  unfoldable pub delete : String → StringMap V → StringMap V
  delete key [] = []
  delete key (entry ∷ rest) =
      let later = delete key rest in if str_eq entry.0 key then later else entry ∷ later

  pub load-store :
      (key wanted : String) (value : V) (dict : StringMap V)
      → load wanted (store key value dict)
        ≡ (if str_eq key wanted then some value else load wanted dict)
  unfolding load store
  load-store key wanted value [] = refl
  load-store key wanted value (entry ∷ rest) = ground (
    arith,
    eq_iff entry.0 key,
    eq_iff entry.0 wanted,
    eq_iff key wanted,
    load-store key wanted value rest,
  )

  pub load-delete :
      (key wanted : String) (dict : StringMap V)
      → load wanted (delete key dict) ≡ (if str_eq key wanted then none else load wanted dict)
  unfolding load delete
  load-delete key wanted [] = ground arith
  load-delete key wanted (entry ∷ rest) = ground (
    arith,
    eq_iff entry.0 key,
    eq_iff entry.0 wanted,
    eq_iff key wanted,
    load-delete key wanted rest,
  )

module _ {ℓ κ} {V : Type ℓ} (P : V → Type κ) where
  -- A predicate holds of every value of a map.
  abbrev pub AllValues : StringMap V → Type κ
  AllValues = All (λ entry. P entry.1)

  pub AllValues-store :
      (key : String) (value : V) (dict : StringMap V)
      → P value
      → AllValues dict
      → AllValues (store key value dict)
  unfolding store
  AllValues-store key value [] p h = (p, tt)
  AllValues-store key value (entry ∷ rest) p h = elim (Bool-cases (str_eq entry.0 key)) [
    | inl e ↦ rw e (p, h.1)
    | inr e ↦ rw e (h.0, AllValues-store key value rest p h.1)
  ]

  pub AllValues-delete :
      (key : String) (dict : StringMap V) → AllValues dict → AllValues (delete key dict)
  unfolding delete
  AllValues-delete key [] h = tt
  AllValues-delete key (entry ∷ rest) h = elim (Bool-cases (str_eq entry.0 key)) [
    | inl e ↦ rw e (AllValues-delete key rest h.1)
    | inr e ↦ rw e (h.0, AllValues-delete key rest h.1)
  ]

  pub AllValues-load :
      (key : String) (dict : StringMap V) {value : V}
      → AllValues dict
      → load key dict ≡ some value
      → P value
  unfolding load
  AllValues-load key [] h e = cc
  AllValues-load key (entry ∷ rest) {value} h e = elim (Bool-cases (str_eq entry.0 key)) [
    | inl same ↦ let found : entry.1 ≡ value = ground arith in subst P found h.0
    | inr other ↦ AllValues-load key rest h.1 (ground arith)
  ]
