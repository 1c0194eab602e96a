-- ===== src/Base/Dict/Unique.antt =====
-- Maps with one pair for each key, as the operations build them.
use waverless.Base.Tests.{if◌then◌else◌, Bool-cases}
use waverless.Base.Lists.{select}
use waverless.Base.Dict.{StringMap, load, store, delete, load-store, load-delete}
use Prim.Native.String.{String}
use mathlib.Core.Path.{◌≡◌, refl}
use mathlib.Core.Logic.{inl, inr}
use mathlib.Core.Bool.{Bool}
use mathlib.Core.Option.{Option, none, some}
use mathlib.Core.List.{[], ◌∷◌}
use native.Mathlib.Omega.{arith}
use text.Mathlib.Text.{◌==◌ as str_eq}
use text.Mathlib.TextEquality.{eq_iff}

module _ {ℓ} {V : Type ℓ} where
  -- No key stands twice.
  abbrev pub IsMap : StringMap V → Type ℓ
  IsMap [] = Unit
  IsMap (entry ∷ rest) = (load entry.0 rest ≡ none) × IsMap rest

  -- A value that may be missing and passes a test.
  abbrev pub passing : (V → Bool) → Option V → Option V
  passing p none = none
  passing p (some value) = if p value then some value else none

  pub IsMap-store :
      (key : String) (value : V) (dict : StringMap V) → IsMap dict → IsMap (store key value dict)
  unfolding store load
  IsMap-store key value [] h = (refl, tt)
  IsMap-store key value (entry ∷ rest) h = elim (Bool-cases (str_eq entry.0 key)) [
    | inl e ↦ rw e (ground (arith, eq_iff entry.0 key, h.0), h.1)
    | inr e ↦ rw e (
      ground
          (arith, eq_iff entry.0 key, eq_iff key entry.0, load-store key entry.0 value rest, h.0),
      IsMap-store key value rest h.1,
    )
  ]

  pub IsMap-delete : (key : String) (dict : StringMap V) → IsMap dict → IsMap (delete key dict)
  unfolding delete
  IsMap-delete key [] h = tt
  IsMap-delete key (entry ∷ rest) h = elim (Bool-cases (str_eq entry.0 key)) [
    | inl e ↦ rw e (IsMap-delete key rest h.1)
    | inr e ↦ rw e (ground (arith, load-delete key entry.0 rest), IsMap-delete key rest h.1)
  ]

  module _ (p : V → Bool) where
    pub load-select :
        (key : String) (dict : StringMap V)
        → IsMap dict
        → load key (select (λ entry. p entry.1) dict) ≡ passing p (load key dict)
    unfolding load
    load-select key [] h = refl
    load-select key (entry ∷ rest) h = elim (Bool-cases (p entry.1)) [
      | inl e ↦ rw e (ground (arith, e, load-select key rest h.1))
      | inr e ↦ rw e (ground (arith, e, eq_iff entry.0 key, h.0, load-select key rest h.1))
    ]

    pub IsMap-select : (dict : StringMap V) → IsMap dict → IsMap (select (λ entry. p entry.1) dict)
    IsMap-select [] h = tt
    IsMap-select (entry ∷ rest) h = elim (Bool-cases (p entry.1)) [
      | inl e ↦ rw e (cc (load-select entry.0 rest h.1), IsMap-select rest h.1)
      | inr e ↦ rw e (IsMap-select rest h.1)
    ]
