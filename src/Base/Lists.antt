-- ===== src/Base/Lists.antt =====
-- Lists measured by native numbers, and the predicates on lists that the components share.
use Prim.Native.Nat.{ℕ, suc, ◌+◌, ◌≤◌}
use mathlib.Core.Path.{◌≡◌, refl, sym, subst}
use mathlib.Core.Option.{Option, none, some}
use mathlib.Core.Bool.{Bool, true}
use mathlib.Core.Logic.{inl, inr}
use mathlib.Core.List.{List, [], ◌∷◌, ◌++◌, Memᴰ}
use native.Mathlib.Omega.{arith}
use waverless.Base.Tests.{if◌then◌else◌, Bool-cases}

module _ {ℓ} {A : Type ℓ} where
  abbrev pub length : List A → ℕ
  length [] = 0
  length (x ∷ xs) = suc (length xs)

  -- A predicate holds of every item.
  abbrev pub All {κ} : (A → Type κ) → List A → Type κ
  All P [] = Unit
  All P (x ∷ xs) = P x × All P xs

  -- A relation holds of the items at each position, and there are as many of them.
  abbrev pub Pointwise : (A → A → Type 0) → List A → List A → Type 0
  Pointwise R [] [] = Unit
  Pointwise R (x ∷ xs) (y ∷ ys) = R x y × Pointwise R xs ys
  Pointwise R _ _ = ⊥

  -- The items that pass a Boolean test, in order.
  abbrev pub select : (A → Bool) → List A → List A
  select p [] = []
  select p (x ∷ xs) = let rest = select p xs in if p x then x ∷ rest else rest

  -- The sum of a measure.
  abbrev pub total : (A → ℕ) → List A → ℕ
  total f [] = 0
  total f (x ∷ xs) = f x + total f xs

module _ {ℓ} {A : Type ℓ} where
  pub length-append : (xs ys : List A) → length (xs ++ ys) ≡ length xs + length ys
  length-append [] ys = omega arith
  length-append (x ∷ xs) ys = omega (arith, length-append xs ys)

  pub total-append : (f : A → ℕ) (xs ys : List A) → total f (xs ++ ys) ≡ total f xs + total f ys
  total-append f [] ys = omega arith
  total-append f (x ∷ xs) ys = omega (arith, total-append f xs ys)

  pub All-append {κ} : (P : A → Type κ) (xs ys : List A) → All P xs → All P ys → All P (xs ++ ys)
  All-append P [] ys hx hy = hy
  All-append P (x ∷ xs) ys hx hy = (hx.0, All-append P xs ys hx.1 hy)

  pub All-map {κ μ} :
      (P : A → Type κ) (Q : A → Type μ) (xs : List A) → ((x : A) → P x → Q x) → All P xs → All Q xs
  All-map P Q [] f h = tt
  All-map P Q (x ∷ xs) f h = (f x h.0, All-map P Q xs f h.1)

-- A result that may be absent, put in front.
abbrev pub keep {ℓ} : {A : Type ℓ} → Option A → List A → List A
keep none xs = xs
keep (some x) xs = x ∷ xs

module _ {ℓ κ} {A : Type ℓ} {B : Type κ} (f : A → Option B) where
  -- The results that are there, in order: a loop that appends what is not nil.
  abbrev pub gather : List A → List B
  gather [] = []
  gather (x ∷ xs) = keep (f x) (gather xs)

module _ {ℓ κ μ} {A : Type ℓ} {B : Type κ} (P : B → Type μ) (f : A → Option B) where
  pub All-keep :
      (o : Option B) (ys : List B) → ((y : B) → o ≡ some y → P y) → All P ys → All P (keep o ys)
  All-keep none ys h all = all
  All-keep (some y) ys h all = (h y refl, all)

  pub All-gather :
      (xs : List A) → ((x : A) → Memᴰ x xs → (y : B) → f x ≡ some y → P y) → All P (gather f xs)
  All-gather [] h = tt
  All-gather (x ∷ xs) h =
      All-keep (f x) (gather f xs) (h x (Memᴰ.head refl)) (All-gather xs (λ z m. h z (Memᴰ.tail m)))

module _ {ℓ κ} {A : Type ℓ} (P : A → Type κ) where
  pub All-mem : {x : A} (xs : List A) → All P xs → Memᴰ x xs → P x
  All-mem [] h m = elim m [ ]
  All-mem (y ∷ ys) h (Memᴰ.head e) = subst P (sym e) h.0
  All-mem (y ∷ ys) h (Memᴰ.tail m) = All-mem ys h.1 m

module _ {ℓ} {A : Type ℓ} (p : A → Bool) where
  pub length-select-le : (xs : List A) → length (select p xs) ≤ length xs
  length-select-le [] = omega arith
  length-select-le (x ∷ xs) = ground (arith, length-select-le xs)

  -- Only the items that pass are selected, and every item passes if none is lost.
  pub All-select : (xs : List A) → All (λ x. p x ≡ true) (select p xs)
  All-select [] = tt
  All-select (x ∷ xs) = elim (Bool-cases (p x)) [
    | inl e ↦ rw e (e, All-select xs)
    | inr e ↦ rw e (All-select xs)
  ]

  pub All-length-select :
      (xs : List A) → length (select p xs) ≡ length xs → All (λ x. p x ≡ true) xs
  All-length-select [] h = tt
  All-length-select (x ∷ xs) h = elim (Bool-cases (p x)) [
    | inl e ↦ (e, All-length-select xs (ground arith))
    | inr e ↦ absurd (ground (arith, length-select-le xs))
  ]

module _ {ℓ κ} {A : Type ℓ} (P : A → Type κ) (p : A → Bool) where
  pub All-select_of : (xs : List A) → All P xs → All P (select p xs)
  All-select_of [] h = tt
  All-select_of (x ∷ xs) h = elim (Bool-cases (p x)) [
    | inl e ↦ rw e (h.0, All-select_of xs h.1)
    | inr e ↦ rw e (All-select_of xs h.1)
  ]
