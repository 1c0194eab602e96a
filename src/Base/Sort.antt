-- ===== src/Base/Sort.antt =====
-- `sort.Slice`, as the insertion sort that Go runs on a short slice. On a longer slice Go may leave
-- the items that `less` does not order in another order.
use waverless.Base.Tests.{if◌then◌else◌}
use waverless.Base.Lists.{All, total}
use Prim.Native.Nat.{ℕ, ◌+◌}
use mathlib.Core.Path.{◌≡◌, refl}
use mathlib.Core.Logic.{inl, inr}
use mathlib.Core.Bool.{Bool, true, false}
use mathlib.Core.List.{List, [], ◌∷◌, Perm}
use mathlib.Core.List.Perm
use native.Mathlib.Omega.{arith}
use waverless.Base.Tests.{Bool-cases}

module _ {ℓ} {A : Type ℓ} (less : A → A → Bool) where
  -- `x` moves left past each item that it is less than; here it enters from the left.
  unfoldable pub insert : A → List A → List A
  insert x [] = x ∷ []
  insert x (y ∷ ys) = let rest = y ∷ insert x ys in if less y x then rest else x ∷ y ∷ ys

  unfoldable pub sort : List A → List A
  unfolding insert
  sort [] = []
  sort (x ∷ xs) = insert x (sort xs)

  pub insert-perm : (x : A) (xs : List A) → Perm (insert x xs) (x ∷ xs)
  unfolding insert
  insert-perm x [] = Perm.rfl
  insert-perm x (y ∷ ys) = elim (Bool-cases (less y x)) [
    | inl e ↦ rw e (Perm.trans (Perm.cons y (insert-perm x ys)) (Perm.swap x y ys))
    | inr e ↦ rw e Perm.rfl
  ]

  pub sort-perm : (xs : List A) → Perm (sort xs) xs
  unfolding sort
  sort-perm [] = Perm.rfl
  sort-perm (x ∷ xs) = Perm.trans (insert-perm x (sort xs)) (Perm.cons x (sort-perm xs))

  -- Sorting keeps every sum over the items.
  total-insert : (f : A → ℕ) (x : A) (xs : List A) → total f (insert x xs) ≡ f x + total f xs
  unfolding insert
  total-insert f x [] = refl
  total-insert f x (y ∷ ys) = ground (arith, total-insert f x ys)

  pub total-sort : (f : A → ℕ) (xs : List A) → total f (sort xs) ≡ total f xs
  unfolding sort
  total-sort f [] = refl
  total-sort f (x ∷ xs) = omega (arith, total-insert f x (sort xs), total-sort f xs)

  All-insert {κ} : (P : A → Type κ) (x : A) (xs : List A) → P x → All P xs → All P (insert x xs)
  unfolding insert
  All-insert P x [] p h = (p, tt)
  All-insert P x (y ∷ ys) p h = elim (Bool-cases (less y x)) [
    | inl e ↦ rw e (h.0, All-insert P x ys p h.1)
    | inr e ↦ rw e (p, h)
  ]

  pub All-sort {κ} : (P : A → Type κ) (xs : List A) → All P xs → All P (sort xs)
  unfolding sort
  All-sort P [] h = tt
  All-sort P (x ∷ xs) h = All-insert P x (sort xs) h.0 (All-sort P xs h.1)

module _ {ℓ} {A : Type ℓ} (less : A → A → Bool) where
  -- No item stands directly before one that is less.
  abbrev pub IsSorted : List A → Type 0
  IsSorted [] = Unit
  IsSorted (x ∷ []) = Unit
  IsSorted (x ∷ y ∷ l) = (less y x ≡ false) × IsSorted (y ∷ l)

module _ {ℓ} {A : Type ℓ} (less : A → A → Bool)
    (asym : (a b : A) → less a b ≡ true → less b a ≡ false) where
  insert-IsSorted : (x : A) (ys : List A) → IsSorted less ys → IsSorted less (insert less x ys)
  unfolding insert
  insert-IsSorted x [] s = tt
  insert-IsSorted x (y ∷ []) s = elim (Bool-cases (less y x)) [
    | inl e ↦ rw e (asym y x e, tt)
    | inr e ↦ rw e (e, tt)
  ]
  insert-IsSorted x (y ∷ z ∷ l) s = elim (Bool-cases (less y x)) [
    | inr e ↦ rw e (e, s)
    | inl e ↦
        let ih = insert-IsSorted x (z ∷ l) s.1 in
        elim (Bool-cases (less z x)) [
          | inl f ↦ rw e (rw f (s.0, (rw f at ih)))
          | inr f ↦ rw e (rw f (asym y x e, (rw f at ih)))
        ]
  ]

  pub sort-IsSorted : (xs : List A) → IsSorted less (sort less xs)
  unfolding sort
  sort-IsSorted [] = tt
  sort-IsSorted (x ∷ xs) = insert-IsSorted x (sort less xs) (sort-IsSorted xs)
