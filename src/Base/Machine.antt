-- ===== src/Base/Machine.antt =====
-- Go's `int` and `int64`: integers in two's complement at 64 bits, with the wrap-around written
-- out. The integers are those of the library, over the native numbers.
use Prim.Native.Nat.{ℕ, suc, ◌+◌, ◌-◌, ◌*◌, ◌/◌, ◌%◌, ◌≤◌, ◌<◌, ◌^◌}
use mathlib.Core.Path.{◌≡◌}
use mathlib.Core.Bool.{Bool}
use native.Mathlib.Omega.{arith}
use waverless.Base.Tests.{ltb, leb, ◌==◌, if◌then◌else◌}

-- `negsuc n` is -(n + 1).
pub data ℤ : Type 0 where
  pos : ℕ → ℤ
  negsuc : ℕ → ℤ

abbrev pub pos_part : ℤ → ℕ
pos_part (pos n) = n
pos_part (negsuc n) = 0

abbrev pub neg_part : ℤ → ℕ
neg_part (pos n) = 0
neg_part (negsuc n) = suc n

-- a - b, as an integer.
abbrev pub sub_ℕ : ℕ → ℕ → ℤ
sub_ℕ a b = if leb b a then pos (a - b) else negsuc (b - a - 1)

infix 50 ◌≤ℤ◌ ◌<ℤ◌
abbrev pub ◌≤ℤ◌ : ℤ → ℤ → Type 0
a ≤ℤ b = pos_part a + neg_part b ≤ pos_part b + neg_part a

abbrev pub ◌<ℤ◌ : ℤ → ℤ → Type 0
a <ℤ b = pos_part a + neg_part b < pos_part b + neg_part a

abbrev pub ltb_ℤ : ℤ → ℤ → Bool
ltb_ℤ a b = ltb (pos_part a + neg_part b) (pos_part b + neg_part a)

abbrev pub leb_ℤ : ℤ → ℤ → Bool
leb_ℤ a b = leb (pos_part a + neg_part b) (pos_part b + neg_part a)

abbrev pub eqb_ℤ : ℤ → ℤ → Bool
eqb_ℤ a b = pos_part a + neg_part b == pos_part b + neg_part a

abbrev pub modulus : ℕ
modulus = 2 ^ 64

-- The value in [-2^63, 2^63) that agrees modulo 2^64.
unfoldable pub wrap : ℤ → ℤ
wrap a =
    let r = (pos_part a + (modulus - neg_part a % modulus)) % modulus in
    if ltb r (2 ^ 63) then pos r else negsuc (modulus - 1 - r)

unfoldable pub add_int : ℤ → ℤ → ℤ
add_int a b = wrap (sub_ℕ (pos_part a + pos_part b) (neg_part a + neg_part b))

unfoldable pub sub_int : ℤ → ℤ → ℤ
sub_int a b = wrap (sub_ℕ (pos_part a + neg_part b) (neg_part a + pos_part b))

unfoldable pub mul_int : ℤ → ℤ → ℤ
mul_int a b = wrap (
    sub_ℕ (pos_part a * pos_part b + neg_part a * neg_part b)
      (pos_part a * neg_part b + neg_part a * pos_part b))

-- Go's `/` and `%` truncate towards zero. The divisors of the program are positive constants.
unfoldable pub quot_int : ℤ → ℕ → ℤ
quot_int a d = sub_ℕ (pos_part a / d) (neg_part a / d)

unfoldable pub rem_int : ℤ → ℕ → ℤ
rem_int a d = sub_ℕ (pos_part a % d) (neg_part a % d)

-- A value of Go's `int`.
abbrev pub IsInt : ℤ → Type 0
IsInt a = (pos_part a < 2 ^ 63) × (neg_part a ≤ 2 ^ 63)

-- A value so far from the bounds that the sum of two cannot wrap.
abbrev pub IsSmall : ℤ → Type 0
IsSmall a = (pos_part a < 2 ^ 62) × (neg_part a < 2 ^ 62)

pub eq_of_parts : (a b : ℤ) → pos_part a + neg_part b ≡ pos_part b + neg_part a → a ≡ b
eq_of_parts a b h = ground arith

pub wrap_of_IsInt : (a : ℤ) → IsInt a → wrap a ≡ a
unfolding wrap
wrap_of_IsInt a h = ground arith

pub wrap-IsInt : (a : ℤ) → IsInt (wrap a)
unfolding wrap
wrap-IsInt a = ground arith

pub add_int-parts :
    (a b : ℤ)
    → IsSmall a
    → IsSmall b
    → pos_part (add_int a b) + neg_part a + neg_part b
      ≡ neg_part (add_int a b) + pos_part a + pos_part b
unfolding add_int wrap
add_int-parts a b ha hb = ground arith

pub sub_int-parts :
    (a b : ℤ)
    → IsSmall a
    → IsSmall b
    → pos_part (sub_int a b) + neg_part a + pos_part b
      ≡ neg_part (sub_int a b) + pos_part a + neg_part b
unfolding sub_int wrap
sub_int-parts a b ha hb = ground arith

-- Wrap-around loses nothing: what was added can be taken off again.
pub sub_int-add_int : (a b : ℤ) → IsInt a → IsInt b → sub_int (add_int a b) b ≡ a
unfolding sub_int add_int wrap
sub_int-add_int a b ha hb = ground arith

pub ruleset int_laws = (arith, add_int-parts, sub_int-parts, eq_of_parts)
