-- ===== src/Base/Real.antt =====
-- Go's `float64`. The type and its operations are parameters: no theorem rests on rounding.
use mathlib.Core.Bool.{Bool}
use waverless.Base.Machine.{ℤ, pos, quot_int, rem_int}

pub record Float64 (F : Type 0) : Type 0 where
  pub of_int : ℤ → F  -- float64(n)
  pub to_int : F → ℤ  -- int(x)
  pub ceil : F → F  -- math.Ceil
  pub add : F → F → F
  pub sub : F → F → F
  pub mul : F → F → F
  pub div : F → F → F
  pub lt : F → F → Bool  -- x < y
  pub le : F → F → Bool  -- x <= y

module _ {F : Type 0} (fl : Float64 F) where
  -- `Duration.Seconds` of Go's time package.
  unfoldable pub seconds : ℤ → F
  unfolding quot_int rem_int
  seconds d =
      fl.add (fl.of_int (quot_int d 1000000000))
        (fl.div (fl.of_int (rem_int d 1000000000)) (fl.of_int (pos 1000000000)))
