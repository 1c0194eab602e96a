-- ===== src/Base/Clock.antt =====
-- Go's `time.Time` and `time.Duration`. A time is the nanoseconds since the zero time, and a
-- duration is an `int64` of nanoseconds.
use Prim.Native.Nat.{ℕ, ◌-◌, ◌^◌}
use mathlib.Core.Bool.{Bool}
use waverless.Base.Tests.{ltb, ◌==◌, if◌then◌else◌}
use waverless.Base.Machine.{ℤ, pos, negsuc, sub_ℕ, mul_int}

abbrev pub Time : Type 0
Time = ℕ

abbrev pub is_zero : Time → Bool
is_zero t = t == 0

-- A difference of times beyond the `int64` range sticks at its ends.
abbrev pub saturate : ℤ → ℤ
saturate (pos n) = if ltb n (2 ^ 63) then pos n else pos (2 ^ 63 - 1)
saturate (negsuc n) = if ltb n (2 ^ 63) then negsuc n else negsuc (2 ^ 63 - 1)

-- `time.Since(t)`, where `now` is what the clock shows.
unfoldable pub since : Time → Time → ℤ
since now t = saturate (sub_ℕ now t)

-- `time.Duration(n) * time.Second`
unfoldable pub of_seconds : ℤ → ℤ
of_seconds n = mul_int n (pos 1000000000)
