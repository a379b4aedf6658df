-- ===== src/Base/Int64.antt =====
-- Go's int64: a value is an integer between -2^63 and 2^63 - 1, and an operation wraps around.
use Prim.Native.Nat.{ℕ, ◌-◌, ◌%◌}
use mathlib.Core.Path.{◌≡◌}
use native.Mathlib.Omega.{arith}
use brollyzapper.Base.Tests.{ltb, if◌then◌else◌}
use brollyzapper.Base.Int.{ℤ, pos, negsuc, ◌+ℤ◌, ◌-ℤ◌, ◌*ℤ◌, neg_ℤ, ◌≤ℤ◌}

abbrev pub two63 : ℕ
two63 = 9223372036854775808

abbrev pub two64 : ℕ
two64 = 18446744073709551616

abbrev pub Fits : ℤ → Type 0
Fits a = (negsuc 9223372036854775807 ≤ℤ a) × (a ≤ℤ pos 9223372036854775807)

-- The int64 that is congruent to an integer modulo 2^64.
unfoldable pub wrap64 : ℤ → ℤ
wrap64 (pos n) = if ltb (n % two64) two63 then pos (n % two64) else negsuc (two64 - n % two64 - 1)
wrap64 (negsuc n) =
    if ltb (n % two64) two63 then negsuc (n % two64) else pos (two64 - n % two64 - 1)

pub wrap64-Fits : (a : ℤ) → Fits (wrap64 a)
unfolding wrap64
wrap64-Fits (pos n) = ground arith
wrap64-Fits (negsuc n) = ground arith

pub wrap64_of_Fits : (a : ℤ) → Fits a → wrap64 a ≡ a
unfolding wrap64
wrap64_of_Fits (pos n) h = ground arith
wrap64_of_Fits (negsuc n) h = ground arith

unfoldable pub add64 : ℤ → ℤ → ℤ
add64 a b = wrap64 (a +ℤ b)

unfoldable pub sub64 : ℤ → ℤ → ℤ
sub64 a b = wrap64 (a -ℤ b)

unfoldable pub neg64 : ℤ → ℤ
neg64 a = wrap64 (neg_ℤ a)

unfoldable pub mul64 : ℤ → ℤ → ℤ
mul64 a b = wrap64 (a *ℤ b)

pub add64_of_Fits : (a b : ℤ) → Fits (a +ℤ b) → add64 a b ≡ a +ℤ b
unfolding add64
add64_of_Fits a b h = wrap64_of_Fits (a +ℤ b) h

pub sub64_of_Fits : (a b : ℤ) → Fits (a -ℤ b) → sub64 a b ≡ a -ℤ b
unfolding sub64
sub64_of_Fits a b h = wrap64_of_Fits (a -ℤ b) h

pub neg64_of_Fits : (a : ℤ) → Fits (neg_ℤ a) → neg64 a ≡ neg_ℤ a
unfolding neg64
neg64_of_Fits a h = wrap64_of_Fits (neg_ℤ a) h
