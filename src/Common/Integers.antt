-- ===== src/Common/Integers.antt =====
-- Integers with Go's machine arithmetic: comparison, and the operations of an int64.
use Prim.Native.Nat.{ℕ, zero, suc, ◌+◌, ◌-◌, ◌*◌, ◌/◌, ◌%◌, ◌^◌, ◌<◌}
use mathlib.Core.Path.{◌≡◌}
use mathlib.Core.Bool.{Bool, true, false}
use native.Mathlib.Omega.{arith}
use centralized_relay.Common.Tests.{ltb, leb, if◌then◌else◌}
use centralized_relay.Common.Decimal.{ℤ, pos, negsuc}

abbrev pub ltb_ℤ : ℤ → ℤ → Bool
ltb_ℤ (pos m) (pos n) = ltb m n
ltb_ℤ (pos m) (negsuc n) = false
ltb_ℤ (negsuc m) (pos n) = true
ltb_ℤ (negsuc m) (negsuc n) = ltb n m

-- The number `-n`.
abbrev pub neg : ℕ → ℤ
neg zero = pos zero
neg (suc n) = negsuc n

abbrev pub sub_ℕ : ℕ → ℕ → ℤ
sub_ℕ m n = if leb n m then pos (m - n) else neg (n - m)

infixl 20 ◌+ℤ◌
abbrev pub ◌+ℤ◌ : ℤ → ℤ → ℤ
pos m +ℤ pos n = pos (m + n)
pos m +ℤ negsuc n = sub_ℕ m (suc n)
negsuc m +ℤ pos n = sub_ℕ n (suc m)
negsuc m +ℤ negsuc n = negsuc (suc (m + n))

infixl 30 ◌*ℤ◌
abbrev pub ◌*ℤ◌ : ℤ → ℤ → ℤ
pos m *ℤ pos n = pos (m * n)
pos m *ℤ negsuc n = neg (m * suc n)
negsuc m *ℤ pos n = neg (suc m * n)
negsuc m *ℤ negsuc n = pos (suc m * suc n)

-- Division by a positive number, towards 0.
abbrev pub quotient : ℤ → ℕ → ℤ
quotient (pos m) n = pos (m / n)
quotient (negsuc m) n = neg (suc m / n)

-- The int64 with the bits of a uint64, and the bits of an int64.
unfoldable pub int64_of : ℕ → ℤ
int64_of n = if ltb n (2 ^ 63) then pos n else negsuc (2 ^ 64 - 1 - n)

unfoldable pub bits64 : ℤ → ℕ
bits64 (pos n) = n % 2 ^ 64
bits64 (negsuc n) = 2 ^ 64 - 1 - n % 2 ^ 64

-- The int64 that is left of an integer.
unfoldable pub wrap64 : ℤ → ℤ
unfolding int64_of bits64
wrap64 z = int64_of (bits64 z)

-- `x.Int64()` of a big integer: the low 64 bits of the absolute value, with the sign.
unfoldable pub int64 : ℤ → ℤ
unfolding wrap64 int64_of
int64 (pos n) = int64_of (n % 2 ^ 64)
int64 (negsuc n) = wrap64 (pos 0 +ℤ (negsuc 0 *ℤ int64_of (suc n % 2 ^ 64)))

-- The integers that an int64 can hold.
abbrev pub IsInt64 : ℤ → Type 0
IsInt64 (pos n) = n < 2 ^ 63
IsInt64 (negsuc n) = n < 2 ^ 63

pub wrap64-IsInt64 : (z : ℤ) → IsInt64 z → wrap64 z ≡ z
unfolding wrap64 int64_of bits64
wrap64-IsInt64 (pos n) h = ground arith
wrap64-IsInt64 (negsuc n) h = ground arith

pub int64-small : (n : ℕ) → n < 2 ^ 63 → int64 (pos n) ≡ pos n
unfolding int64 int64_of
int64-small n h = ground arith
