-- ===== src/Prelude/Words.antt =====
-- Go's conversions to int32 and int64, and its arithmetic on them before it wraps around.
use Prim.Native.Nat.{ℕ, zero, suc, ◌+◌, ◌-◌, ◌*◌, ◌/◌, ◌%◌, ◌^◌, ◌<◌}
use mathlib.Core.Path.{◌≡◌}
use native.Mathlib.Omega.{arith}
use caa_csi_block_driver.Prelude.Tests.{ltb, if◌then◌else◌}
use caa_csi_block_driver.Prelude.Int.{ℤ, pos, negsuc}

-- The value of an integer modulo `modulus`.
abbrev residue : ℕ → ℤ → ℕ
residue modulus (pos n) = n % modulus
residue modulus (negsuc n) = modulus - 1 - n % modulus

-- The signed number with a residue modulo twice `half`.
abbrev signed : ℕ → ℕ → ℤ
signed half m = if ltb m half then pos m else negsuc (2 * half - 1 - m)

unfoldable pub to_int32 : ℤ → ℤ
to_int32 z = signed (2 ^ 31) (residue (2 ^ 32) z)

unfoldable pub to_int64 : ℤ → ℤ
to_int64 z = signed (2 ^ 63) (residue (2 ^ 64) z)

-- a + n
abbrev pub add_nat : ℤ → ℕ → ℤ
add_nat (pos a) n = pos (a + n)
add_nat (negsuc a) n = if ltb a n then pos (n - a - 1) else negsuc (a - n)

abbrev negate : ℕ → ℤ
negate zero = pos 0
negate (suc n) = negsuc n

-- a / n, which Go rounds towards zero
unfoldable pub quot : ℤ → ℕ → ℤ
quot (pos a) n = pos (a / n)
quot (negsuc a) n = negate (suc a / n)

-- a * n
unfoldable pub scale : ℤ → ℕ → ℤ
scale (pos a) n = pos (a * n)
scale (negsuc a) n = negate (suc a * n)

pub to_int32-small : (n : ℕ) → n < 2 ^ 31 → to_int32 (pos n) ≡ pos n
unfolding to_int32
to_int32-small n h = let e : n % 2 ^ 32 ≡ n = omega arith in rw e (ground arith)

pub to_int64-small : (n : ℕ) → n < 2 ^ 63 → to_int64 (pos n) ≡ pos n
unfolding to_int64
to_int64-small n h = let e : n % 2 ^ 64 ≡ n = omega arith in rw e (ground arith)
