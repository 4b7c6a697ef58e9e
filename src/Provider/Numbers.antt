-- ===== src/Provider/Numbers.antt =====
-- The numbers that the providers of the clouds share: parameters that are positive, and sizes in GiB.
use caa_csi_block_driver.Prelude.{
  ℕ, zero, suc, ℤ, pos, negsuc, add_nat, to_int32, to_int64, quot, eq_int, leb, String, Bool, true,
  false, Option, none, some, ◌==◌, if◌then◌else◌,
}

abbrev pub gib : ℕ
gib = 1073741824

abbrev pub one_if_zero : ℤ → ℤ
one_if_zero n = if eq_int n (pos 0) then pos 1 else n

-- int32((sizeBytes + gib - 1) / gib), and 1 instead of 0
unfoldable pub gib_ceil : ℤ → ℤ
gib_ceil size_bytes = one_if_zero (to_int32 (quot (to_int64 (add_nat size_bytes 1073741823)) gib))

-- A parsed number, if it is positive and at most a bound.
unfoldable pub positive_within : ℕ → Option ℤ → Option ℤ
positive_within bound none = none
positive_within bound (some (negsuc n)) = none
positive_within bound (some (pos zero)) = none
positive_within bound (some (pos (suc n))) = if leb (suc n) bound then some (pos (suc n)) else none

abbrev pub is_positive : ℤ → Bool
is_positive (pos zero) = false
is_positive (pos (suc n)) = true
is_positive (negsuc n) = false

abbrev pub some_if_positive : ℤ → Option ℤ
some_if_positive n = if is_positive n then some n else none

abbrev pub some_if_set : String → Option String
some_if_set s = if s == "" then none else some s
