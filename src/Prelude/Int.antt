-- ===== src/Prelude/Int.antt =====
-- Go's signed integers, over the native numbers: `negsuc n` is -(n + 1).
use Prim.Native.Nat.{ℕ}
use mathlib.Core.Path.{◌≡◌, refl}
use mathlib.Core.Bool.{Bool, true, false}
use native.Mathlib.Omega.{arith}
use caa_csi_block_driver.Prelude.Tests.{leb, nat_eq}

pub data ℤ : Type 0 where
  pos : ℕ → ℤ
  negsuc : ℕ → ℤ

-- a <= b
abbrev pub le_int : ℤ → ℤ → Bool
le_int (pos a) (pos b) = leb a b
le_int (pos a) (negsuc b) = false
le_int (negsuc a) (pos b) = true
le_int (negsuc a) (negsuc b) = leb b a

-- a == b
abbrev pub eq_int : ℤ → ℤ → Bool
eq_int (pos a) (pos b) = nat_eq a b
eq_int (negsuc a) (negsuc b) = nat_eq a b
eq_int _ _ = false

pub eq_int→eq : (a b : ℤ) → eq_int a b ≡ true → a ≡ b
eq_int→eq (pos a) (pos b) h = ground arith
eq_int→eq (negsuc a) (negsuc b) h = ground arith
eq_int→eq (pos a) (negsuc b) h = ground arith
eq_int→eq (negsuc a) (pos b) h = ground arith

pub eq_int_refl : (a : ℤ) → eq_int a a ≡ true
eq_int_refl (pos a) = ground arith
eq_int_refl (negsuc a) = ground arith

pub le_int_refl : (a : ℤ) → le_int a a ≡ true
le_int_refl (pos a) = ground arith
le_int_refl (negsuc a) = ground arith

pub le_int_total : (a b : ℤ) → le_int a b ≡ false → le_int b a ≡ true
le_int_total (pos a) (pos b) h = ground arith
le_int_total (pos a) (negsuc b) h = ground arith
le_int_total (negsuc a) (pos b) h = ground arith
le_int_total (negsuc a) (negsuc b) h = ground arith

pub le_int_trans : (a b c : ℤ) → le_int a b ≡ true → le_int b c ≡ true → le_int a c ≡ true
le_int_trans (pos a) (pos b) (pos c) h g = ground arith
le_int_trans (negsuc a) b (pos c) h g = refl
le_int_trans (negsuc a) (negsuc b) (negsuc c) h g = ground arith
le_int_trans (negsuc a) (pos b) (negsuc c) h g = absurd (ground arith)
le_int_trans (pos a) (pos b) (negsuc c) h g = absurd (ground arith)
le_int_trans (pos a) (negsuc b) c h g = absurd (ground arith)
