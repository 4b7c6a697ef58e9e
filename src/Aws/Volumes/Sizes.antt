-- ===== src/Aws/Volumes/Sizes.antt =====
-- The sizes in GiB that pkg/provider/aws/provider.go asks EC2 for.
use caa_csi_block_driver.Provider.Numbers.{gib, gib_ceil, one_if_zero}
use caa_csi_block_driver.Prelude.{
  ℕ, zero, suc, ◌+◌, ◌-◌, ◌*◌, ◌/◌, ◌%◌, ◌^◌, ◌≤◌, ◌<◌, pos, quot, to_int32-small, to_int64-small,
  ◌≡◌, ◌≢◌, refl, ◌↔◌, ◌⊎◌, inl, inr, Bool-cases, ltb, ◌∙◌, arith,
}
use caa_csi_block_driver.Aws.Volumes.{gib_floor}

-- The size for a request of `n` bytes, where EC2's numbers do not wrap around.
gib_ceil_value :
    (n : ℕ)
    → n < 2 ^ 61
    → (n + 1073741823) / 1073741824 < 2 ^ 31
    → gib_ceil (pos n) ≡ one_if_zero (pos ((n + 1073741823) / 1073741824))
unfolding gib_ceil quot
gib_ceil_value n small fits =
    rw
      (
        to_int64-small (n + 1073741823) (omega arith),
        to_int32-small ((n + 1073741823) / 1073741824) fits,
      )
      refl

gib_floor_value :
    (n : ℕ) → n / 1073741824 < 2 ^ 31 → gib_floor (pos n) ≡ one_if_zero (pos (n / 1073741824))
unfolding gib_floor quot
gib_floor_value n fits = rw (to_int32-small (n / 1073741824) fits) refl

-- A size of `g` GiB holds `n` bytes, and no smaller size of at least a GiB does.
abbrev pub IsLeastSize : ℕ → ℕ → Type 0
IsLeastSize n g = (1 ≤ g) × (n ≤ g * gib) × (g ≡ 1 ⊎ (g - 1) * gib < n)

one_if_zero_positive : (n : ℕ) → 1 ≤ n → one_if_zero (pos n) ≡ pos n
one_if_zero_positive n h = ground arith

-- ExpandVolume and CreateVolumeFromSnapshot ask for the least size in GiB, at least one, that holds
-- the request, as long as that size is an int32.
gib_ceil-IsLeastSize :
    (n : ℕ) → n ≤ 2147483647 * gib → (g : ℕ) × (gib_ceil (pos n) ≡ pos g) × IsLeastSize n g
gib_ceil-IsLeastSize zero small =
    (1, gib_ceil_value 0 (omega arith) (omega arith), (omega arith, omega arith, inl refl))
gib_ceil-IsLeastSize (suc n) small =
    let g = (suc n + 1073741823) / 1073741824 in
    (
      g,
      gib_ceil_value (suc n) (omega arith) (omega arith) ∙ one_if_zero_positive g (omega arith),
      (omega arith, omega arith, inr (omega arith)),
    )

-- For a request of at most 2147483647 GiB, CreateVolume asks for less than the request exactly where
-- the request is more than a GiB and no number of GiB.
pub gib_floor_short_iff :
    (n : ℕ)
    → n ≤ 2147483647 * gib
    → (g : ℕ) × (gib_floor (pos n) ≡ pos g) × (g * gib < n ↔ (gib < n) × (n % gib ≢ 0))
gib_floor_short_iff n small = elim (Bool-cases (ltb n gib)) [
  | inl below ↦
      let lt : n < gib = ground arith in
      let e : n / 1073741824 ≡ 0 = omega arith in
      (
        1,
        gib_floor_value n (omega arith) ∙ rw e refl,
        (λ h. absurd (omega arith), λ (big, _). absurd (omega arith)),
      )
  | inr above ↦
      let ge : gib ≤ n = ground arith in
      (
        n / 1073741824,
        gib_floor_value n (omega arith) ∙ one_if_zero_positive (n / 1073741824) (omega arith),
        (λ h. (omega arith, λ e. omega arith), λ (big, uneven). omega arith),
      )
]
