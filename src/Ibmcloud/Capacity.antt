-- ===== src/Ibmcloud/Capacity.antt =====
-- NormalizeCapacity of pkg/provider/ibmcloud/provider.go.
use caa_csi_block_driver.Prelude.{
  ℕ, ◌+◌, ◌-◌, ◌*◌, ◌/◌, ◌%◌, ◌^◌, ◌≤◌, ◌<◌, ltb, nat_eq, le_int, true, ℤ, pos, negsuc, String, ◌≡◌,
  ◌≢◌, eq_iff, refl, ap, ◌⊎◌, inl, inr, arith, Bool-cases, ◌==◌, if◌then◌else◌,
}
use caa_csi_block_driver.Result.{GoError, Result, ok, err, sentinel_error, err_invalid_parameters}
use caa_csi_block_driver.Provider.Numbers.{gib}

-- The number of GiB that hold a number of bytes.
abbrev units_of : ℕ → ℕ
units_of n = if nat_eq (n % gib) 0 then n / gib else n / gib + 1

abbrev pub minimum_units : String → ℕ
minimum_units profile = if profile == "sdp" then 1 else 10

abbrev at_least : ℕ → ℕ → ℕ
at_least minimum units = if ltb units minimum then minimum else units

-- units * gib, unless it overflows int64
abbrev in_bytes : ℕ → Result ℤ
in_bytes units =
    if ltb ((2 ^ 63 - 1) / gib) units
    then err (sentinel_error err_invalid_parameters "capacity overflows int64")
    else ok (pos (units * gib))

unfoldable pub normalize_capacity : String → ℤ → Result ℤ
normalize_capacity profile (negsuc n) =
    err (sentinel_error err_invalid_parameters "negative capacity")
normalize_capacity profile (pos n) = in_bytes (at_least (minimum_units profile) (units_of n))

-- What NormalizeCapacity should give for a request of `n` bytes: the least number of GiB that holds it
-- and is not below the profile's minimum, in bytes that an int64 holds.
abbrev pub IsNormal : ℕ → ℕ → ℕ → Type 0
IsNormal minimum n c =
    (n ≤ c)
    × (c % gib ≡ 0)
    × (minimum * gib ≤ c)
    × (c < 2 ^ 63)
    × ((c ≡ minimum * gib) ⊎ (c < n + gib))

in_bytes-IsNormal :
    (minimum n units : ℕ)
    → n ≤ units * gib
    → minimum ≤ units
    → (units ≡ minimum) ⊎ (units * gib < n + gib)
    → ((c : ℕ) × (in_bytes units ≡ ok (pos c)) × IsNormal minimum n c)
      ⊎ ((e : GoError) × (in_bytes units ≡ err e) × (8589934591 < units))
in_bytes-IsNormal minimum n units holds above least = elim (Bool-cases (ltb 8589934591 units)) [
  | inl over ↦
      inr (
        sentinel_error err_invalid_parameters "capacity overflows int64",
        ground arith,
        ground arith,
      )
  | inr fits ↦
      let bound : units ≤ 8589934591 = ground arith in
      inl (
        units * gib,
        ground arith,
        (
          holds,
          omega arith,
          omega arith,
          omega arith,
          elim least [ inl e ↦ inl (ap (λ u. u * gib) e) | inr f ↦ inr f ],
        ),
      )
]

units_of_holds : (n : ℕ) → (n ≤ units_of n * gib) × (units_of n * gib < n + gib)
units_of_holds n = elim (Bool-cases (nat_eq (n % gib) 0)) [
  | inl even ↦ let z : n % gib ≡ 0 = ground arith in rw even (omega arith, omega arith)
  | inr odd ↦ let z : 1 ≤ n % gib = ground arith in rw odd (omega arith, omega arith)
]

minimum_units-small : (profile : String) → minimum_units profile ≤ 10
minimum_units-small profile = ground arith

-- The result for the units that a request needs.
IsNormal-of_units :
    (minimum n units : ℕ)
    → minimum ≤ 10
    → n ≤ units * gib
    → units * gib < n + gib
    → ((c : ℕ) × (in_bytes (at_least minimum units) ≡ ok (pos c)) × IsNormal minimum n c)
      ⊎ ((e : GoError) × (in_bytes (at_least minimum units) ≡ err e) × (8589934591 * gib < n))
IsNormal-of_units minimum n units small holds least = elim (Bool-cases (ltb units minimum)) [
  | inl few ↦
      let below : units < minimum = ground arith in
      rw few (elim (in_bytes-IsNormal minimum n minimum (omega arith) (omega arith) (inl refl)) [
        | inl fine ↦ inl fine
        | inr (e, bad, over) ↦ absurd (omega arith)
      ])
  | inr enough ↦
      let above : minimum ≤ units = ground arith in
      rw enough (elim (in_bytes-IsNormal minimum n units holds above (inr least)) [
        | inl fine ↦ inl fine
        | inr (e, bad, over) ↦ inr (e, bad, omega arith)
      ])
]

-- What NormalizeCapacity gives, with the model's minimum.
pub normalize_capacity_cases :
    (profile : String) (n : ℕ)
    → ((c : ℕ) × (normalize_capacity profile (pos n) ≡ ok (pos c))
        × IsNormal (minimum_units profile) n c)
      ⊎ ((e : GoError) × (normalize_capacity profile (pos n) ≡ err e) × (8589934591 * gib < n))
unfolding normalize_capacity
normalize_capacity_cases profile n =
    let (holds, least) = units_of_holds n in
    IsNormal-of_units (minimum_units profile) n (units_of n) (minimum_units-small profile) holds
      least

-- The least number of GiB of a volume with a profile: one for sdp, and ten for all others.
abbrev pub IsMinimum : String → ℕ → Type 0
IsMinimum profile minimum =
    ((profile ≡ "sdp") × (minimum ≡ 1)) ⊎ ((profile ≢ "sdp") × (minimum ≡ 10))

IsMinimum-minimum_units : (profile : String) → IsMinimum profile (minimum_units profile)
IsMinimum-minimum_units profile = elim (Bool-cases (profile == "sdp")) [
  | inl sdp ↦ inl (ground (arith, eq_iff profile "sdp"), ground arith)
  | inr other ↦ inr (λ e. ground (arith, eq_iff profile "sdp"), ground arith)
]

-- For a request that is not negative, NormalizeCapacity gives the least number of GiB that holds it
-- and is not below the profile's minimum, one for sdp and ten for all others, in an int64 of bytes, or
-- fails, which it only does for a request of more than 8589934591 GiB.
pub normalize_capacity_sound :
    (profile : String) (n : ℕ)
    → (minimum : ℕ) × IsMinimum profile minimum
      × (((c : ℕ) × (normalize_capacity profile (pos n) ≡ ok (pos c)) × IsNormal minimum n c)
          ⊎ ((e : GoError) × (normalize_capacity profile (pos n) ≡ err e) × (8589934591 * gib < n)))
normalize_capacity_sound profile n =
    (minimum_units profile, IsMinimum-minimum_units profile, normalize_capacity_cases profile n)

-- A normalized capacity holds the request.
pub normalize_capacity_holds :
    (profile : String) (size allocated : ℤ)
    → normalize_capacity profile size ≡ ok allocated
    → le_int size allocated ≡ true
unfolding normalize_capacity
normalize_capacity_holds profile (negsuc n) allocated h = absurd (ground arith)
normalize_capacity_holds profile (pos n) allocated h = elim (normalize_capacity_cases profile n) [
  | inr (e, bad, _) ↦ absurd (ground arith)
  | inl (m, good, normal) ↦
      let above = normal.0 in
      let same : pos m ≡ allocated = ground arith in rw (← same) (ground arith)
]
