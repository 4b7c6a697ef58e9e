-- ===== src/Aws/Settings/Laws.antt =====
-- The configurations that NewAWSProvider of pkg/provider/aws/provider.go accepts.
use caa_csi_block_driver.Provider.Numbers.{positive_within}
use caa_csi_block_driver.Prelude.{
  ℕ, zero, suc, ◌-◌, ◌^◌, ◌≤◌, ◌<◌, ℤ, pos, negsuc, String, ◌≡◌, ◌≢◌, refl, ◌∙◌, sym, ap, ◌⊎◌, inl,
  inr, true, Option, none, some, arith, Bool-cases, Option-cases, ◌==◌, eq_iff,
}
use caa_csi_block_driver.GoMap.{Params, get}
use caa_csi_block_driver.Result.{ok, is_ok, Result-cases}
use caa_csi_block_driver.Aws.{Config}
use caa_csi_block_driver.Aws.Settings.{
  takes_iops, checked, int32_param, check_types, volume_type_of, aws_config,
}

-- A number that is zero or a positive int32.
abbrev IsInt32Setting : ℤ → Type 0
IsInt32Setting z = (n : ℕ) × (z ≡ pos n) × (n < 2 ^ 31)

-- What EC2 takes: a region, numbers in range, and performance settings for types that have them.
record IsUsable (cfg : Config) : Type 0 where
  pub has_region : cfg.region ≢ ""
  pub iops_range : IsInt32Setting cfg.iops
  pub throughput_range : IsInt32Setting cfg.throughput
  pub iops_type : (cfg.iops ≡ pos 0) ⊎ (takes_iops cfg.volume_type ≡ true)
  pub throughput_type : (cfg.throughput ≡ pos 0) ⊎ (cfg.volume_type ≡ "gp3")

module _ (parse_int : String → Option ℤ) where
  positive_within_range :
      (bound : ℕ) (parsed : Option ℤ) (z : ℤ)
      → positive_within bound parsed ≡ some z
      → (n : ℕ) × (z ≡ pos n) × (n ≤ bound)
  unfolding positive_within
  positive_within_range bound none z h = absurd (ground arith)
  positive_within_range bound (some (negsuc n)) z h = absurd (ground arith)
  positive_within_range bound (some (pos zero)) z h = absurd (ground arith)
  positive_within_range bound (some (pos (suc n))) z h = (suc n, ground arith, ground arith)

  int32_param_range :
      (name v : String) (z : ℤ) → int32_param parse_int name v ≡ ok z → IsInt32Setting z
  unfolding int32_param checked
  int32_param_range name v z h = elim (Bool-cases (v == "")) [
    | inl unset ↦ (0, ground arith, omega arith)
    | inr set ↦ elim (Option-cases (positive_within (2 ^ 31 - 1) (parse_int v))) [
      | inl bad ↦ absurd (ground arith)
      | inr (w, e) ↦
          let (n, same, bounded) = positive_within_range (2 ^ 31 - 1) (parse_int v) w e in
          (n, ground arith, omega arith)
    ]
  ]

  check_types_lem :
      (volume_type : String) (a b : ℕ)
      → is_ok (check_types parse_int volume_type (pos a) (pos b)) ≡ true
      → ((pos a ≡ pos 0) ⊎ (takes_iops volume_type ≡ true))
        × ((pos b ≡ pos 0) ⊎ (volume_type ≡ "gp3"))
  unfolding check_types
  check_types_lem t zero zero h = (inl refl, inl refl)
  check_types_lem t zero (suc b) h = (inl refl, inr (ground (arith, eq_iff t "gp3")))
  check_types_lem t (suc a) zero h = (inr (ground arith), inl refl)
  check_types_lem t (suc a) (suc b) h = (inr (ground arith), inr (ground (arith, eq_iff t "gp3")))

  accepted :
      (params : Params) (cfg : Config) (a b : ℕ)
      → int32_param parse_int "awsIops" (get params "awsIops") ≡ ok (pos a)
      → int32_param parse_int "awsThroughput" (get params "awsThroughput") ≡ ok (pos b)
      → aws_config parse_int params ≡ ok cfg
      → (get params "awsRegion" ≢ "")
        × (cfg.region ≡ get params "awsRegion")
        × (cfg.iops ≡ pos a)
        × (cfg.throughput ≡ pos b)
        × (is_ok (check_types parse_int cfg.volume_type (pos a) (pos b)) ≡ true)
  unfolding aws_config
  accepted params cfg a b e1 e2 h = elim (Bool-cases (get params "awsRegion" == "")) [
    | inl unset ↦ absurd (ground arith)
    | inr set ↦
        elim (Result-cases (check_types parse_int (volume_type_of params) (pos a) (pos b))) [
          | inr (e, bad) ↦ absurd (ground arith)
          | inl (u, good) ↦ (
            λ e. ground (arith, eq_iff (get params "awsRegion") ""),
            ground arith,
            ground arith,
            ground arith,
            ground arith,
          )
        ]
  ]

  IsUsable-of :
      (params : Params) (cfg : Config) (iops throughput : ℤ)
      → int32_param parse_int "awsIops" (get params "awsIops") ≡ ok iops
      → int32_param parse_int "awsThroughput" (get params "awsThroughput") ≡ ok throughput
      → aws_config parse_int params ≡ ok cfg
      → IsUsable cfg
  IsUsable-of params cfg iops throughput e1 e2 h =
      let (a, is_a, a_fits) = int32_param_range "awsIops" (get params "awsIops") iops e1 in
      let (b, is_b, b_fits) =
        int32_param_range "awsThroughput" (get params "awsThroughput") throughput e2 in
      let (named, region, iops_same, throughput_same, checked_types) =
        accepted params cfg a b (e1 ∙ ap ok is_a) (e2 ∙ ap ok is_b) h in
      let (iops_type, throughput_type) = check_types_lem cfg.volume_type a b checked_types in
      record {
        has_region = λ e. named (sym region ∙ e);
        iops_range = (a, iops_same, a_fits);
        throughput_range = (b, throughput_same, b_fits);
        iops_type = rw iops_same iops_type;
        throughput_type = rw throughput_same throughput_type;
      }

  -- Every configuration that NewAWSProvider accepts has a region, its IOPS and its throughput are zero
  -- or positive int32 numbers, and it sets them only for volume types that have them.
  aws_config-IsUsable :
      (params : Params) (cfg : Config) → aws_config parse_int params ≡ ok cfg → IsUsable cfg
  unfolding aws_config
  aws_config-IsUsable params cfg h =
      elim (Result-cases (int32_param parse_int "awsIops" (get params "awsIops"))) [
        | inr (e, bad) ↦ absurd (ground arith)
        | inl (iops, e1) ↦
            elim (Result-cases
              (int32_param parse_int "awsThroughput" (get params "awsThroughput"))) [
                | inr (e, bad) ↦ absurd (ground arith)
                | inl (throughput, e2) ↦ IsUsable-of params cfg iops throughput e1 e2 h
              ]
      ]
