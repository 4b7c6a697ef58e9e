-- ===== src/Ibmcloud/Laws.antt =====
-- The configurations that parseConfig of pkg/provider/ibmcloud/provider.go accepts.
use caa_csi_block_driver.Prelude.{
  String, List, [], ◌∷◌, ◌≡◌, ◌≢◌, refl, inl, inr, ◌⊎◌, true, false, not, arith, Bool-cases, ◌==◌,
  eq_iff, starts_with,
}
use caa_csi_block_driver.GoMap.{Params, get}
use caa_csi_block_driver.Result.{Result, ok, Result-cases}
use caa_csi_block_driver.Ibmcloud.{
  Config, Text, parse_config, check_placement, check_encryption, check_tags, takes_iops, or_default,
  iops_of, throughput_of, extra_tags_of, is_valid_profile, has_reserved, either_key,
}

-- The profiles of VPC block storage that the driver knows.
abbrev pub IsProfile : String → Type 0
IsProfile profile =
    (profile ≡ "general-purpose")
    ⊎ (profile ≡ "5iops-tier")
    ⊎ (profile ≡ "10iops-tier")
    ⊎ (profile ≡ "custom")
    ⊎ (profile ≡ "sdp")

-- No tag that looks like one of an owner or of a configuration.
abbrev pub AreFree : List String → Type 0
AreFree [] = Unit {0}
AreFree (tag ∷ tags) =
    (starts_with tag "caa-csi-volume-id:" ≡ false)
    × (starts_with tag "caa-csi-config:" ≡ false)
    × AreFree tags

IsProfile-is_valid_profile :
    (profile : String) → is_valid_profile profile ≡ true → IsProfile profile
IsProfile-is_valid_profile profile h = ground (
  arith,
  eq_iff profile "general-purpose",
  eq_iff profile "5iops-tier",
  eq_iff profile "10iops-tier",
  eq_iff profile "custom",
  eq_iff profile "sdp",
)

takes_iops_lem :
    (profile : String) → takes_iops profile ≡ true → (profile ≡ "custom") ⊎ (profile ≡ "sdp")
takes_iops_lem profile h = ground (arith, eq_iff profile "custom", eq_iff profile "sdp")

AreFree-has_reserved : (tags : List String) → has_reserved tags ≡ false → AreFree tags
unfolding has_reserved
AreFree-has_reserved [] h = tt
AreFree-has_reserved (tag ∷ tags) h =
    (ground arith, ground arith, AreFree-has_reserved tags (ground arith))

-- A zone of its region, a known profile, IOPS only for profiles that have them, encryption exactly
-- where there is a key, and no tag that the driver keeps for itself.
pub record IsUsable (cfg : Config) : Type 0 where
  pub has_region : cfg.region ≢ ""
  pub zone_in_region : starts_with cfg.zone cfg.region ≡ true
  pub profile_known : IsProfile cfg.profile
  pub iops_profile : (cfg.iops ≡ "") ⊎ (cfg.profile ≡ "custom") ⊎ (cfg.profile ≡ "sdp")
  pub encrypted_with_key : (cfg.encrypted == "true") ≡ not (cfg.encryption_key == "")
  pub tags_free : AreFree cfg.extra_tags

placement_checked :
    (region zone profile iops : String)
    → check_placement region zone profile iops ≡ ok tt
    → (region ≢ "")
      × (starts_with zone region ≡ true)
      × (is_valid_profile profile ≡ true)
      × ((iops ≡ "") ⊎ (takes_iops profile ≡ true))
unfolding check_placement
placement_checked region zone profile iops h = (
  λ e. ground (arith, eq_iff region ""),
  ground arith,
  ground arith,
  elim (Bool-cases (iops == "")) [
    | inl unset ↦ inl (ground (arith, eq_iff iops ""))
    | inr set ↦ inr (ground arith)
  ],
)

encryption_checked :
    (encrypted key : String)
    → check_encryption encrypted key ≡ ok tt
    → (encrypted == "true") ≡ not (key == "")
unfolding check_encryption
encryption_checked encrypted key h = ground arith

ok_inj : {a b : Config} → ◌≡◌ {A = Result Config} (ok a) (ok b) → a ≡ b
ok_inj h = cc

module _ (T : Text) where
  -- What every accepted configuration has passed.
  abbrev Passed : Params → Config → Type 0
  Passed params cfg =
      (check_placement cfg.region cfg.zone cfg.profile (either_key params "iops" "ibmIops") ≡ ok tt)
      × (iops_of T (either_key params "iops" "ibmIops") ≡ ok cfg.iops)
      × (throughput_of T (get params "throughput") ≡ ok cfg.throughput)
      × (check_encryption cfg.encrypted cfg.encryption_key ≡ ok tt)
      × (check_tags cfg.extra_tags ≡ ok tt)
      × (cfg.volume_id ≡ either_key params "ibm-volume-id" "cloud-volume-path")

  parse_config_lem :
      (params : Params) (cfg : Config) → parse_config T params ≡ ok cfg → Passed params cfg
  unfolding parse_config
  parse_config_lem params cfg h =
      let region = either_key params "region" "ibmRegion" in
      let zone = either_key params "zone" "ibmZone" in
      let profile = or_default (either_key params "profile" "ibmProfile") "general-purpose" in
      let iops = either_key params "iops" "ibmIops" in
      let tags = extra_tags_of T (get params "tags") in
      let key = get params "encryptionKey" in
      let encrypted = T.to_lower (or_default (get params "encrypted") "false") in
      elim (Result-cases (check_placement region zone profile iops)) [
        | inr (e, bad) ↦ absurd (ground arith)
        | inl (u1, placed) ↦ elim (Result-cases (iops_of T iops)) [
          | inr (e, bad) ↦ absurd (ground arith)
          | inl (i, got_iops) ↦ elim (Result-cases (throughput_of T (get params "throughput"))) [
            | inr (e, bad) ↦ absurd (ground arith)
            | inl (t, got) ↦ elim (Result-cases (check_encryption encrypted key)) [
              | inr (e, bad) ↦ absurd (ground arith)
              | inl (u2, sealed) ↦ elim (Result-cases (check_tags tags)) [
                | inr (e, bad) ↦ absurd (ground arith)
                | inl (u3, free) ↦
                    let e = ok_inj (rw (placed, got_iops, got, sealed, free) at h) in
                    rw (← e) (placed, got_iops, got, sealed, free, refl)
              ]
            ]
          ]
        ]
      ]

  iops_of_unset : (v i : String) → v ≡ "" → iops_of T v ≡ ok i → i ≡ ""
  unfolding iops_of
  iops_of_unset v i unset h = ground (arith, eq_iff v "")

  -- Every configuration that parseConfig accepts has a region and a zone of it, a profile of VPC
  -- block storage, IOPS only for custom and sdp, encryption exactly where there is a key, and no extra
  -- tag that starts with caa-csi-volume-id: or caa-csi-config:.
  pub parse_config-IsUsable :
      (params : Params) (cfg : Config) → parse_config T params ≡ ok cfg → IsUsable cfg
  unfolding check_tags
  parse_config-IsUsable params cfg h =
      let (placed, iops, _, sealed, free, _) = parse_config_lem params cfg h in
      let (region, zone, profile, iops_profile) =
        placement_checked cfg.region cfg.zone cfg.profile (either_key params "iops" "ibmIops")
          placed in
      record {
        has_region = region;
        zone_in_region = zone;
        profile_known = IsProfile-is_valid_profile cfg.profile profile;
        iops_profile = elim iops_profile [
          | inl unset ↦ inl (iops_of_unset (either_key params "iops" "ibmIops") cfg.iops unset iops)
          | inr takes ↦ inr (takes_iops_lem cfg.profile takes)
        ];
        encrypted_with_key = encryption_checked cfg.encrypted cfg.encryption_key sealed;
        tags_free = AreFree-has_reserved cfg.extra_tags (ground arith);
      }

  -- A configuration has the volume ID of its parameters.
  pub parse_config-volume_id :
      (params : Params) (cfg : Config)
      → parse_config T params ≡ ok cfg
      → cfg.volume_id ≡ either_key params "ibm-volume-id" "cloud-volume-path"
  parse_config-volume_id params cfg h =
      let (_, _, _, _, _, id) = parse_config_lem params cfg h in id
