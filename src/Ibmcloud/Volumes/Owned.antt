-- ===== src/Ibmcloud/Volumes/Owned.antt =====
-- Whose volumes checkOwnedVolume of pkg/provider/ibmcloud/provider.go accepts.
use caa_csi_block_driver.Prelude.{
  pos, eq_int, eq_int→eq, eq_int_refl, String, ◌<>◌, ◌≡◌, refl, ◌↔◌, ◌⊎◌, inl, inr, Bool, true,
  false, Option, none, some, arith, Bool-cases, ◌==◌, eq_iff,
}
use caa_csi_block_driver.Result.{GoError, ok, err, err_volume_already_exists}
use caa_csi_block_driver.Ibmcloud.{Config, ownership_tag_prefix}
use caa_csi_block_driver.Ibmcloud.Volumes.{
  Volume, Packages, has, config_tag, is_placed, check_settings, check_owned_volume, is_value,
  is_nil_or,
}

-- A volume that carries the ownership tag of a name and the configuration's marker, stands in its
-- zone with its profile, and differs from the configuration in nothing that the SDK returns of it.
pub record IsOwned (P : Packages) (cfg : Config) (v : Volume) (name : String) : Type 0 where
  pub has_owner : has v.tags (ownership_tag_prefix <> name) ≡ true
  pub has_marker : has v.tags (config_tag P cfg) ≡ true
  pub in_zone : v.az ≡ cfg.zone
  pub has_profile : v.profile ≡ some cfg.profile
  pub in_group : (v.resource_group ≡ none) ⊎ (v.resource_group ≡ some cfg.resource_group)
  pub has_key : (v.encryption_key ≡ none) ⊎ (v.encryption_key ≡ some cfg.encryption_key)
  pub has_iops : (cfg.iops ≡ "") ⊎ (v.iops ≡ some cfg.iops)
  pub has_bandwidth : (cfg.throughput ≡ pos 0) ⊎ (v.bandwidth ≡ cfg.throughput)

is_value_iff : (o : Option String) (s : String) → is_value o s ≡ true ↔ (o ≡ some s)
is_value_iff none s = ((λ h. absurd (ground arith)), (λ h. absurd (ground arith)))
is_value_iff (some v) s = ((λ h. ground (arith, eq_iff v s)), (λ h. ground (arith, eq_iff v s)))

is_nil_or_iff :
    (o : Option String) (s : String) → is_nil_or o s ≡ true ↔ ((o ≡ none) ⊎ (o ≡ some s))
is_nil_or_iff none s = ((λ h. inl refl), (λ h. refl))
is_nil_or_iff (some v) s = (
  (λ h. inr (ground (arith, eq_iff v s))),
  (λ h. elim h [ inl e ↦ absurd (ground arith) | inr e ↦ ground (arith, eq_iff v s) ]),
)

module _ (P : Packages) (cfg : Config) (v : Volume) (name : String) where
  abbrev unset_or : Bool → Bool → Bool
  unset_or true same = true
  unset_or false same = same

  -- The tests of checkOwnedVolume, one after the other.
  abbrev Passes : Type 0
  Passes =
      (has v.tags (ownership_tag_prefix <> name) ≡ true)
      × (has v.tags (config_tag P cfg) ≡ true)
      × (v.az == cfg.zone ≡ true)
      × (is_value v.profile cfg.profile ≡ true)
      × (is_nil_or v.resource_group cfg.resource_group ≡ true)
      × (is_nil_or v.encryption_key cfg.encryption_key ≡ true)
      × (unset_or (cfg.iops == "") (is_value v.iops cfg.iops) ≡ true)
      × (unset_or (eq_int cfg.throughput (pos 0)) (eq_int v.bandwidth cfg.throughput) ≡ true)

  check_owned_volume-Passes : check_owned_volume P cfg v name ≡ ok tt ↔ Passes
  unfolding check_owned_volume is_placed check_settings
  check_owned_volume-Passes = ((λ h. ground arith), (λ h. ground arith))

  -- checkOwnedVolume fails with nothing but ErrVolumeAlreadyExists.
  pub check_owned_volume_conflict :
      (e : GoError)
      → check_owned_volume P cfg v name ≡ err e
      → e.sentinel ≡ err_volume_already_exists
  unfolding check_owned_volume check_settings
  check_owned_volume_conflict e h = ground arith

  -- checkOwnedVolume accepts exactly the volumes with the ownership tag of the name and the
  -- configuration's marker, in its zone and with its profile, whose resource group and encryption key
  -- are the configuration's where the volume has them, and whose IOPS and bandwidth are the
  -- configuration's where that sets them.
  pub check_owned_volume_iff : check_owned_volume P cfg v name ≡ ok tt ↔ IsOwned P cfg v name
  check_owned_volume_iff = (owned, accepted)
    where
      owned : check_owned_volume P cfg v name ≡ ok tt → IsOwned P cfg v name
      owned h =
          let (owner, marker, zone, profile, group, key, iops, bandwidth) =
            check_owned_volume-Passes.0 h in
          record {
            has_owner = owner;
            has_marker = marker;
            in_zone = ground (arith, eq_iff v.az cfg.zone);
            has_profile = (is_value_iff v.profile cfg.profile).0 profile;
            in_group = (is_nil_or_iff v.resource_group cfg.resource_group).0 group;
            has_key = (is_nil_or_iff v.encryption_key cfg.encryption_key).0 key;
            has_iops = elim (Bool-cases (cfg.iops == "")) [
              | inl unset ↦ inl (ground (arith, eq_iff cfg.iops ""))
              | inr set ↦ inr ((is_value_iff v.iops cfg.iops).0 (ground arith))
            ];
            has_bandwidth = elim (Bool-cases (eq_int cfg.throughput (pos 0))) [
              | inl unset ↦ inl (eq_int→eq cfg.throughput (pos 0) unset)
              | inr set ↦ inr (eq_int→eq v.bandwidth cfg.throughput (ground arith))
            ];
          }

      accepted : IsOwned P cfg v name → check_owned_volume P cfg v name ≡ ok tt
      accepted o = check_owned_volume-Passes.1 (
        o.has_owner,
        o.has_marker,
        ground (arith, o.in_zone, eq_iff v.az cfg.zone),
        (is_value_iff v.profile cfg.profile).1 o.has_profile,
        (is_nil_or_iff v.resource_group cfg.resource_group).1 o.in_group,
        (is_nil_or_iff v.encryption_key cfg.encryption_key).1 o.has_key,
        elim o.has_iops [
          | inl unset ↦ rw unset refl
          | inr same ↦ rw ((is_value_iff v.iops cfg.iops).1 same) (ground arith)
        ],
        elim o.has_bandwidth [
          | inl unset ↦ rw unset refl
          | inr same ↦ rw (same, eq_int_refl cfg.throughput) (ground arith)
        ],
      )
