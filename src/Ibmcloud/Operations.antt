-- ===== src/Ibmcloud/Operations.antt =====
-- The methods of IBMCloudProvider in pkg/provider/ibmcloud/provider.go: CreateVolume, DeleteVolume,
-- GetVolumeInfo, VolumeExists and ExpandVolume.
pub mod Creation
pub mod Deletion
pub mod Exact
pub mod Repeat
use caa_csi_block_driver.Prelude.{
  ℕ, ◌-◌, ℤ, pos, add_nat, to_int64, quot, le_int, String, ◌<>◌, Bool, true, false, not, ◌&&◌, ◌||◌,
  Option, none, some, List, [], ◌∷◌, ◌==◌, if◌then◌else◌, cut_prefix,
}
use caa_csi_block_driver.Result.{
  GoError, Result, ok, err, error, wrap, sentinel_error, is_volume_not_found,
  err_invalid_parameters, err_volume_already_exists,
}
use caa_csi_block_driver.Provider.{Call, VolumeInfo, BlockVolumeProvider}
use caa_csi_block_driver.Provider.Calls.{
  pure, fail, returning, reject_if, try, wrapping, ◌>>=◌, ◌>>◌,
}
use caa_csi_block_driver.Provider.Numbers.{gib, some_if_set}
use caa_csi_block_driver.Provider.Pages.{collect}
use caa_csi_block_driver.Ibmcloud.{Config, IbmCloudProvider, ownership_tag_prefix}
use caa_csi_block_driver.Ibmcloud.Capacity.{normalize_capacity}
use caa_csi_block_driver.Ibmcloud.Volumes.{
  Volume, Session, Packages, zero_volume, named, named_if_any, nil_dereference, config_tag,
  check_owned_volume, volume_info,
}
use caa_csi_block_driver.Ibmcloud.Listing.{list_volumes}
use caa_csi_block_driver.Ibmcloud.Lookup.{lookup_volume}

abbrev encryption_key_of : Packages → Config → Option String
encryption_key_of P cfg =
    if P.to_lower cfg.encrypted == "true" && not (cfg.encryption_key == "")
    then some cfg.encryption_key
    else none

-- The request that CreateVolume sends for a capacity in bytes.
unfoldable pub new_volume : Packages → Config → String → ℤ → Volume
unfolding config_tag
new_volume P cfg volume_id allocated = record zero_volume {
  name = some volume_id;
  capacity = some (quot allocated gib);
  az = cfg.zone;
  region = cfg.region;
  bandwidth = cfg.throughput;
  profile = some cfg.profile;
  tags = (ownership_tag_prefix <> volume_id) ∷ config_tag P cfg ∷ cfg.extra_tags;
  volume_type = cfg.fs_type;
  resource_group = some_if_set cfg.resource_group;
  iops = some_if_set cfg.iops;
  encryption_key = encryption_key_of P cfg;
}

-- int((newSizeBytes + (gib - 1)) / gib)
unfoldable pub expanded_capacity : ℤ → ℤ
expanded_capacity n = quot (to_int64 (add_nat n 1073741823)) gib

module _ {Cloud : Type 0} (P : Packages) (rounds : ℕ) (p : IbmCloudProvider (Session Cloud)) where
  open p use {session, config}

  -- A volume that checkOwnedVolume gets as a pointer.
  unfoldable pub check_owned_pointer : Option Volume → String → Call Cloud (Unit {0})
  unfolding check_owned_volume
  check_owned_pointer none name = fail nil_dereference
  check_owned_pointer (some v) name = returning (check_owned_volume P config v name)

  unfoldable pub get_volume_info : String → Call Cloud VolumeInfo
  unfolding lookup_volume check_owned_pointer volume_info ◌>>=◌
  get_volume_info volume_id = do
    v ← lookup_volume P rounds p volume_id
    check_owned_pointer v volume_id
    returning (volume_info v)

  exists_of : Result VolumeInfo → Call Cloud Bool
  exists_of (ok info) = pure true
  exists_of (err e) = if is_volume_not_found e then pure false else fail e

  unfoldable pub volume_exists : String → Call Cloud Bool
  unfolding get_volume_info exists_of ◌>>=◌ try
  volume_exists volume_id = do r ← try (get_volume_info volume_id); exists_of r

  unfoldable pub expand_volume : String → ℤ → Call Cloud (Unit {0})
  unfolding get_volume_info expanded_capacity ◌>>=◌ wrapping
  expand_volume volume_id new_size_bytes = do
    info ← wrapping ("cannot expand volume " <> volume_id) (get_volume_info volume_id)
    wrapping "failed to expand volume via ibmcloud-volume-vpc SDK" (
        session.update_volume (record zero_volume {
          volume_id = info.path;
          capacity = some (expanded_capacity new_size_bytes);
        }))

  -- A volume that was found is deleted if it is the driver's; one that is missing is gone already.
  unfoldable pub delete_found : String → Result (Option Volume) → Call Cloud (Unit {0})
  unfolding check_owned_volume ◌>>=◌ wrapping
  delete_found volume_id (err e) = if is_volume_not_found e then pure tt else fail e
  delete_found volume_id (ok none) = fail nil_dereference
  delete_found volume_id (ok (some v)) = do
    returning (check_owned_volume P config v volume_id)
    reject_if (v.volume_id == "") (error "IBM volume has no native ID")
    wrapping "failed to DeleteVolume via ibmcloud-volume-vpc SDK"
        (session.delete_volume (record zero_volume { volume_id = v.volume_id }))

  unfoldable pub delete_volume : String → Call Cloud (Unit {0})
  unfolding lookup_volume delete_found ◌>>=◌ try
  delete_volume volume_id = do
    r ← try (lookup_volume P rounds p volume_id)
    delete_found volume_id r

  -- A volume that is there is reused, if it is the driver's and large enough.
  unfoldable pub reuse : String → ℤ → Volume → Result VolumeInfo
  unfolding check_owned_volume volume_info
  reuse volume_id allocated v = elim (check_owned_volume P config v volume_id) [
    | err e ↦ err e
    | ok _ ↦ elim (volume_info (some v)) [
      | err e ↦ err e
      | ok info ↦
          if le_int allocated info.size_bytes
          then ok info
          else err
              (sentinel_error err_volume_already_exists (volume_id <> " is smaller than requested"))
    ]
  ]

  -- The SDK waits for the volume but returns what it was at first: a pending one is read again.
  unfoldable pub refresh : Option Volume → Call Cloud (Option Volume)
  unfolding wrapping
  refresh none = pure none
  refresh (some v) =
      if v.volume_id == "" || v.status == "available"
      then pure (some v)
      else wrapping "refreshing created IBM volume" (session.get_volume v.volume_id)

  unfoldable pub matching : String → ℤ → VolumeInfo → Result VolumeInfo
  matching volume_id allocated info =
      if info.volume_id == volume_id && le_int allocated info.size_bytes
      then ok info
      else err (error "IBM create response does not match the requested name/capacity")

  -- The call that makes a volume, and the one that reads it again.
  unfoldable pub make : String → ℤ → Call Cloud (Option Volume)
  unfolding refresh new_volume ◌>>=◌ wrapping
  make volume_id allocated = do
    created ←
        wrapping "failed to CreateVolume via ibmcloud-volume-vpc SDK"
          (session.create_volume (new_volume P config volume_id allocated))
    refresh created

  unfoldable pub checked_response : String → ℤ → Option Volume → Result VolumeInfo
  unfolding matching volume_info
  checked_response volume_id allocated response = elim (volume_info response) [
    | err e ↦ err e
    | ok info ↦ matching volume_id allocated info
  ]

  unfoldable pub create_new : String → ℤ → Call Cloud VolumeInfo
  unfolding make checked_response ◌>>=◌
  create_new volume_id allocated = do
    response ← make volume_id allocated
    returning (checked_response volume_id allocated (named_if_any volume_id response))

  unfoldable pub create_or_reuse : String → ℤ → Result (Option Volume) → Call Cloud VolumeInfo
  unfolding reuse create_new
  create_or_reuse volume_id allocated (ok (some v)) = returning (reuse volume_id allocated v)
  create_or_reuse volume_id allocated (ok none) = create_new volume_id allocated
  create_or_reuse volume_id allocated (err e) =
      if is_volume_not_found e then create_new volume_id allocated else fail e

  unfoldable pub create_volume : String → ℤ → Call Cloud VolumeInfo
  unfolding lookup_volume create_or_reuse normalize_capacity ◌>>=◌ try
  create_volume volume_id size_bytes = do
    reject_if (config.zone == "") (error "zone parameter is required to create a new volume")
    reject_if (volume_id == "") (sentinel_error err_invalid_parameters "empty volume name")
    allocated ← returning (normalize_capacity config.profile size_bytes)
    r ← try (lookup_volume P rounds p volume_id)
    create_or_reuse volume_id allocated r
