-- ===== src/Azure/Disks.antt =====
-- The volumes of pkg/provider/azure/provider.go: buildDiskProperties, CreateVolume, DeleteVolume,
-- GetVolumeInfo, VolumeExists, ExpandVolume and ListManagedVolumes.
pub mod Effects
pub mod Refinement
use caa_csi_block_driver.Prelude.{
  ℕ, ℤ, pos, scale, le_int, String, ◌<>◌, Bool, true, false, Option, none, some, List, [], ◌∷◌,
  ◌==◌, if◌then◌else◌,
}
use caa_csi_block_driver.GoMap.{Params, or_empty}
use caa_csi_block_driver.Result.{GoError, Result, ok, err, error, wrap}
use caa_csi_block_driver.Provider.{Call, VolumeInfo}
use caa_csi_block_driver.Provider.Calls.{pure, fail, try, wrapping, ◌>>=◌, ◌>>◌}
use caa_csi_block_driver.Provider.Numbers.{gib_ceil, some_if_positive, some_if_set}
use caa_csi_block_driver.Provider.Pages.{list_pages}
use caa_csi_block_driver.Azure.{
  Config, Disk, NewDisk, Begin, AzureProvider, is_not_found, tag_of, size_of, volume_tag_key,
}
use caa_csi_block_driver.Azure.Names.{disk_name}

-- bytesToGiB
abbrev pub bytes_to_gib : ℤ → ℤ
bytes_to_gib = gib_ceil

-- The disk that a volume is made of, with the properties of buildDiskProperties; an empty one, or a
-- copy of a source.
unfoldable pub new_disk : Config → Option String → ℤ → Params → NewDisk
new_disk cfg source size_bytes tags = record {
  location = cfg.location;
  sku = cfg.disk_sku;
  source_resource_id = source;
  disk_size_gb = bytes_to_gib size_bytes;
  disk_iops = some_if_positive cfg.disk_iops;
  disk_mbps = some_if_positive cfg.disk_mbps;
  encryption_set = some_if_set cfg.disk_enc_set_id;
  tags = tags;
}

-- The info of a volume on a disk; the last entry of the metadata depends on how it was made.
unfoldable pub disk_info : String → ℤ → String → String × String → VolumeInfo
unfolding disk_name
disk_info volume_id size_bytes disk_id last = record {
  volume_id = volume_id;
  path = disk_id;
  size_bytes = size_bytes;
  provider = "azure";
  metadata =
      ("cloud-volume-path", disk_id)
      ∷ ("cloud-provider", "azure")
      ∷ ("azure-disk-name", disk_name volume_id)
      ∷ last
      ∷ [];
}

abbrev pub plain_info : String → ℤ → String → VolumeInfo
plain_info volume_id size_bytes disk_id =
    disk_info volume_id size_bytes disk_id ("azure-resource-id", disk_id)

-- The body of ListManagedVolumes' inner loop.
unfoldable pub managed_disk : Disk → Option VolumeInfo
managed_disk d =
    let volume_id = or_empty (tag_of volume_tag_key d.tags) in
    if volume_id == ""
    then none
    else some (plain_info volume_id (size_of d.disk_size_gb) (or_empty d.resource_id))

-- A disk whose size is known and large enough.
abbrev is_large_enough : ℤ → Option ℤ → Bool
is_large_enough size none = false
is_large_enough size (some n) = le_int size n

module _ {Cloud : Type 0} where
  -- An operation is begun and waited for; both errors get a message.
  unfoldable pub finish : {A : Type 0} → String → String → Begin Cloud A → Call Cloud A
  unfolding ◌>>=◌ wrapping
  finish begin_message done_message begin = do
    poller ← wrapping begin_message begin
    wrapping done_message poller

  unfoldable pub id_or_error : String → Option String → Call Cloud String
  id_or_error name none = fail (error ("Azure returned nil disk ID for " <> name))
  id_or_error name (some disk_id) = pure disk_id

module _ {Cloud : Type 0} (p : AzureProvider Cloud) where
  open p use {disks_client, config}

  get_disk : String → Call Cloud Disk
  get_disk name = disks_client.get config.resource_group name

  exists_of : String → Result Disk → Call Cloud Bool
  exists_of name (ok d) = pure true
  exists_of name (err e) =
      if is_not_found e then pure false else fail (wrap ("failed to check disk " <> name) e)

  unfoldable pub volume_exists : String → Call Cloud Bool
  unfolding exists_of get_disk ◌>>=◌ try
  volume_exists volume_id = do
    found ← try (get_disk (disk_name volume_id))
    exists_of (disk_name volume_id) found

  unfoldable pub get_volume_info : String → Call Cloud VolumeInfo
  unfolding get_disk id_or_error ◌>>=◌ wrapping
  get_volume_info volume_id = do
    d ← wrapping ("failed to get disk " <> disk_name volume_id) (get_disk (disk_name volume_id))
    disk_id ← id_or_error (disk_name volume_id) d.resource_id
    pure (plain_info volume_id (size_of d.disk_size_gb) disk_id)

  -- What CreateVolume and both ways to clone a volume do with a disk that they have filled.
  unfoldable pub make_disk : String → String → String → NewDisk → Call Cloud String
  unfolding finish id_or_error ◌>>=◌
  make_disk begin_message done_message name disk = do
    d ←
        finish begin_message done_message
          (disks_client.begin_create_or_update config.resource_group name disk)
    id_or_error name d.resource_id

  create_new : String → ℤ → Call Cloud VolumeInfo
  unfolding make_disk ◌>>=◌
  create_new volume_id size_bytes = do
    let name = disk_name volume_id
    disk_id ←
        make_disk ("failed to begin creating disk " <> name) ("failed to create disk " <> name) name
          (new_disk config none size_bytes ((volume_tag_key, volume_id) ∷ []))
    pure (plain_info volume_id size_bytes disk_id)

  -- A volume that is there is reused.
  abbrev reuse_or : String → Call Cloud VolumeInfo → Bool → Call Cloud VolumeInfo
  reuse_or volume_id create true = get_volume_info volume_id
  reuse_or volume_id create false = create

  -- What CreateVolume and both ways to clone a volume do first.
  unfoldable pub unless_exists : String → Call Cloud VolumeInfo → Call Cloud VolumeInfo
  unfolding volume_exists get_volume_info ◌>>=◌
  unless_exists volume_id create =
      if config.location == ""
      then fail (error "azureLocation is required to create volumes")
      else (do exists ← volume_exists volume_id; reuse_or volume_id create exists)

  unfoldable pub create_volume : String → ℤ → Call Cloud VolumeInfo
  unfolding unless_exists create_new
  create_volume volume_id size_bytes = unless_exists volume_id (create_new volume_id size_bytes)

  -- A disk that is not there is deleted.
  finish_delete : String → Result (Call Cloud (Unit {0})) → Call Cloud (Unit {0})
  unfolding wrapping
  finish_delete name (err e) =
      if is_not_found e then pure tt else fail (wrap ("failed to begin deleting disk " <> name) e)
  finish_delete name (ok poller) = wrapping ("failed to delete disk " <> name) poller

  unfoldable pub delete_volume : String → Call Cloud (Unit {0})
  unfolding finish_delete ◌>>=◌ try
  delete_volume volume_id = do
    begun ← try (disks_client.begin_delete config.resource_group (disk_name volume_id))
    finish_delete (disk_name volume_id) begun

  -- A disk that is large enough is left alone.
  enlarge : String → ℤ → Bool → Call Cloud (Unit {0})
  unfolding finish
  enlarge name size true = pure tt
  enlarge name size false =
      finish ("failed to begin expanding disk " <> name) ("failed to expand disk " <> name)
        (disks_client.begin_update config.resource_group name size)

  unfoldable pub expand_volume : String → ℤ → Call Cloud (Unit {0})
  unfolding get_disk enlarge ◌>>=◌ wrapping
  expand_volume volume_id new_size_bytes = do
    let name = disk_name volume_id
    d ← wrapping ("failed to get disk " <> name) (get_disk name)
    let size = bytes_to_gib new_size_bytes
    enlarge name size (is_large_enough size d.disk_size_gb)

  -- ListManagedVolumes, whose context lets some number of pages through
  unfoldable pub list_managed_volumes : ℕ → Call Cloud (List VolumeInfo)
  unfolding wrapping
  list_managed_volumes pages =
      wrapping "listing disks for recovery"
        (list_pages managed_disk pages (disks_client.list_pages config.resource_group) none)
