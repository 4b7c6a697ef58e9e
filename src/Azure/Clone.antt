-- ===== src/Azure/Clone.antt =====
-- CreateVolumeFromSnapshot and CreateVolumeFromVolume of pkg/provider/azure/provider.go, and its
-- methods as those of a provider.
use caa_csi_block_driver.Prelude.{ℕ, ℤ, String, ◌<>◌, some, [], ◌∷◌}
use caa_csi_block_driver.Provider.{Call, VolumeInfo, BlockVolumeProvider}
use caa_csi_block_driver.Provider.Calls.{pure, ◌>>=◌}
use caa_csi_block_driver.Azure.{AzureProvider, volume_tag_key}
use caa_csi_block_driver.Azure.Names.{disk_name, snap_name, disk_resource_id, snap_resource_id}
use caa_csi_block_driver.Azure.Disks.{
  new_disk, disk_info, make_disk, unless_exists, volume_exists, get_volume_info, create_volume,
  delete_volume, expand_volume, list_managed_volumes,
}
use caa_csi_block_driver.Azure.Snapshots.{
  create_snapshot, delete_snapshot, list_snapshots, find_snapshot,
}

module _ {Cloud : Type 0} (p : AzureProvider Cloud) where
  open p use {config}

  create_from_snapshot : String → String → ℤ → Call Cloud VolumeInfo
  unfolding make_disk ◌>>=◌
  create_from_snapshot volume_id snapshot_id size_bytes = do
    let source_name = snap_name snapshot_id
    disk_id ←
        make_disk p ("failed to begin creating disk from snapshot " <> source_name)
          ("failed to create disk from snapshot " <> source_name) (disk_name volume_id)
          (new_disk config (some (snap_resource_id config source_name)) size_bytes
            ((volume_tag_key, volume_id) ∷ ("source-snapshot", snapshot_id) ∷ []))
    pure (disk_info volume_id size_bytes disk_id ("source-snapshot", snapshot_id))

  unfoldable pub create_volume_from_snapshot : String → String → ℤ → Call Cloud VolumeInfo
  unfolding unless_exists create_from_snapshot
  create_volume_from_snapshot volume_id snapshot_id size_bytes =
      unless_exists p volume_id (create_from_snapshot volume_id snapshot_id size_bytes)

  create_from_volume : String → String → ℤ → Call Cloud VolumeInfo
  unfolding make_disk ◌>>=◌
  create_from_volume volume_id source_volume_id size_bytes = do
    let source_name = disk_name source_volume_id
    disk_id ←
        make_disk p ("failed to begin cloning disk " <> source_name)
          ("failed to clone disk " <> source_name) (disk_name volume_id)
          (new_disk config (some (disk_resource_id config source_name)) size_bytes
            ((volume_tag_key, volume_id) ∷ ("source-volume", source_volume_id) ∷ []))
    pure (disk_info volume_id size_bytes disk_id ("source-volume", source_volume_id))

  unfoldable pub create_volume_from_volume : String → String → ℤ → Call Cloud VolumeInfo
  unfolding unless_exists create_from_volume
  create_volume_from_volume volume_id source_volume_id size_bytes =
      unless_exists p volume_id (create_from_volume volume_id source_volume_id size_bytes)

  -- The methods of an AzureProvider as those of a provider. The contexts let `pages` pages through.
  unfoldable pub azure_block_provider : ℕ → BlockVolumeProvider Cloud
  unfolding volume_exists get_volume_info create_volume delete_volume expand_volume
      list_managed_volumes create_snapshot delete_snapshot list_snapshots find_snapshot
      create_volume_from_snapshot create_volume_from_volume
  azure_block_provider pages = record {
    create_volume = create_volume p;
    delete_volume = delete_volume p;
    get_volume_info = get_volume_info p;
    volume_exists = volume_exists p;
    expander = some (record { expand_volume = expand_volume p });
    recoverer = some (record { list_managed_volumes = list_managed_volumes p pages });
    snapshotter = some (record {
      create_snapshot = create_snapshot p;
      delete_snapshot = delete_snapshot p;
      list_snapshots = list_snapshots p pages;
      find_snapshot = find_snapshot p;
    });
    cloner = some (record {
      create_volume_from_snapshot = create_volume_from_snapshot;
      create_volume_from_volume = create_volume_from_volume;
    });
  }
