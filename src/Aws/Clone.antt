-- ===== src/Aws/Clone.antt =====
-- The clones of pkg/provider/aws/provider.go: CreateVolumeFromSnapshot and CreateVolumeFromVolume.
-- The text of the time an hour from now is a parameter.
pub mod CleanUp
use caa_csi_block_driver.Provider.Numbers.{gib_ceil}
use caa_csi_block_driver.Prelude.{ℕ, ℤ, String, ◌<>◌, some, List, [], ◌∷◌, ◌++◌}
use caa_csi_block_driver.Result.{ok, err, wrap}
use caa_csi_block_driver.Provider.{Call, VolumeInfo, BlockVolumeProvider}
use caa_csi_block_driver.Provider.Calls.{pure, fail, try, wrapping, ◌>>=◌, ◌>>◌}
use caa_csi_block_driver.Aws.{Config, Tag, AwsProvider, tag}
use caa_csi_block_driver.Aws.Volumes.{
  create_input, created_info, make_volume, unless_exists, volume_exists, get_volume_info,
  create_volume, delete_volume, expand_volume, list_managed_volumes,
}
use caa_csi_block_driver.Aws.Snapshots.{
  create_snapshot, find_ebs_snapshot_id, delete_snapshot, list_snapshots, find_snapshot,
}

-- The info of a volume that was just made from a snapshot.
unfoldable pub cloned_info : Config → String → String → ℤ → String → VolumeInfo
unfolding created_info
cloned_info cfg volume_id snapshot_id size_bytes ebs_id =
    let info = created_info cfg volume_id size_bytes ebs_id in
    record info { metadata = info.metadata ++ ("source-snapshot", snapshot_id) ∷ [] }

unfoldable pub temp_tags : String → List Tag
temp_tags ttl = tag "caa-csi-temp-snapshot" "true" ∷ tag "caa-csi-temp-ttl" ttl ∷ []

module _ {Cloud : Type 0} (p : AwsProvider Cloud) where
  open p use {ec2_client, config}

  create_from_snapshot : String → String → ℤ → Call Cloud VolumeInfo
  unfolding find_ebs_snapshot_id make_volume ◌>>=◌ wrapping
  create_from_snapshot volume_id snapshot_id size_bytes = do
    snap_id ← wrapping ("cannot find snapshot " <> snapshot_id) (find_ebs_snapshot_id p snapshot_id)
    ebs_id ←
        make_volume p ("creating volume from snapshot " <> snap_id)
          (create_input config volume_id (some snap_id) (gib_ceil size_bytes))
    pure (cloned_info config volume_id snapshot_id size_bytes ebs_id)

  unfoldable pub create_volume_from_snapshot : String → String → ℤ → Call Cloud VolumeInfo
  unfolding unless_exists create_from_snapshot
  create_volume_from_snapshot volume_id snapshot_id size_bytes =
      unless_exists p volume_id (create_from_snapshot volume_id snapshot_id size_bytes)

  -- The temporary snapshot is deleted, whatever comes of that, and the error returned.
  pub clean_up_on_error : {A : Type 0} → String → String → Call Cloud A → Call Cloud A
  unfolding delete_snapshot try ◌>>=◌
  clean_up_on_error temp_id message m = do
    r ← try m
    elim r [
      | ok a ↦ pure a
      | err e ↦ try (delete_snapshot p temp_id) >>= λ _. fail (wrap message e)
    ]

  pub create_from_volume : String → String → String → ℤ → Call Cloud VolumeInfo
  unfolding create_snapshot find_ebs_snapshot_id clean_up_on_error delete_snapshot
      create_volume_from_snapshot try wrapping ◌>>=◌
  create_from_volume ttl volume_id source_volume_id size_bytes = do
    let temp_id = "clone-" <> volume_id
    snap ← wrapping "creating temp snapshot for clone" (create_snapshot p source_volume_id temp_id)
    snap_id ←
        clean_up_on_error temp_id ("failed to resolve EBS snapshot ID for " <> temp_id)
          (find_ebs_snapshot_id p temp_id)
    try (ec2_client.create_tags snap_id (temp_tags ttl))
    try (ec2_client.wait_snapshot_completed snap_id)
    info ←
        clean_up_on_error temp_id "creating volume from temp snapshot"
          (create_volume_from_snapshot volume_id snap.snapshot_id size_bytes)
    try (delete_snapshot p temp_id)
    pure info

  unfoldable pub create_volume_from_volume : String → String → String → ℤ → Call Cloud VolumeInfo
  unfolding unless_exists create_from_volume
  create_volume_from_volume ttl volume_id source_volume_id size_bytes =
      unless_exists p volume_id (create_from_volume ttl volume_id source_volume_id size_bytes)

  -- The methods of an AWSProvider as those of a provider. The contexts let `pages` pages through.
  unfoldable pub aws_block_provider : ℕ → String → BlockVolumeProvider Cloud
  unfolding volume_exists get_volume_info create_volume delete_volume expand_volume
      list_managed_volumes create_snapshot delete_snapshot list_snapshots find_snapshot
      create_volume_from_snapshot create_volume_from_volume
  aws_block_provider pages ttl = record {
    create_volume = create_volume p;
    delete_volume = delete_volume p;
    get_volume_info = get_volume_info p;
    volume_exists = volume_exists p;
    expander = some (record { expand_volume = expand_volume p });
    recoverer = some (record { list_managed_volumes = list_managed_volumes p pages });
    snapshotter = some (record {
      create_snapshot = create_snapshot p;
      delete_snapshot = delete_snapshot p;
      list_snapshots = list_snapshots p pages;
      find_snapshot = find_snapshot p;
    });
    cloner = some (record {
      create_volume_from_snapshot = create_volume_from_snapshot;
      create_volume_from_volume = create_volume_from_volume ttl;
    });
  }
