-- ===== src/Libvirt/Clone.antt =====
-- CreateVolumeFromSnapshot and CreateVolumeFromVolume of pkg/provider/libvirt/provider.go, and its
-- methods as those of a provider.
use caa_csi_block_driver.Prelude.{
  ℤ, le_int, String, ◌<>◌, Bool, true, false, none, some, if◌then◌else◌,
}
use caa_csi_block_driver.Result.{Result, ok, err, error, wrap}
use caa_csi_block_driver.Provider.{Call, VolumeInfo, BlockVolumeProvider}
use caa_csi_block_driver.Provider.Calls.{pure, fail, try, wrapping, ◌>>=◌, ◌>>◌}
use caa_csi_block_driver.Libvirt.{
  FileInfo, LibvirtProvider, volume_info, volume_path, or_remove, create_volume, delete_volume,
  get_volume_info, volume_exists,
}

module _ {Machine : Type 0} (p : LibvirtProvider Machine) where
  open p use {files}

  unfoldable pub create_volume_from_snapshot : String → String → ℤ → Call Machine VolumeInfo
  create_volume_from_snapshot volume_id snapshot_id size_bytes =
      fail (error ("libvirt provider does not support snapshots (snapshot " <> snapshot_id <> ")"))

  check_source : String → String → Result FileInfo → Call Machine (Unit {0})
  check_source volume_id path (ok info) = pure tt
  check_source volume_id path (err e) =
      if e.is_not_exist
      then fail (error ("source volume " <> volume_id <> " not found at " <> path))
      else fail (wrap ("failed to access source volume " <> volume_id) e)

  -- The copied file grows to the requested size, and its file system with it. A failed truncation
  -- leaves the file.
  grow : Bool → String → ℤ → Call Machine (Unit {0})
  unfolding or_remove wrapping ◌>>=◌
  grow false path size_bytes = pure tt
  grow true path size_bytes = do
    wrapping "failed to resize cloned volume" (files.truncate path size_bytes)
    or_remove p ("failed to grow filesystem on cloned volume " <> path) path (files.resize2fs path)

  copy_file : String → String → ℤ → Call Machine (Unit {0})
  unfolding grow or_remove wrapping ◌>>=◌
  copy_file source path size_bytes = do
    wrapping ("failed to open source volume " <> source) (files.open_file source)
    wrapping ("failed to create cloned volume " <> path) (files.create_excl path)
    or_remove p "failed to copy volume data" path (files.copy source path)
    or_remove p ("failed to finalize cloned volume " <> path) path (files.close path)
    info ← wrapping "failed to stat source volume after copy" (files.stat source)
    grow (if le_int size_bytes info.size then false else true) path size_bytes

  copy_unless_found : String → String → String → ℤ → Result FileInfo → Call Machine VolumeInfo
  unfolding copy_file get_volume_info ◌>>=◌
  copy_unless_found volume_id source path size_bytes (ok info) = get_volume_info p volume_id
  copy_unless_found volume_id source path size_bytes (err e) =
      if e.is_not_exist
      then (do copy_file source path size_bytes; pure (volume_info volume_id path size_bytes))
      else fail (wrap ("failed to check destination volume " <> path) e)

  unfoldable pub create_volume_from_volume : String → String → ℤ → Call Machine VolumeInfo
  unfolding check_source copy_unless_found volume_path try ◌>>=◌
  create_volume_from_volume volume_id source_volume_id size_bytes = do
    let source = volume_path p source_volume_id
    found ← try (files.stat source)
    check_source source_volume_id source found
    let path = volume_path p volume_id
    there ← try (files.stat path)
    copy_unless_found volume_id source path size_bytes there

  -- The methods of a LibvirtProvider as those of a provider; it does not expand, list or snapshot.
  unfoldable pub libvirt_block_provider : BlockVolumeProvider Machine
  unfolding volume_exists get_volume_info create_volume delete_volume create_volume_from_snapshot
      create_volume_from_volume
  libvirt_block_provider = record {
    create_volume = create_volume p;
    delete_volume = delete_volume p;
    get_volume_info = get_volume_info p;
    volume_exists = volume_exists p;
    expander = none;
    recoverer = none;
    snapshotter = none;
    cloner = some (record {
      create_volume_from_snapshot = create_volume_from_snapshot;
      create_volume_from_volume = create_volume_from_volume;
    });
  }
