-- ===== src/Libvirt.antt =====
-- pkg/provider/libvirt/provider.go: raw disk files in the directory of a libvirt pool. The calls of
-- os, io and os/exec on a machine are a parameter, a record; a path stands for the file opened at it.
pub mod Clone
pub mod Failures
use caa_csi_block_driver.Prelude.{
  ℤ, String, ◌<>◌, Bool, true, false, not, ◌||◌, [], ◌∷◌, ◌==◌, if◌then◌else◌,
}
use caa_csi_block_driver.GoMap.{Params, get}
use caa_csi_block_driver.Result.{GoError, Result, ok, err, error, wrap}
use caa_csi_block_driver.Provider.{Call, VolumeInfo}
use caa_csi_block_driver.Provider.Calls.{pure, fail, try, wrapping, reject_if, ◌>>=◌, ◌>>◌}

-- os.FileInfo
pub record FileInfo : Type 0 where
  pub is_dir : Bool
  pub size : ℤ

-- The calls that change or look at files. `create_excl` is os.OpenFile with O_CREATE, O_WRONLY and
-- O_EXCL, `copy` takes the source first, `mkfs` and `resize2fs` run mkfs.ext4 and resize2fs.
pub record Files (Machine : Type 0) : Type 0 where
  pub stat : String → Call Machine FileInfo
  pub create : String → Call Machine (Unit {0})
  pub create_excl : String → Call Machine (Unit {0})
  pub open_file : String → Call Machine (Unit {0})
  pub truncate : String → ℤ → Call Machine (Unit {0})
  pub copy : String → String → Call Machine (Unit {0})
  pub close : String → Call Machine (Unit {0})
  pub remove : String → Call Machine (Unit {0})
  pub mkfs : String → Call Machine (Unit {0})
  pub resize2fs : String → Call Machine (Unit {0})
  pub join : String → String → String

pub record Config : Type 0 where
  pub pool_path : String

-- LibvirtProvider
pub record LibvirtProvider (Machine : Type 0) : Type 0 where
  pub files : Files Machine
  pub config : Config

module _ {Machine : Type 0} (files : Files Machine) where
  checked_pool : String → Result FileInfo → Call Machine (LibvirtProvider Machine)
  checked_pool path (err e) =
      fail (error ("pool path " <> path <> " does not exist or is not a directory"))
  checked_pool path (ok info) =
      if info.is_dir
      then pure (record { files = files; config = record { pool_path = path } })
      else fail (error ("pool path " <> path <> " does not exist or is not a directory"))

  unfoldable pub new_libvirt_provider : Params → Call Machine (LibvirtProvider Machine)
  unfolding checked_pool ◌>>=◌ try
  new_libvirt_provider params = do
    let path = get params "cloudProviderVolumePath"
    reject_if (path == "") (error "cloudProviderVolumePath is required for libvirt provider")
    info ← try (files.stat path)
    checked_pool path info

-- The info of a volume at a path.
unfoldable pub volume_info : String → String → ℤ → VolumeInfo
volume_info volume_id path size_bytes = record {
  volume_id = volume_id;
  path = path;
  size_bytes = size_bytes;
  provider = "libvirt";
  metadata = ("cloud-volume-path", path) ∷ ("cloud-provider", "libvirt") ∷ [];
}

-- os.IsNotExist of the error of a call, if it has one
abbrev pub is_missing : {A : Type 0} → Result A → Bool
is_missing (ok a) = false
is_missing (err e) = e.is_not_exist

module _ {Machine : Type 0} (p : LibvirtProvider Machine) where
  open p use {files, config}

  unfoldable pub volume_path : String → String
  volume_path volume_id = files.join config.pool_path ("csi-vol-" <> volume_id <> ".raw")

  -- A step whose failure removes the file that was being made.
  unfoldable pub or_remove : {A : Type 0} → String → String → Call Machine A → Call Machine A
  unfolding try ◌>>=◌
  or_remove message path m = do
    r ← try m
    elim r [ ok a ↦ pure a | err e ↦ try (files.remove path) >>= λ _. fail (wrap message e) ]

  make_file : String → ℤ → Call Machine (Unit {0})
  unfolding or_remove wrapping ◌>>=◌
  make_file path size_bytes = do
    wrapping ("failed to create raw disk at " <> path) (files.create path)
    or_remove ("failed to allocate bytes for " <> path) path (files.truncate path size_bytes)
    or_remove ("failed to format " <> path <> " as ext4") path (files.mkfs path)

  -- Only a file that is surely missing is made.
  abbrev make_if : Bool → String → ℤ → Call Machine (Unit {0})
  make_if true path size_bytes = make_file path size_bytes
  make_if false path size_bytes = pure tt

  unfoldable pub create_volume : String → ℤ → Call Machine VolumeInfo
  unfolding volume_path make_file try ◌>>=◌
  create_volume volume_id size_bytes = do
    let path = volume_path volume_id
    found ← try (files.stat path)
    make_if (is_missing found) path size_bytes
    pure (volume_info volume_id path size_bytes)

  after_remove : String → Result (Unit {0}) → Call Machine (Unit {0})
  after_remove path (ok _) = pure tt
  after_remove path (err e) =
      if e.is_not_exist then pure tt else fail (wrap ("failed to delete volume file " <> path) e)

  unfoldable pub delete_volume : String → Call Machine (Unit {0})
  unfolding volume_path after_remove try ◌>>=◌
  delete_volume volume_id = do
    removed ← try (files.remove (volume_path volume_id))
    after_remove (volume_path volume_id) removed

  info_of : String → String → Result FileInfo → Call Machine VolumeInfo
  info_of volume_id path (ok info) = pure (volume_info volume_id path info.size)
  info_of volume_id path (err e) =
      if e.is_not_exist
      then fail (error ("volume " <> volume_id <> " not found at " <> path))
      else fail (wrap ("failed to stat volume " <> path) e)

  unfoldable pub get_volume_info : String → Call Machine VolumeInfo
  unfolding volume_path info_of try ◌>>=◌
  get_volume_info volume_id = do
    found ← try (files.stat (volume_path volume_id))
    info_of volume_id (volume_path volume_id) found

  exists_of : String → Result FileInfo → Call Machine Bool
  exists_of path (ok info) = pure true
  exists_of path (err e) =
      if e.is_not_exist then pure false else fail (wrap ("failed to check volume " <> path) e)

  unfoldable pub volume_exists : String → Call Machine Bool
  unfolding volume_path exists_of try ◌>>=◌
  volume_exists volume_id = do
    found ← try (files.stat (volume_path volume_id))
    exists_of (volume_path volume_id) found
