-- ===== src/Node/Stage.antt =====
-- NodeStageVolume, NodeUnstageVolume and NodeExpandVolume of pkg/driver/nodeserver.go.
use caa_csi_block_driver.Prelude.{
  ℤ, pos, zero, suc, negsuc, eq_int, String, Bool, not, ◌||◌, Option, none, some, List, [], ◌∷◌,
  ◌==◌, starts_with, if◌then◌else◌,
}
use caa_csi_block_driver.GoMap.{Params, get, set, erase, entries}
use caa_csi_block_driver.Result.{Result, ok, err, error, invalid_argument, internal}
use caa_csi_block_driver.Action.{pure, reject_if, ◌>>=◌, ◌>>◌}
use caa_csi_block_driver.Provider.{Call, new_block_volume_provider}
use caa_csi_block_driver.Node.{NodeSetup, NodeState, NodeHandler, reads, in_cloud, set_devices}

pub record NodeStageVolumeRequest : Type 0 where
  pub volume_id : String
  pub staging_target_path : String
  pub has_capability : Bool
  pub volume_context : Option Params

pub record NodeUnstageVolumeRequest : Type 0 where
  pub volume_id : String
  pub staging_target_path : String

pub record NodeExpandVolumeRequest : Type 0 where
  pub volume_id : String
  pub volume_path : String
  pub required_bytes : ℤ

-- A parsed capacity is taken if it is positive.
abbrev positive_or_default : Option ℤ → ℤ
positive_or_default none = pos 1073741824
positive_or_default (some (pos zero)) = pos 1073741824
positive_or_default (some (pos (suc n))) = pos (suc n)
positive_or_default (some (negsuc n)) = pos 1073741824

module _ (S : NodeSetup) where
  -- The size that a volume is staged with.
  unfoldable pub staged_size : Params → ℤ
  staged_size params =
      let capacity = get params "capacity_in_bytes" in
      if capacity == "" then pos 1073741824 else positive_or_default (S.platform.parse_int capacity)

  unfoldable pub node_stage_volume : NodeStageVolumeRequest → NodeHandler S (Unit {0})
  unfolding ◌>>=◌ in_cloud
  node_stage_volume req = do
    reject_if (req.volume_id == "") invalid_argument
    reject_if (req.staging_target_path == "") invalid_argument
    reject_if (not req.has_capability) invalid_argument
    let params = entries req.volume_context
    p ← in_cloud S internal (new_block_volume_provider S.registry params)
    info ← in_cloud S internal (p.create_volume req.volume_id (staged_size params))
    set_devices S (λ d. set d req.volume_id info.path)

  unfoldable pub node_unstage_volume : NodeUnstageVolumeRequest → NodeHandler S (Unit {0})
  unfolding ◌>>=◌
  node_unstage_volume req = do
    reject_if (req.volume_id == "") invalid_argument
    reject_if (req.staging_target_path == "") invalid_argument
    set_devices S (λ d. erase d req.volume_id)

  discard : Result String → Result (Unit {0})
  discard (ok _) = ok tt
  discard (err e) = err e

  resize_with : List String → Call S.Cloud (Unit {0})
  unfolding discard
  resize_with command cloud = let (out, cloud') = S.run command cloud in (discard out, cloud')

  -- The switch over the filesystem type.
  resize_as : String → String → String → Call S.Cloud (Unit {0})
  unfolding resize_with
  resize_as fs_type device_path mount_path cloud =
      if fs_type == "ext4" || fs_type == "ext3" || fs_type == "ext2"
      then resize_with ("resize2fs" ∷ device_path ∷ []) cloud
      else if fs_type == "xfs"
      then resize_with ("xfs_growfs" ∷ mount_path ∷ []) cloud
      else (err (error "unsupported filesystem for online resize"), cloud)

  unfoldable pub resize_filesystem : String → String → Call S.Cloud (Unit {0})
  unfolding resize_as
  resize_filesystem device_path mount_path cloud =
      let (out, cloud') =
        S.run ("blkid" ∷ "-o" ∷ "value" ∷ "-s" ∷ "TYPE" ∷ device_path ∷ []) cloud in
      elim out [
        | err e ↦ (err e, cloud')
        | ok fs_type ↦ resize_as (S.trim_space fs_type) device_path mount_path cloud'
      ]

  expand_device : NodeExpandVolumeRequest → String → NodeHandler S ℤ
  expand_device req device_path =
      if device_path == "" || not (starts_with device_path "/")
      then pure req.required_bytes
      else (do
        in_cloud S internal (resize_filesystem device_path req.volume_path)
        pure req.required_bytes)

  unfoldable pub node_expand_volume : NodeExpandVolumeRequest → NodeHandler S ℤ
  unfolding expand_device ◌>>=◌ in_cloud
  node_expand_volume req = do
    reject_if (req.volume_id == "") invalid_argument
    reject_if (req.volume_path == "") invalid_argument
    reject_if (eq_int req.required_bytes (pos 0)) invalid_argument
    device_path ← reads S (λ (w : NodeState S). get w.devices req.volume_id)
    expand_device req device_path
