-- ===== src/Node/Publish.antt =====
-- NodePublishVolume and NodeUnpublishVolume of pkg/driver/nodeserver.go.
pub mod Written
use caa_csi_block_driver.Prelude.{String, Bool, not, Option, [], ◌==◌, if◌then◌else◌}
use caa_csi_block_driver.GoMap.{Params, get, set, entries}
use caa_csi_block_driver.Result.{invalid_argument, failed_precondition, internal}
use caa_csi_block_driver.Action.{reject_if, ◌>>=◌, ◌>>◌}
use caa_csi_block_driver.Node.{
  MountInfo, NodeSetup, NodeState, NodeHandler, reads, in_files, try_files, volume_dir,
  mount_info_file_name,
}

pub record NodePublishVolumeRequest : Type 0 where
  pub volume_id : String
  pub target_path : String
  pub has_capability : Bool
  pub volume_context : Option Params

-- The volume's attributes, with its ID and, unless it has one, its path.
unfoldable pub published_metadata : String → String → Params → Params
published_metadata volume_id device_path context =
    let attrib = set context "cloud-volume-id" volume_id in
    if get attrib "cloud-volume-path" == ""
    then set attrib "cloud-volume-path" device_path
    else attrib

unfoldable pub published_info : NodePublishVolumeRequest → String → MountInfo
published_info req device_path = record {
  volume_type = "directvol";
  device = device_path;
  fs_type = "ext4";
  metadata = published_metadata req.volume_id device_path (entries req.volume_context);
  options = [];
}

module _ (S : NodeSetup) where
  unfoldable pub node_publish_volume : NodePublishVolumeRequest → NodeHandler S (Unit {0})
  unfolding ◌>>=◌ in_files
  node_publish_volume req = do
    reject_if (req.volume_id == "") invalid_argument
    reject_if (req.target_path == "") invalid_argument
    reject_if (not req.has_capability) invalid_argument
    device_path ← reads S (λ (w : NodeState S). get w.devices req.volume_id)
    reject_if (device_path == "") failed_precondition
    bytes ← in_files S internal (λ f. (S.marshal_mount (published_info req device_path), f))
    in_files S internal (λ f. S.mkdir_all f (volume_dir S req.target_path))
    in_files S internal (λ f.
        S.platform.write_file f
          (S.platform.join (volume_dir S req.target_path) mount_info_file_name) bytes)
    in_files S internal (λ f. S.mkdir_all f req.target_path)

  unfoldable pub node_unpublish_volume : String → NodeHandler S (Unit {0})
  unfolding ◌>>=◌ try_files
  node_unpublish_volume target_path = do
    reject_if (target_path == "") invalid_argument
    try_files S (λ f. S.remove_all f (volume_dir S target_path))
    try_files S (λ f. S.remove_all f target_path)
