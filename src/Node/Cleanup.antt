-- ===== src/Node/Cleanup.antt =====
-- cleanStaleMountInfoDirs of pkg/driver/nodeserver.go, which a node server runs when it starts.
pub mod Live
use caa_csi_block_driver.Prelude.{
  String, Bool, true, false, Option, none, some, List, [], ◌∷◌, if◌then◌else◌,
}
use caa_csi_block_driver.Result.{Result, ok, err}
use caa_csi_block_driver.Platform.{DirEntry}
use caa_csi_block_driver.Node.{MountInfo, NodeSetup, NodeState, kata_root, mount_info_file_name}

module _ (S : NodeSetup) where
  open S.platform use {Files, Bytes}

  -- Whether the target of a mount info is gone.
  target_gone : Result (Unit {0}) → Bool
  target_gone (ok _) = false
  target_gone (err e) = e.is_not_exist

  -- A mount info that cannot be parsed is stale; one that can is stale once its target is gone.
  stale_info : Result MountInfo → String → Files → Bool
  unfolding target_gone
  stale_info (err _) target f = true
  stale_info (ok _) target f = target_gone (S.platform.stat f target)

  stale_data : Result Bytes → String → Files → Bool
  unfolding stale_info
  stale_data (err _) target f = false
  stale_data (ok bytes) target f = stale_info (S.unmarshal_mount bytes) target f

  stale_name : String → String → Option String → Files → Bool
  unfolding stale_data
  stale_name root name none f = false
  stale_name root name (some target) f =
      let info_path = S.platform.join (S.platform.join root name) mount_info_file_name in
      stale_data (S.platform.read_file f info_path) target f

  -- Whether a round of the loop removes its entry.
  unfoldable pub is_stale : String → DirEntry → Files → Bool
  unfolding stale_name
  is_stale root e f = if e.is_dir then stale_name root e.name (S.decode_name e.name) f else false

  unfoldable pub clean_entries : String → List DirEntry → Files → Files
  clean_entries root [] f = f
  clean_entries root (e ∷ es) f =
      clean_entries root es
        (if is_stale root e f then (S.remove_all f (S.platform.join root e.name)).1 else f)

  unfoldable pub clean_stale_mount_info_dirs : String → Files → Files
  unfolding clean_entries
  clean_stale_mount_info_dirs root f = elim (S.platform.read_dir f root) [
    | err _ ↦ f
    | ok es ↦ clean_entries root es f
  ]

  -- newNodeServer: no devices, no topology, and a cleaned directory of mount infos.
  unfoldable pub new_node_server : Files → S.Cloud → NodeState S
  new_node_server f cloud = record {
    files = clean_stale_mount_info_dirs (kata_root S) f;
    cloud = cloud;
    devices = [];
    topo = none;
  }
