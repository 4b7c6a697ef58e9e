-- ===== src/Node.antt =====
-- pkg/driver/nodeserver.go: staging and publishing of volumes on a node. A handler's `mu` guards the
-- map of devices and the cached topology, which are part of the state here.
pub mod Cleanup
pub mod Info
pub mod Labels
pub mod History
pub mod Publish
pub mod Stage
pub mod Stats
use caa_csi_block_driver.Prelude.{ℕ, ℤ, String, ◌<>◌, Option, List, ◌==◌, if◌then◌else◌}
use caa_csi_block_driver.GoMap.{Params}
use caa_csi_block_driver.Result.{Result, Code, done}
use caa_csi_block_driver.Action.{Action, reply_of}
use caa_csi_block_driver.Provider.{Call, Registry}
use caa_csi_block_driver.Platform.{Platform}
use caa_csi_block_driver.Platform.Http.{HttpClient}

pub record MountInfo : Type 0 where
  pub volume_type : String
  pub device : String
  pub fs_type : String
  pub metadata : Params
  pub options : List String

-- csi.VolumeUsage_Unit
pub data UsageUnit : Type 0 where
  unknown_unit bytes inodes : UsageUnit

pub record VolumeUsage : Type 0 where
  pub available : ℤ
  pub total : ℤ
  pub used : ℤ
  pub unit : UsageUnit

-- syscall.Statfs_t, as unsigned 64-bit numbers
pub record Statfs : Type 0 where
  pub frsize : ℕ
  pub bsize : ℕ
  pub blocks : ℕ
  pub bavail : ℕ
  pub bfree : ℕ
  pub inode_count : ℕ
  pub ffree : ℕ

-- What the node server calls beyond a `Platform`: directories, base64 file names, the JSON of mount
-- infos and of kata-runtime's statistics, commands, statfs and HTTP. A command acts on
-- the machine, which is part of the state `Cloud`.
pub record NodeSetup : Type 1 where
  pub platform : Platform
  pub Cloud : Type 0
  pub registry : Registry Cloud
  pub mkdir_all : platform.Files → String → Result (Unit {0}) × platform.Files
  pub remove_all : platform.Files → String → Result (Unit {0}) × platform.Files
  pub encode_name : String → String
  pub decode_name : String → Option String
  pub marshal_mount : MountInfo → Result platform.Bytes
  pub unmarshal_mount : platform.Bytes → Result MountInfo
  pub unmarshal_usage : String → Result (List (Option VolumeUsage))
  pub trim_space : String → String
  pub look_path : String → Result String
  pub run : List String → Call Cloud String
  pub statfs : String → Cloud → Result Statfs
  pub http : HttpClient platform.Bytes Cloud

pub record NodeState (S : NodeSetup) : Type 0 where
  pub files : S.platform.Files
  pub cloud : S.Cloud
  pub devices : Params
  pub topo : Option Params

abbrev pub NodeHandler : NodeSetup → Type 0 → Type 0
NodeHandler S A = Action (NodeState S) A

module _ (S : NodeSetup) {A : Type 0} where
  abbrev pub reads : (NodeState S → A) → NodeHandler S A
  reads read w = (done (read w), w)

  unfoldable pub in_cloud : Code → Call S.Cloud A → NodeHandler S A
  unfolding reply_of
  in_cloud code m w = let (r, cloud) = m w.cloud in (reply_of code r, record w { cloud = cloud })

  unfoldable pub try_cloud : Call S.Cloud A → NodeHandler S (Result A)
  try_cloud m w = let (r, cloud) = m w.cloud in (done r, record w { cloud = cloud })

  unfoldable pub in_files :
      Code → (S.platform.Files → Result A × S.platform.Files) → NodeHandler S A
  unfolding reply_of
  in_files code m w = let (r, files) = m w.files in (reply_of code r, record w { files = files })

  -- An operation on the files whose error is only logged.
  unfoldable pub try_files :
      (S.platform.Files → Result A × S.platform.Files) → NodeHandler S (Unit {0})
  try_files m w = (done tt, record w { files = (m w.files).1 })

module _ (S : NodeSetup) where
  abbrev pub set_devices : (Params → Params) → NodeHandler S (Unit {0})
  set_devices change w = (done tt, record w { devices = change w.devices })

abbrev pub mount_info_file_name : String
mount_info_file_name = "mountInfo.json"

module _ (S : NodeSetup) where
  -- getKataDirectVolumeRootPath
  unfoldable pub kata_root : String
  kata_root =
      let path = S.platform.getenv "KATA_DIRECT_VOLUME_ROOT_PATH" in
      if path == "" then "/run/kata-containers/shared/direct-volumes" else path

  -- The directory of a target path's mount info.
  unfoldable pub volume_dir : String → String
  unfolding kata_root
  volume_dir target_path = S.platform.join kata_root (S.encode_name target_path)
