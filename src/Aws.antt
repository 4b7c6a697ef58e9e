-- ===== src/Aws.antt =====
-- pkg/provider/aws/provider.go: EBS volumes and snapshots as CSI volumes and snapshots. The EC2
-- client (github.com/aws/aws-sdk-go-v2) is a parameter, a record of its calls. EC2 sets the IDs of
-- volumes and snapshots and the size of a volume, so these pointers of the SDK are values here;
-- other pointers are an `Option`.
pub mod Settings
pub mod Volumes
pub mod Snapshots
pub mod Clone
pub mod Cloud
use caa_csi_block_driver.Prelude.{
  ℕ, ℤ, pos, scale, String, Bool, Option, none, some, List, [], ◌∷◌, ◌==◌, if◌then◌else◌,
}
use caa_csi_block_driver.GoMap.{or_empty}
use caa_csi_block_driver.Result.{Result}
use caa_csi_block_driver.Provider.{Call}
use caa_csi_block_driver.Provider.Pages.{Pager}

abbrev pub default_volume_type : String
default_volume_type = "gp3"

abbrev pub volume_tag_key : String
volume_tag_key = "caa-csi-volume-id"

abbrev pub snapshot_tag_key : String
snapshot_tag_key = "caa-csi-snapshot-id"

pub record Config : Type 0 where
  pub region : String
  pub availability_zone : String
  pub volume_type : String
  pub access_key_id : String
  pub secret_key : String
  pub iops : ℤ
  pub throughput : ℤ
  pub kms_key_id : String

-- ec2types.Tag
pub record Tag : Type 0 where
  pub key : Option String
  pub value : Option String

-- ec2types.Volume
pub record EbsVolume : Type 0 where
  pub ebs_id : String
  pub size : ℤ
  pub availability_zone : Option String
  pub tags : List Tag

-- ec2types.Snapshot; `is_completed` is whether its state is SnapshotStateCompleted
pub record EbsSnapshot : Type 0 where
  pub ebs_id : String
  pub volume_size : Option ℤ
  pub start_time : Option ℤ
  pub is_completed : Bool
  pub tags : List Tag

-- ec2types.Filter with one value
pub record Filter : Type 0 where
  pub name : String
  pub value : String

-- ec2.CreateVolumeInput; `Encrypted` is set exactly where there is a KMS key
pub record CreateVolumeInput : Type 0 where
  pub availability_zone : String
  pub snapshot_id : Option String
  pub size : ℤ
  pub volume_type : String
  pub tags : List Tag
  pub iops : Option ℤ
  pub throughput : Option ℤ
  pub kms_key_id : Option String

-- The calls of an ec2.Client. `describe_volumes` takes filters and `describe_volume_ids` IDs, and
-- both give the first page; the pagers are NewDescribeVolumesPaginator and
-- NewDescribeSnapshotsPaginator. The waiters poll until a volume is available or a snapshot complete.
pub record Ec2 (Cloud : Type 0) : Type 0 where
  pub describe_volumes : Filter → Call Cloud (List EbsVolume)
  pub describe_volume_ids : String → Call Cloud (List EbsVolume)
  pub volume_pages : Filter → Pager Cloud EbsVolume
  pub describe_snapshots : Filter → Call Cloud (List EbsSnapshot)
  pub snapshot_pages : Filter → Pager Cloud EbsSnapshot
  pub create_volume : CreateVolumeInput → Call Cloud String
  pub delete_volume : String → Call Cloud (Unit {0})
  pub modify_volume : String → ℤ → Call Cloud (Unit {0})
  pub create_snapshot : String → List Tag → Call Cloud EbsSnapshot
  pub delete_snapshot : String → Call Cloud (Unit {0})
  pub create_tags : String → List Tag → Call Cloud (Unit {0})
  pub wait_volume_available : String → Call Cloud (Unit {0})
  pub wait_snapshot_completed : String → Call Cloud (Unit {0})

-- AWSProvider
pub record AwsProvider (Cloud : Type 0) : Type 0 where
  pub ec2_client : Ec2 Cloud
  pub config : Config

abbrev pub tag : String → String → Tag
tag key value = record { key = some key; value = some value }

abbrev pub tag_filter : String → String → Filter
tag_filter key value = record { name = key; value = value }

-- The loops over tags: the value of the last tag with a key, or what there was before.
unfoldable pub tag_value : String → String → List Tag → String
tag_value key found [] = found
tag_value key found (t ∷ ts) =
    tag_value key (if or_empty t.key == key then or_empty t.value else found) ts
