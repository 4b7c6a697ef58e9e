-- ===== src/Azure.antt =====
-- pkg/provider/azure/provider.go: managed disks and their snapshots as CSI volumes and snapshots. The
-- clients of github.com/Azure/azure-sdk-for-go are parameters, records of their calls; a call that
-- begins an operation returns a poller, which is the call that waits for its end. A nil pointer is
-- `none`, a nil `Properties` has no field, and a nil map of tags is an empty one.
pub mod Names
pub mod Settings
pub mod Disks
pub mod Snapshots
pub mod Clone
pub mod Cloud
use caa_csi_block_driver.Prelude.{
  ℤ, pos, scale, String, ◌<>◌, Bool, true, false, Option, none, some, List, [], ◌∷◌, ◌==◌,
  if◌then◌else◌,
}
use caa_csi_block_driver.Result.{GoError}
use caa_csi_block_driver.GoMap.{Params}
use caa_csi_block_driver.Provider.{Call}
use caa_csi_block_driver.Provider.Numbers.{gib}
use caa_csi_block_driver.Provider.Pages.{Pager}

abbrev pub default_disk_sku : String
default_disk_sku = "StandardSSD_LRS"

abbrev pub volume_tag_key : String
volume_tag_key = "caa-csi-volume-id"

abbrev pub snapshot_tag_key : String
snapshot_tag_key = "caa-csi-snapshot-id"

pub record Config : Type 0 where
  pub subscription_id : String
  pub resource_group : String
  pub location : String
  pub disk_sku : String
  pub disk_iops : ℤ
  pub disk_mbps : ℤ
  pub disk_enc_set_id : String

-- map[string]*string
abbrev pub Tags : Type 0
Tags = List (String × Option String)

-- armcompute.Disk, as a client returns it
pub record Disk : Type 0 where
  pub resource_id : Option String
  pub disk_size_gb : Option ℤ
  pub tags : Tags

-- armcompute.Disk, as the driver fills it; a source makes the disk a copy, and no source an empty one
pub record NewDisk : Type 0 where
  pub location : String
  pub sku : String
  pub source_resource_id : Option String
  pub disk_size_gb : ℤ
  pub disk_iops : Option ℤ
  pub disk_mbps : Option ℤ
  pub encryption_set : Option String
  pub tags : Params

-- armcompute.Snapshot, as a client returns it
pub record DiskSnapshot : Type 0 where
  pub name : Option String
  pub disk_size_gb : Option ℤ
  pub time_created : Option ℤ
  pub provisioning_state : Option String
  pub tags : Tags

-- armcompute.Snapshot, as the driver fills it
pub record NewSnapshot : Type 0 where
  pub location : String
  pub source_resource_id : String
  pub tags : Params

-- runtime.Poller
abbrev pub Begin : Type 0 → Type 0 → Type 0
Begin Cloud A = Call Cloud (Call Cloud A)

-- armcompute.DisksClient; every call takes the resource group first
pub record DisksClient (Cloud : Type 0) : Type 0 where
  pub get : String → String → Call Cloud Disk
  pub begin_create_or_update : String → String → NewDisk → Begin Cloud Disk
  pub begin_update : String → String → ℤ → Begin Cloud (Unit {0})
  pub begin_delete : String → String → Begin Cloud (Unit {0})
  pub list_pages : String → Pager Cloud Disk

-- armcompute.SnapshotsClient
pub record SnapshotsClient (Cloud : Type 0) : Type 0 where
  pub get : String → String → Call Cloud DiskSnapshot
  pub begin_create_or_update : String → String → NewSnapshot → Begin Cloud DiskSnapshot
  pub begin_delete : String → String → Begin Cloud (Unit {0})
  pub list_pages : String → Pager Cloud DiskSnapshot

-- AzureProvider
pub record AzureProvider (Cloud : Type 0) : Type 0 where
  pub disks_client : DisksClient Cloud
  pub snapshots_client : SnapshotsClient Cloud
  pub config : Config

-- isNotFound
unfoldable pub is_not_found : GoError → Bool
is_not_found e = e.code == "404"

-- The value of a tag, if there is one that is not nil.
unfoldable pub tag_of : String → Tags → Option String
tag_of key [] = none
tag_of key ((k, v) ∷ tags) = if k == key then v else tag_of key tags

-- A size in GB that may be missing, in bytes.
abbrev pub size_of : Option ℤ → ℤ
size_of none = pos 0
size_of (some n) = scale n gib
