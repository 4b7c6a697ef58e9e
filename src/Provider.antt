-- ===== src/Provider.antt =====
-- pkg/provider/interface.go and pkg/provider/factory.go: what a cloud provider implements, and the
-- registry that picks one. A provider's methods act on the state of the cloud; `ctx` has no
-- counterpart. An optional interface that Go finds by a type assertion is an optional field.
pub mod Calls
pub mod History
pub mod Laws
pub mod Numbers
pub mod Pages
pub mod Specification
use caa_csi_block_driver.Prelude.{
  ℤ, String, Bool, Option, none, some, List, [], ◌∷◌, ◌==◌, if◌then◌else◌,
}
use caa_csi_block_driver.GoMap.{Params, get}
use caa_csi_block_driver.Result.{Result, err, error}

pub record VolumeInfo : Type 0 where
  pub volume_id : String
  pub path : String
  pub size_bytes : ℤ
  pub provider : String
  pub metadata : Params

pub record SnapshotInfo : Type 0 where
  pub snapshot_id : String
  pub source_volume_id : String
  pub size_bytes : ℤ
  pub creation_time : ℤ
  pub ready_to_use : Bool

-- A call of a cloud: what it returns, and the cloud after it.
abbrev pub Call : Type 0 → Type 0 → Type 0
Call Cloud A = Cloud → Result A × Cloud

pub record VolumeExpander (Cloud : Type 0) : Type 0 where
  pub expand_volume : String → ℤ → Call Cloud (Unit {0})

pub record VolumeRecoverer (Cloud : Type 0) : Type 0 where
  pub list_managed_volumes : Call Cloud (List VolumeInfo)

pub record VolumeSnapshotter (Cloud : Type 0) : Type 0 where
  pub create_snapshot : String → String → Call Cloud SnapshotInfo
  pub delete_snapshot : String → Call Cloud (Unit {0})
  pub list_snapshots : String → Call Cloud (List SnapshotInfo)
  pub find_snapshot : String → Call Cloud (Option SnapshotInfo)

pub record VolumeCloner (Cloud : Type 0) : Type 0 where
  pub create_volume_from_snapshot : String → String → ℤ → Call Cloud VolumeInfo
  pub create_volume_from_volume : String → String → ℤ → Call Cloud VolumeInfo

pub record BlockVolumeProvider (Cloud : Type 0) : Type 0 where
  pub create_volume : String → ℤ → Call Cloud VolumeInfo
  pub delete_volume : String → Call Cloud (Unit {0})
  pub get_volume_info : String → Call Cloud VolumeInfo
  pub volume_exists : String → Call Cloud Bool
  pub expander : Option (VolumeExpander Cloud)
  pub recoverer : Option (VolumeRecoverer Cloud)
  pub snapshotter : Option (VolumeSnapshotter Cloud)
  pub cloner : Option (VolumeCloner Cloud)

-- A factory may look at the machine or the cloud, as libvirt's does with its pool directory.
abbrev pub ProviderFactory : Type 0 → Type 0
ProviderFactory Cloud = Params → Call Cloud (BlockVolumeProvider Cloud)

abbrev pub Registry : Type 0 → Type 0
Registry Cloud = List (String × ProviderFactory Cloud)

module _ {Cloud : Type 0} where
  unfoldable pub factory_of : Registry Cloud → String → Option (ProviderFactory Cloud)
  factory_of [] name = none
  factory_of ((n, factory) ∷ r) name = if n == name then some factory else factory_of r name

  -- registry[name] = factory
  unfoldable pub register_provider :
      Registry Cloud → String → ProviderFactory Cloud → Registry Cloud
  register_provider [] name factory = (name, factory) ∷ []
  register_provider ((n, old) ∷ r) name factory =
      if n == name then (name, factory) ∷ r else (n, old) ∷ register_provider r name factory

  abbrev make_provider :
      Option (ProviderFactory Cloud) → Params → Call Cloud (BlockVolumeProvider Cloud)
  make_provider none params cloud = (err (error "unsupported cloud provider"), cloud)
  make_provider (some factory) params cloud = factory params cloud

  unfoldable pub new_block_volume_provider :
      Registry Cloud → Params → Call Cloud (BlockVolumeProvider Cloud)
  unfolding factory_of
  new_block_volume_provider registry params cloud =
      if get params "cloudProvider" == ""
      then (err (error "StorageClass parameter 'cloudProvider' is required"), cloud)
      else make_provider (factory_of registry (get params "cloudProvider")) params cloud
