-- ===== src/Ibmcloud/Recovery.antt =====
-- ListManagedVolumes of pkg/provider/ibmcloud/provider.go, and what IBMCloudProvider implements.
pub mod Managed
use caa_csi_block_driver.Prelude.{
  ℕ, String, Bool, false, not, ◌||◌, Option, none, some, List, [], ◌∷◌, ◌==◌, if◌then◌else◌,
  cut_prefix,
}
use caa_csi_block_driver.Result.{ok, err}
use caa_csi_block_driver.Provider.{Call, VolumeInfo, BlockVolumeProvider}
use caa_csi_block_driver.Provider.Calls.{pure, wrapping, ◌>>=◌}
use caa_csi_block_driver.Provider.Pages.{collect}
use caa_csi_block_driver.Ibmcloud.{IbmCloudProvider, ownership_tag_prefix}
use caa_csi_block_driver.Ibmcloud.Volumes.{
  Volume, Session, Packages, check_owned_volume, volume_info,
}
use caa_csi_block_driver.Ibmcloud.Listing.{list_volumes}
use caa_csi_block_driver.Ibmcloud.Operations.{
  create_volume, delete_volume, get_volume_info, volume_exists, expand_volume,
}

-- The loop over the tags of a volume without a name: the last ID of an ownership tag, unless one came
-- before it.
unfoldable pub owner_of : String → Bool → List String → Option String
owner_of name ambiguous [] = if name == "" || ambiguous then none else some name
owner_of name ambiguous (tag ∷ tags) = elim (cut_prefix tag ownership_tag_prefix) [
  | none ↦ owner_of name ambiguous tags
  | some id ↦ owner_of id (ambiguous || not (name == "")) tags
]

module _ {Cloud : Type 0} (P : Packages) (rounds : ℕ) (p : IbmCloudProvider (Session Cloud)) where
  open p use {session, config}

  -- The info of a volume of the driver's that can be used.
  unfoldable pub owned_info : Volume → String → Option VolumeInfo
  unfolding check_owned_volume volume_info
  owned_info v name = elim (check_owned_volume P config v name) [
    | err _ ↦ none
    | ok _ ↦ elim (volume_info (some v)) [ err _ ↦ none | ok info ↦ some info ]
  ]

  -- The body of ListManagedVolumes' loop.
  unfoldable pub managed_volume : Option Volume → Option VolumeInfo
  unfolding owner_of owned_info
  managed_volume none = none
  managed_volume (some v) = elim v.name [
    | some name ↦ owned_info v name
    | none ↦ elim (owner_of "" false v.tags) [
      | none ↦ none
      | some name ↦ owned_info (record v { name = some name }) name
    ]
  ]

  unfoldable pub list_managed_volumes : Call Cloud (List VolumeInfo)
  unfolding list_volumes managed_volume collect ◌>>=◌ wrapping
  list_managed_volumes = do
    volumes ← wrapping "failed to ListVolumes" (
        list_volumes session
          (("resource_group.id", config.resource_group) ∷ ("zone.name", config.zone) ∷ []) rounds)
    pure (collect managed_volume volumes)

  -- What IBMCloudProvider implements: it makes no snapshots and no clones.
  abbrev pub block_volume_provider : BlockVolumeProvider Cloud
  block_volume_provider = record {
    create_volume = create_volume P rounds p;
    delete_volume = delete_volume P rounds p;
    get_volume_info = get_volume_info P rounds p;
    volume_exists = volume_exists P rounds p;
    expander = some (record { expand_volume = expand_volume P rounds p });
    recoverer = some (record { list_managed_volumes = list_managed_volumes });
    snapshotter = none;
    cloner = none;
  }
