-- ===== src/Azure/Snapshots.antt =====
-- The snapshots of pkg/provider/azure/provider.go: CreateSnapshot, DeleteSnapshot, ListSnapshots and
-- FindSnapshot.
use caa_csi_block_driver.Prelude.{
  ℕ, ℤ, pos, String, ◌<>◌, Bool, false, ◌&&◌, ◌||◌, Option, none, some, List, [], ◌∷◌, ◌==◌,
  starts_with, if◌then◌else◌,
}
use caa_csi_block_driver.GoMap.{or_empty}
use caa_csi_block_driver.Result.{Result, ok, err, error, wrap}
use caa_csi_block_driver.Provider.{Call, SnapshotInfo}
use caa_csi_block_driver.Provider.Calls.{pure, fail, try, wrapping, reject_if, ◌>>=◌, ◌>>◌}
use caa_csi_block_driver.Provider.Pages.{list_pages}
use caa_csi_block_driver.Azure.{
  Config, DiskSnapshot, NewSnapshot, AzureProvider, is_not_found, tag_of, size_of, volume_tag_key,
  snapshot_tag_key,
}
use caa_csi_block_driver.Azure.Names.{disk_name, snap_name, snap_name_prefix}
use caa_csi_block_driver.Azure.Disks.{finish, id_or_error}

abbrev seconds_of : Option ℤ → ℤ
seconds_of none = pos 0
seconds_of (some t) = t

abbrev has_succeeded : Option String → Bool
has_succeeded none = false
has_succeeded (some state) = state == "Succeeded"

-- The info of a snapshot that Azure describes.
unfoldable pub snapshot_info : String → String → DiskSnapshot → SnapshotInfo
snapshot_info volume_id snapshot_id s = record {
  snapshot_id = snapshot_id;
  source_volume_id = volume_id;
  size_bytes = size_of s.disk_size_gb;
  creation_time = seconds_of s.time_created;
  ready_to_use = has_succeeded s.provisioning_state;
}

abbrev has_snap_prefix : Option String → Bool
has_snap_prefix none = false
has_snap_prefix (some name) = starts_with name snap_name_prefix

-- Whether a listing of a volume's snapshots, or of all, has room for a source.
abbrev is_of : String → Option String → Bool
is_of volume_id none = volume_id == ""
is_of volume_id (some source) = volume_id == "" || source == volume_id

abbrev info_if : Bool → Option String → DiskSnapshot → Option SnapshotInfo
info_if wanted none s = none
info_if wanted (some snapshot_id) s =
    if wanted
    then some (snapshot_info (or_empty (tag_of volume_tag_key s.tags)) snapshot_id s)
    else none

-- The body of ListSnapshots' inner loop.
unfoldable pub listed_snapshot : String → DiskSnapshot → Option SnapshotInfo
listed_snapshot volume_id s =
    info_if (has_snap_prefix s.name && is_of volume_id (tag_of volume_tag_key s.tags))
      (tag_of snapshot_tag_key s.tags) s

unfoldable pub new_snapshot : Config → String → String → String → NewSnapshot
new_snapshot cfg source volume_id snapshot_id = record {
  location = cfg.location;
  source_resource_id = source;
  tags = (volume_tag_key, volume_id) ∷ (snapshot_tag_key, snapshot_id) ∷ [];
}

module _ {Cloud : Type 0} (p : AzureProvider Cloud) where
  open p use {disks_client, snapshots_client, config}

  unfoldable pub create_snapshot : String → String → Call Cloud SnapshotInfo
  unfolding finish id_or_error ◌>>=◌ wrapping
  create_snapshot volume_id snapshot_id = do
    let source = disk_name volume_id
    let name = snap_name snapshot_id
    reject_if (config.location == "") (error "azureLocation is required to create snapshots")
    d ←
        wrapping ("cannot find source disk " <> source)
          (disks_client.get config.resource_group source)
    source_id ← id_or_error source d.resource_id
    s ←
        finish ("failed to begin creating snapshot " <> name) ("failed to create snapshot " <> name)
          (snapshots_client.begin_create_or_update config.resource_group name
            (new_snapshot config source_id volume_id snapshot_id))
    pure (snapshot_info volume_id snapshot_id s)

  -- A snapshot that is not there is deleted.
  finish_delete : String → Result (Call Cloud (Unit {0})) → Call Cloud (Unit {0})
  unfolding wrapping
  finish_delete name (err e) =
      if is_not_found e
      then pure tt
      else fail (wrap ("failed to begin deleting snapshot " <> name) e)
  finish_delete name (ok poller) = wrapping ("failed to delete snapshot " <> name) poller

  unfoldable pub delete_snapshot : String → Call Cloud (Unit {0})
  unfolding finish_delete ◌>>=◌ try
  delete_snapshot snapshot_id = do
    begun ← try (snapshots_client.begin_delete config.resource_group (snap_name snapshot_id))
    finish_delete (snap_name snapshot_id) begun

  unfoldable pub list_snapshots : ℕ → String → Call Cloud (List SnapshotInfo)
  unfolding wrapping
  list_snapshots pages volume_id = wrapping "listing snapshots" (
      list_pages (listed_snapshot volume_id) pages
        (snapshots_client.list_pages config.resource_group) none)

  found_info : String → Result DiskSnapshot → Call Cloud (Option SnapshotInfo)
  found_info snapshot_id (ok s) =
      pure (some (snapshot_info (or_empty (tag_of volume_tag_key s.tags)) snapshot_id s))
  found_info snapshot_id (err e) =
      if is_not_found e
      then pure none
      else fail (wrap ("failed to get snapshot " <> snap_name snapshot_id) e)

  unfoldable pub find_snapshot : String → Call Cloud (Option SnapshotInfo)
  unfolding found_info ◌>>=◌ try
  find_snapshot snapshot_id = do
    got ← try (snapshots_client.get config.resource_group (snap_name snapshot_id))
    found_info snapshot_id got
