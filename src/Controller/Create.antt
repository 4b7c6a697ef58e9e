-- ===== src/Controller/Create.antt =====
-- CreateVolume of pkg/driver/controllerserver.go.
pub mod Outcomes
pub mod Repeat
use caa_csi_block_driver.Prelude.{
  ℤ, pos, eq_int, String, Bool, not, ◌&&◌, ◌||◌, Option, none, some, List, ◌∷◌, [], ◌==◌,
  if◌then◌else◌,
}
use caa_csi_block_driver.GoMap.{Params, get, copy_into, entries}
use caa_csi_block_driver.Result.{
  Result, ok, err, invalid_argument, not_found, already_exists, internal, unimplemented,
}
use caa_csi_block_driver.Provider.{
  VolumeInfo, SnapshotInfo, VolumeCloner, VolumeSnapshotter, BlockVolumeProvider,
  new_block_volume_provider,
}
use caa_csi_block_driver.Platform.{VolumeRecord}
use caa_csi_block_driver.Action.{pure, fail, reject_if, ◌>>=◌, ◌>>◌}
use caa_csi_block_driver.Server.{Setup, Handler, gets, call, on_files}
use caa_csi_block_driver.Store.{load, save}
use caa_csi_block_driver.Topology.{
  TopologyRequirement, clone_params, apply_topology_params, accessible_topology,
}
use caa_csi_block_driver.Controller.Capabilities.{
  VolumeCapability, validate_volume_capabilities, is_empty,
}

-- csi.VolumeContentSource; `unset` has neither of its two kinds.
pub data VolumeContentSource : Type 0 where
  snapshot volume : String → VolumeContentSource
  unset : VolumeContentSource

pub record CreateVolumeRequest : Type 0 where
  pub name : String
  pub volume_capabilities : List VolumeCapability
  pub parameters : Option Params
  pub accessibility_requirements : Option TopologyRequirement
  pub required_bytes : ℤ
  pub volume_content_source : Option VolumeContentSource

-- csi.Volume
pub record Volume : Type 0 where
  pub volume_id : String
  pub capacity_bytes : ℤ
  pub volume_context : Params
  pub accessible_topology : List Params
  pub content_source : Option VolumeContentSource

abbrev is_error {ℓ} : {A : Type ℓ} → Option A → Bool
is_error none = Bool.false
is_error (some e) = Bool.true

-- The storage class's parameters with the topology put in.
unfoldable pub requested_params : CreateVolumeRequest → Params
requested_params req =
    apply_topology_params (clone_params req.parameters) req.accessibility_requirements

-- 1 GiB where the request has no size.
unfoldable pub requested_capacity : CreateVolumeRequest → ℤ
requested_capacity req =
    if eq_int req.required_bytes (pos 0) then pos 1073741824 else req.required_bytes

abbrev lacks_key : Params → Bool
lacks_key params = not (get params "encrypt-type" == "") && get params "kbs-key-id" == ""

-- The response for a volume whose record is there.
unfoldable pub existing_volume : CreateVolumeRequest → VolumeRecord → Volume
existing_volume req rec = record {
  volume_id = req.name;
  capacity_bytes = rec.capacity_bytes;
  volume_context = copy_into (("cloudProvider", rec.provider) ∷ []) (entries rec.params);
  accessible_topology = accessible_topology rec.params;
  content_source = none;
}

-- The record and the response of a new volume.
unfoldable pub new_record : CreateVolumeRequest → VolumeInfo → VolumeRecord
new_record req info = record {
  volume_id = req.name;
  provider = info.provider;
  path = info.path;
  capacity_bytes = requested_capacity req;
  params = some (requested_params req);
}

unfoldable pub created_volume : CreateVolumeRequest → VolumeInfo → Volume
created_volume req info =
    let params = requested_params req in
    record {
      volume_id = req.name;
      capacity_bytes = requested_capacity req;
      volume_context =
          copy_into (copy_into (("cloudProvider", info.provider) ∷ []) params) info.metadata;
      accessible_topology = accessible_topology (some params);
      content_source = req.volume_content_source;
    }

-- The tests that CreateVolume makes before it looks for a record.
unfoldable pub is_malformed : CreateVolumeRequest → Bool
is_malformed req =
    req.name == ""
    || is_empty req.volume_capabilities
    || is_error (validate_volume_capabilities req.volume_capabilities)
    || lacks_key (requested_params req)

module _ (S : Setup) where
  from_cloner_snapshot : Option (VolumeCloner S.Cloud) → String → String → ℤ → Handler S VolumeInfo
  from_cloner_snapshot none name id capacity = fail unimplemented
  from_cloner_snapshot (some cloner) name id capacity =
      call S internal (cloner.create_volume_from_snapshot name id capacity)

  from_found_snapshot :
      Option SnapshotInfo
      → Option (VolumeCloner S.Cloud)
      → String
      → String
      → ℤ
      → Handler S VolumeInfo
  unfolding from_cloner_snapshot
  from_found_snapshot none cloner name id capacity = fail not_found
  from_found_snapshot (some _) cloner name id capacity =
      from_cloner_snapshot cloner name id capacity

  from_snapshot :
      Option (VolumeSnapshotter S.Cloud)
      → Option (VolumeCloner S.Cloud)
      → String
      → String
      → ℤ
      → Handler S VolumeInfo
  unfolding from_found_snapshot
  from_snapshot none cloner name id capacity = fail not_found
  from_snapshot (some snapshotter) cloner name id capacity = do
    found ← call S internal (snapshotter.find_snapshot id)
    from_found_snapshot found cloner name id capacity

  from_cloner_volume : Option (VolumeCloner S.Cloud) → String → String → ℤ → Handler S VolumeInfo
  from_cloner_volume none name id capacity = fail unimplemented
  from_cloner_volume (some cloner) name id capacity =
      call S internal (cloner.create_volume_from_volume name id capacity)

  -- The switch over the content source, and CreateVolume without one.
  unfoldable pub provision :
      BlockVolumeProvider S.Cloud → String → ℤ → Option VolumeContentSource → Handler S VolumeInfo
  unfolding from_snapshot from_cloner_volume
  provision p name capacity none = call S internal (p.create_volume name capacity)
  provision p name capacity (some unset) = fail invalid_argument
  provision p name capacity (some (snapshot id)) =
      from_snapshot p.snapshotter p.cloner name id capacity
  provision p name capacity (some (volume id)) = do
    exists ← call S internal (p.volume_exists id)
    reject_if (not exists) not_found
    from_cloner_volume p.cloner name id capacity

  -- A new volume in the cloud. A record that cannot be saved is only logged.
  unfoldable pub create_new : CreateVolumeRequest → Handler S Volume
  unfolding provision
  create_new req = do
    p ← call S invalid_argument (new_block_volume_provider S.registry (requested_params req))
    info ← provision p req.name (requested_capacity req) req.volume_content_source
    on_files S (save S.platform S.dir (new_record req info))
    pure (created_volume req info)

  create_or_return : CreateVolumeRequest → Result VolumeRecord → Handler S Volume
  unfolding create_new
  create_or_return req (err _) = create_new req
  create_or_return req (ok rec) = do
    reject_if
        (not (eq_int rec.capacity_bytes (pos 0))
          && not (eq_int rec.capacity_bytes (requested_capacity req)))
        already_exists
    pure (existing_volume req rec)

  unfoldable pub create_volume : CreateVolumeRequest → Handler S Volume
  unfolding create_or_return ◌>>=◌ call on_files
  create_volume req = do
    reject_if (req.name == "") invalid_argument
    reject_if (is_empty req.volume_capabilities) invalid_argument
    reject_if (is_error (validate_volume_capabilities req.volume_capabilities)) invalid_argument
    reject_if (lacks_key (requested_params req)) invalid_argument
    found ← gets S (load S.platform S.dir req.name)
    create_or_return req found
