-- ===== src/Controller.antt =====
-- pkg/driver/controllerserver.go: what its handlers share. The messages of the CSI specification
-- keep the fields that the driver reads or fills; a nil message is `none`, and its getters give the
-- zero value.
pub mod Capabilities
pub mod Create
pub mod Delete
pub mod Expand
pub mod Lookup
pub mod Snapshots
use caa_csi_block_driver.Prelude.{String, not, ◌&&◌, Bool, Option, none, some, ◌==◌, if◌then◌else◌}
use caa_csi_block_driver.GoMap.{Params, get, set, entries, has_entries}
use caa_csi_block_driver.Result.{GoError, Result, ok, err, Code, done, not_found, internal}
use caa_csi_block_driver.Platform.{VolumeRecord}
use caa_csi_block_driver.Server.{Setup, World, Handler}
use caa_csi_block_driver.Store.{load, bootstrap_params}
use caa_csi_block_driver.Store.Env.{is_usable}
use caa_csi_block_driver.Store.Recovery.{recover_from_cloud}
use caa_csi_block_driver.Topology.{clone_params}

-- volumeLookupStatus for an error
unfoldable pub volume_lookup_status : GoError → Code
volume_lookup_status e = if e.is_not_exist then not_found else internal

-- deleteProviderParams
unfoldable pub delete_provider_params : VolumeRecord → Params
delete_provider_params rec =
    let params = clone_params rec.params in
    if rec.path == "" then params else set params "cloud-volume-path" rec.path

module _ (S : Setup) where
  -- newControllerServer: recovery at the start, whose failure is only logged.
  unfoldable pub new_controller_server : World S → World S
  new_controller_server w = elim (bootstrap_params S.platform S.dir w.files) [
    | none ↦ w
    | some params ↦ (recover_from_cloud S (some params) w).1
  ]

  reload : String → GoError → World S → Result VolumeRecord × World S
  reload volume_id e w = elim (load S.platform S.dir volume_id w.files) [
    | ok rec ↦ (ok rec, w)
    | err _ ↦ (err e, w)
  ]

  recover_and_load : String → GoError → Option Params → World S → Result VolumeRecord × World S
  recover_and_load volume_id e none w = (err e, w)
  recover_and_load volume_id e (some params) w =
      reload volume_id e (recover_from_cloud S (some params) w).1

  -- The record of a volume, after a recovery if it cannot be loaded. The first error is returned.
  unfoldable pub load_volume_record : String → World S → Result VolumeRecord × World S
  unfolding reload recover_and_load
  load_volume_record volume_id w = elim (load S.platform S.dir volume_id w.files) [
    | ok rec ↦ (ok rec, w)
    | err e ↦ recover_and_load volume_id e (bootstrap_params S.platform S.dir w.files) w
  ]

  -- The same as a step of a handler.
  abbrev pub find_volume : String → Handler S (Result VolumeRecord)
  find_volume volume_id w = let (r, w') = load_volume_record volume_id w in (done r, w')

  -- resolveProviderParams
  unfoldable pub resolve_provider_params : Option Params → S.platform.Files → Option Params
  resolve_provider_params secrets f =
      if is_usable secrets then secrets else bootstrap_params S.platform S.dir f
