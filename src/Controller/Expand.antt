-- ===== src/Controller/Expand.antt =====
-- ControllerExpandVolume of pkg/driver/controllerserver.go. Its response is the capacity; the flag
-- NodeExpansionRequired is always set.
pub mod Outcomes
use caa_csi_block_driver.Prelude.{ℤ, pos, eq_int, le_int, String, Option, none, some, ◌==◌}
use caa_csi_block_driver.Prelude.{true, false}
use caa_csi_block_driver.GoMap.{entries}
use caa_csi_block_driver.Result.{Result, ok, err, invalid_argument, internal, unimplemented}
use caa_csi_block_driver.Provider.{VolumeExpander, new_block_volume_provider}
use caa_csi_block_driver.Platform.{VolumeRecord}
use caa_csi_block_driver.Action.{pure, fail, reject_if, ◌>>=◌, ◌>>◌}
use caa_csi_block_driver.Server.{Setup, Handler, call, on_files}
use caa_csi_block_driver.Store.{save}
use caa_csi_block_driver.Controller.{find_volume, volume_lookup_status}

pub record ControllerExpandVolumeRequest : Type 0 where
  pub volume_id : String
  pub required_bytes : ℤ

module _ (S : Setup) where
  expand_in_cloud : Option (VolumeExpander S.Cloud) → String → ℤ → Handler S (Unit {0})
  expand_in_cloud none volume_id required = fail unimplemented
  expand_in_cloud (some expander) volume_id required =
      call S internal (expander.expand_volume volume_id required)

  saved : ℤ → Result (Unit {0}) → Handler S ℤ
  saved required (err _) = fail internal
  saved required (ok _) = pure required

  grow : ControllerExpandVolumeRequest → VolumeRecord → Handler S ℤ
  unfolding expand_in_cloud saved
  grow req rec = do
    p ← call S internal (new_block_volume_provider S.registry (entries rec.params))
    expand_in_cloud p.expander req.volume_id req.required_bytes
    written ←
        on_files S (save S.platform S.dir (record rec { capacity_bytes = req.required_bytes }))
    saved req.required_bytes written

  expand_found : ControllerExpandVolumeRequest → Result VolumeRecord → Handler S ℤ
  unfolding grow
  expand_found req (err e) = fail (volume_lookup_status e)
  expand_found req (ok rec) = elim (le_int req.required_bytes rec.capacity_bytes) [
    | true ↦ pure rec.capacity_bytes
    | false ↦ grow req rec
  ]

  unfoldable pub controller_expand_volume : ControllerExpandVolumeRequest → Handler S ℤ
  unfolding expand_found ◌>>=◌ call on_files
  controller_expand_volume req = do
    reject_if (req.volume_id == "") invalid_argument
    reject_if (eq_int req.required_bytes (pos 0)) invalid_argument
    found ← find_volume S req.volume_id
    expand_found req found
