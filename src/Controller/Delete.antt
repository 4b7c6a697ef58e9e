-- ===== src/Controller/Delete.antt =====
-- DeleteVolume of pkg/driver/controllerserver.go.
pub mod Outcomes
use caa_csi_block_driver.Prelude.{String, ◌||◌, Option, none, some, ◌==◌, contains, if◌then◌else◌}
use caa_csi_block_driver.GoMap.{Params}
use caa_csi_block_driver.Result.{
  GoError, Result, ok, err, Code, invalid_argument, failed_precondition, internal,
}
use caa_csi_block_driver.Provider.{new_block_volume_provider}
use caa_csi_block_driver.Platform.{VolumeRecord}
use caa_csi_block_driver.Action.{pure, fail, reject_if, ◌>>=◌, ◌>>◌}
use caa_csi_block_driver.Server.{Setup, Handler, gets, call, attempt, on_files}
use caa_csi_block_driver.Store.{delete}
use caa_csi_block_driver.Controller.{find_volume, delete_provider_params, resolve_provider_params}

pub record DeleteVolumeRequest : Type 0 where
  pub volume_id : String
  pub secrets : Option Params

-- The status for an error of the provider's DeleteVolume.
unfoldable pub delete_status : GoError → Code
delete_status e =
    if contains e.text "attached" || contains e.text "in use" || contains e.text "InUse"
    then failed_precondition
    else internal

module _ (S : Setup) where
  or_precondition : Option Params → Handler S Params
  or_precondition none = fail failed_precondition
  or_precondition (some params) = pure params

  -- The parameters of the volume's record, or those for a volume with no record.
  delete_params : Result VolumeRecord → Option Params → Handler S Params
  unfolding or_precondition
  delete_params (ok rec) secrets = pure (delete_provider_params rec)
  delete_params (err _) secrets = do
    params ← gets S (resolve_provider_params S secrets)
    or_precondition params

  finish_delete : String → Result (Unit {0}) → Handler S (Unit {0})
  finish_delete volume_id (err e) = fail (delete_status e)
  finish_delete volume_id (ok _) = on_files S (λ f. (tt, delete S.platform S.dir volume_id f))

  unfoldable pub delete_volume : DeleteVolumeRequest → Handler S (Unit {0})
  unfolding delete_params finish_delete ◌>>=◌ call attempt on_files
  delete_volume req = do
    reject_if (req.volume_id == "") invalid_argument
    found ← find_volume S req.volume_id
    params ← delete_params found req.secrets
    p ← call S internal (new_block_volume_provider S.registry params)
    deleted ← attempt S (p.delete_volume req.volume_id)
    finish_delete req.volume_id deleted
