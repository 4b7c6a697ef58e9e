-- ===== src/Store/Recovery.antt =====
-- RecoverFromCloud of pkg/driver/volumestore.go: missing volume records are rebuilt from the volumes
-- that the cloud lists.
pub mod Cloud
pub mod Rebuild
use caa_csi_block_driver.Prelude.{
  ℕ, ◌+◌, String, Bool, true, false, ltb, Option, none, some, List, [], ◌∷◌, ◌==◌, if◌then◌else◌,
}
use caa_csi_block_driver.GoMap.{Params, get, entries}
use caa_csi_block_driver.Result.{Result, ok, err, wrap}
use caa_csi_block_driver.Provider.{
  VolumeInfo, VolumeRecoverer, BlockVolumeProvider, new_block_volume_provider,
}
use caa_csi_block_driver.Platform.{Platform, VolumeRecord}
use caa_csi_block_driver.Server.{Setup, World}
use caa_csi_block_driver.Store.{record_path, write_manifest}
use caa_csi_block_driver.Store.Env.{sanitize_persistable_params}

-- The record of a volume that the cloud lists.
abbrev pub recovered_record : Params → VolumeInfo → VolumeRecord
recovered_record params vol = record {
  volume_id = vol.volume_id;
  provider = vol.provider;
  path = vol.path;
  capacity_bytes = vol.size_bytes;
  params = some params;
}

module _ (P : Platform) (dir : String) where
  write_recovered : Params → VolumeInfo → P.Files → Bool × P.Files
  write_recovered params vol f = elim (P.marshal_record (recovered_record params vol)) [
    | err _ ↦ (false, f)
    | ok bytes ↦
        let (written, f') = P.write_file f (record_path P dir vol.volume_id) bytes in
        elim written [ err _ ↦ (false, f') | ok _ ↦ (true, f') ]
  ]

  -- One round of the loop, and whether it recovered a volume. Only a missing file is written.
  unfoldable pub recover_volume : Params → VolumeInfo → P.Files → Bool × P.Files
  unfolding write_recovered
  recover_volume params vol f =
      if vol.volume_id == ""
      then (false, f)
      else elim (P.stat f (record_path P dir vol.volume_id)) [
        | ok _ ↦ (false, f)
        | err e ↦ if e.is_not_exist then write_recovered params vol f else (false, f)
      ]

  -- The loop over the listed volumes, with the count of those recovered.
  unfoldable pub recover_volumes : Params → List VolumeInfo → ℕ → P.Files → ℕ × P.Files
  recover_volumes params [] recovered f = (recovered, f)
  recover_volumes params (vol ∷ vols) recovered f =
      let (found, f') = recover_volume params vol f in
      recover_volumes params vols (if found then recovered + 1 else recovered) f'

  unfoldable pub recover_listed : Params → List VolumeInfo → P.Files → P.Files
  recover_listed params vols f =
      let (recovered, f') = recover_volumes params vols 0 f in
      if ltb 0 recovered then (write_manifest P dir f').1 else f'

module _ (S : Setup) where
  recover_with : Params → Option (VolumeRecoverer S.Cloud) → World S → Result (Unit {0}) × World S
  recover_with params none w = (ok tt, w)
  recover_with params (some lister) w =
      let (listed, cloud) = lister.list_managed_volumes w.cloud in
      elim listed [
        | err e ↦ (err (wrap "listing managed volumes from cloud" e), record w { cloud = cloud })
        | ok vols ↦ (
          ok tt,
          record {
            files =
                recover_listed S.platform S.dir (sanitize_persistable_params params) vols w.files;
            cloud = cloud;
          },
        )
      ]

  recover_provided :
      Params → Result (BlockVolumeProvider S.Cloud) → World S → Result (Unit {0}) × World S
  unfolding recover_with
  recover_provided params (err e) w = (err (wrap "creating provider for recovery" e), w)
  recover_provided params (ok p) w = recover_with params p.recoverer w

  unfoldable pub recover_from_cloud : Option Params → World S → Result (Unit {0}) × World S
  unfolding recover_provided
  recover_from_cloud params w =
      if get (entries params) "cloudProvider" == ""
      then (ok tt, w)
      else let (made, cloud) = new_block_volume_provider S.registry (entries params) w.cloud in
        recover_provided (entries params) made (record w { cloud = cloud })
