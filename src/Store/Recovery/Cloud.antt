-- ===== src/Store/Recovery/Cloud.antt =====
-- RecoverFromCloud as a whole: over the provider that its parameters pick.
use caa_csi_block_driver.Prelude.{String, ◌≡◌, ◌≢◌, Option, none, some, arith, inl, inr}
use caa_csi_block_driver.GoMap.{Params, entries}
use caa_csi_block_driver.Result.{Result, ok, err, Result-cases}
use caa_csi_block_driver.Provider.{VolumeRecoverer, BlockVolumeProvider, new_block_volume_provider}
use caa_csi_block_driver.Platform.{IsLawful, VolumeRecord}
use caa_csi_block_driver.Server.{Setup, World}
use caa_csi_block_driver.Store.{record_path, manifest_path, load}
use caa_csi_block_driver.Store.Recovery.{recover_from_cloud, recover_with, recover_provided}
use caa_csi_block_driver.Store.Recovery.Rebuild.{load-recover_listed}

module _ (S : Setup) (L : IsLawful S.platform) where
  load-recover_with :
      (params : Params) (lister : Option (VolumeRecoverer S.Cloud)) (w : World S) (id : String)
      (rec : VolumeRecord)
      → manifest_path S.platform S.dir ≢ record_path S.platform S.dir id
      → load S.platform S.dir id w.files ≡ ok rec
      → load S.platform S.dir id (recover_with S params lister w).1.files ≡ ok rec
  unfolding recover_with
  load-recover_with params none w id rec apart h = h
  load-recover_with params (some lister) w id rec apart h =
      elim (Result-cases (lister.list_managed_volumes w.cloud).0) [
        | inl (vols, e) ↦
            rw (e, recover_with)
              (load-recover_listed S.platform L S.dir _ vols id w.files rec apart h)
        | inr (c, e) ↦ rw (e, recover_with) h
      ]

  load-recover_provided :
      (params : Params) (made : Result (BlockVolumeProvider S.Cloud)) (w : World S) (id : String)
      (rec : VolumeRecord)
      → manifest_path S.platform S.dir ≢ record_path S.platform S.dir id
      → load S.platform S.dir id w.files ≡ ok rec
      → load S.platform S.dir id (recover_provided S params made w).1.files ≡ ok rec
  unfolding recover_provided
  load-recover_provided params (err e) w id rec apart h = h
  load-recover_provided params (ok p) w id rec apart h =
      load-recover_with params p.recoverer w id rec apart h

  -- A record that can be loaded is the same after a recovery, however the recovery ends.
  -- The volume's record is not the manifest's file.
  pub load-recover_from_cloud :
      (params : Option Params) (w : World S) (id : String) (rec : VolumeRecord)
      → manifest_path S.platform S.dir ≢ record_path S.platform S.dir id
      → load S.platform S.dir id w.files ≡ ok rec
      → load S.platform S.dir id (recover_from_cloud S params w).1.files ≡ ok rec
  unfolding recover_from_cloud
  load-recover_from_cloud params w id rec apart h = ground (
    arith,
    load-recover_provided (entries params)
        (new_block_volume_provider S.registry (entries params) w.cloud).0
        (record w { cloud = (new_block_volume_provider S.registry (entries params) w.cloud).1 }) id
        rec apart h,
  )
