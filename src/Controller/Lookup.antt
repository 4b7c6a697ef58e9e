-- ===== src/Controller/Lookup.antt =====
-- How the handlers find a volume's record.
use caa_csi_block_driver.Prelude.{String, ◌≡◌, ◌≢◌, Option, none, some, arith, inl, inr}
use caa_csi_block_driver.GoMap.{Params}
use caa_csi_block_driver.Result.{GoError, ok, Result-cases}
use caa_csi_block_driver.Platform.{IsLawful, VolumeRecord}
use caa_csi_block_driver.Server.{Setup, World}
use caa_csi_block_driver.Store.{record_path, manifest_path, load}
use caa_csi_block_driver.Store.Recovery.Cloud.{load-recover_from_cloud}
use caa_csi_block_driver.Controller.{load_volume_record, reload, recover_and_load}

module _ (S : Setup) where
  -- A record that is there is returned, and nothing is touched.
  pub load_volume_record-of_load :
      (id : String) (w : World S) (rec : VolumeRecord)
      → load S.platform S.dir id w.files ≡ ok rec
      → load_volume_record S id w ≡ (ok rec, w)
  unfolding load_volume_record
  load_volume_record-of_load id w rec h = ground arith

  reload_sound :
      (id : String) (e : GoError) (w : World S) (rec : VolumeRecord)
      → (reload S id e w).0 ≡ ok rec
      → load S.platform S.dir id (reload S id e w).1.files ≡ ok rec
  unfolding reload
  reload_sound id e w rec h = ground arith

  recover_and_load_sound :
      (id : String) (e : GoError) (params : Option Params) (w : World S) (rec : VolumeRecord)
      → (recover_and_load S id e params w).0 ≡ ok rec
      → load S.platform S.dir id (recover_and_load S id e params w).1.files ≡ ok rec
  unfolding recover_and_load
  recover_and_load_sound id e none w rec h = cc
  recover_and_load_sound id e (some params) w rec h = reload_sound id e _ rec h

  -- A record that is returned is the one in the store then.
  pub load_volume_record_sound :
      (id : String) (w : World S) (rec : VolumeRecord)
      → (load_volume_record S id w).0 ≡ ok rec
      → load S.platform S.dir id (load_volume_record S id w).1.files ≡ ok rec
  unfolding load_volume_record
  load_volume_record_sound id w rec h = elim (Result-cases (load S.platform S.dir id w.files)) [
    | inl (r, e) ↦ ground arith
    | inr (c, e) ↦
        rw (e, load_volume_record)
          (recover_and_load_sound id c _ w rec (rw (e, load_volume_record) at h))
  ]

  module _ (L : IsLawful S.platform) where
    files-reload : (id : String) (e : GoError) (w : World S) → (reload S id e w).1 ≡ w
    unfolding reload
    files-reload id e w = ground arith

    recover_and_load-keeps :
        (id : String) (e : GoError) (params : Option Params) (w : World S) (other : String)
        (rec : VolumeRecord)
        → manifest_path S.platform S.dir ≢ record_path S.platform S.dir other
        → load S.platform S.dir other w.files ≡ ok rec
        → load S.platform S.dir other (recover_and_load S id e params w).1.files ≡ ok rec
    unfolding recover_and_load
    recover_and_load-keeps id e none w other rec apart h = h
    recover_and_load-keeps id e (some params) w other rec apart h =
        rw files-reload (load-recover_from_cloud S L (some params) w other rec apart h)

    -- Looking for a volume loses no record.
    pub load_volume_record-keeps :
        (id : String) (w : World S) (other : String) (rec : VolumeRecord)
        → manifest_path S.platform S.dir ≢ record_path S.platform S.dir other
        → load S.platform S.dir other w.files ≡ ok rec
        → load S.platform S.dir other (load_volume_record S id w).1.files ≡ ok rec
    unfolding load_volume_record
    load_volume_record-keeps id w other rec apart h =
        elim (Result-cases (load S.platform S.dir id w.files)) [
          | inl (r, e) ↦ rw (e, load_volume_record) h
          | inr (c, e) ↦
              rw (e, load_volume_record) (recover_and_load-keeps id c _ w other rec apart h)
        ]
