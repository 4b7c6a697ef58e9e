-- ===== src/Controller/Delete/Outcomes.antt =====
-- What DeleteVolume leaves behind.
use caa_csi_block_driver.Prelude.{String, ◌≡◌, ◌≢◌, true, false, none, arith, eq_iff, ◌∙◌}
use caa_csi_block_driver.Result.{GoError, ok, err, Code, done, status, failed_precondition}
use caa_csi_block_driver.Platform.{Platform, IsLawful, VolumeRecord}
use caa_csi_block_driver.Server.{Setup, World}
use caa_csi_block_driver.Store.{record_path, manifest_path, load, delete}
use caa_csi_block_driver.Store.RoundTrip.{load-delete_of_gone, load-delete_ne}
use caa_csi_block_driver.Store.{bootstrap_params}
use caa_csi_block_driver.Store.Env.{is_usable}
use caa_csi_block_driver.Controller.{load_volume_record, resolve_provider_params}
use caa_csi_block_driver.Controller.Lookup.{load_volume_record-of_load, load_volume_record-keeps}
use caa_csi_block_driver.Controller.Delete.{DeleteVolumeRequest, delete_volume}

-- A platform on which a removal always leaves no file.
pub record Removes (P : Platform) : Type 0 where
  pub removes :
      (f : P.Files) (p : String)
      → (e : GoError) × (P.read_file (P.remove f p).1 p ≡ err e) × (e.is_not_exist ≡ true)

module _ (S : Setup) where
  -- A deletion that is reported has removed the record from the store as the search for it left it.
  files-delete_volume :
      (req : DeleteVolumeRequest) (w w' : World S)
      → delete_volume S req w ≡ (done tt, w')
      → w'.files
        ≡ delete S.platform S.dir req.volume_id (load_volume_record S req.volume_id w).1.files
  unfolding delete_volume
  files-delete_volume req w w' h = ground arith

  -- If the volume's record is there, then a deletion that fails leaves all files as they were.
  delete_volume-failed :
      (req : DeleteVolumeRequest) (w w' : World S) (rec : VolumeRecord) (code : Code)
      → load S.platform S.dir req.volume_id w.files ≡ ok rec
      → delete_volume S req w ≡ (status code, w')
      → w'.files ≡ w.files
  unfolding delete_volume
  delete_volume-failed req w w' rec code e h =
      ground (arith, load_volume_record-of_load S req.volume_id w rec e)

  -- Without a record, without usable secrets and without parameters for a recovery, a deletion is
  -- refused and nothing is touched: the disk in the cloud is not forgotten.
  delete_volume-refused :
      (req : DeleteVolumeRequest) (w : World S) (e : GoError)
      → req.volume_id ≢ ""
      → load S.platform S.dir req.volume_id w.files ≡ err e
      → is_usable req.secrets ≡ false
      → bootstrap_params S.platform S.dir w.files ≡ none
      → delete_volume S req w ≡ (status failed_precondition, w)
  unfolding delete_volume load_volume_record resolve_provider_params
  delete_volume-refused req w e named missing secrets params =
      ground (arith, eq_iff req.volume_id "")

  module _ (L : IsLawful S.platform) where
    -- On a platform whose removals succeed, a volume whose deletion was reported has no record.
    -- The volume's record is not the manifest's file.
    pub load-delete_volume :
        Removes S.platform
        → (req : DeleteVolumeRequest) (w w' : World S)
        → manifest_path S.platform S.dir ≢ record_path S.platform S.dir req.volume_id
        → delete_volume S req w ≡ (done tt, w')
        → (e : GoError) × (load S.platform S.dir req.volume_id w'.files ≡ err e)
          × (e.is_not_exist ≡ true)
    load-delete_volume R req w w' apart h =
        let before = (load_volume_record S req.volume_id w).1.files in
        let (e, gone, missing) = R.removes before (record_path S.platform S.dir req.volume_id) in
        (
          e,
          rw (files-delete_volume req w w' h)
              (load-delete_of_gone S.platform L S.dir req.volume_id before e apart gone),
          missing,
        )

    -- A deletion that is reported keeps every record of another volume that can be loaded. The records of
    -- the two volumes and the manifest are three files.
    load-delete_volume_ne :
        (req : DeleteVolumeRequest) (w w' : World S) (other : String) (rec : VolumeRecord)
        → manifest_path S.platform S.dir ≢ record_path S.platform S.dir other
        → record_path S.platform S.dir req.volume_id ≢ record_path S.platform S.dir other
        → delete_volume S req w ≡ (done tt, w')
        → load S.platform S.dir other w.files ≡ ok rec
        → load S.platform S.dir other w'.files ≡ ok rec
    load-delete_volume_ne req w w' other rec apart ne h there =
        rw (files-delete_volume req w w' h) (
          load-delete_ne S.platform L S.dir req.volume_id other _ apart ne
          ∙ load_volume_record-keeps S L req.volume_id w other rec apart there)
