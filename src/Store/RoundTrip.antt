-- ===== src/Store/RoundTrip.antt =====
-- What Load finds after Save and Delete, for any platform that keeps its laws.
use caa_csi_block_driver.Prelude.{String, ◌≡◌, ◌≢◌, true, arith}
use caa_csi_block_driver.Result.{GoError, ok, err}
use caa_csi_block_driver.Platform.{Platform, IsLawful, VolumeRecord, VolumeManifest}
use caa_csi_block_driver.Store.{
  record_path, manifest_path, load, save, delete, store_manifest, empty_manifest,
  write_manifest_over, write_manifest, decode_record, save_bytes,
}

module _ (P : Platform) (L : IsLawful P) (dir : String) where
  read-store_manifest :
      (m : VolumeManifest) (f : P.Files) (p : String)
      → manifest_path P dir ≢ p
      → P.read_file (store_manifest P dir m f).1 p ≡ P.read_file f p
  unfolding store_manifest
  read-store_manifest m f p h = grind (arith, L.read-write_ne)

  -- Writing the manifest touches no other file.
  pub read-write_manifest :
      (f : P.Files) (p : String)
      → manifest_path P dir ≢ p
      → P.read_file (write_manifest P dir f).1 p ≡ P.read_file f p
  unfolding write_manifest write_manifest_over empty_manifest
  read-write_manifest f p h = grind (arith, read-store_manifest, L.read-remove_ne)

  -- A record whose Save returns no error is what Load finds, unless its file is the manifest.
  pub load-save :
      (rec : VolumeRecord) (f : P.Files)
      → manifest_path P dir ≢ record_path P dir rec.volume_id
      → (save P dir rec f).0 ≡ ok tt
      → load P dir rec.volume_id (save P dir rec f).1 ≡ ok rec
  unfolding save save_bytes load decode_record
  load-save rec f apart saved = grind (arith, read-write_manifest, L.read-write, L.record_roundtrip)

  -- Where the write of the record succeeds, it is found also if the manifest cannot be written.
  pub load-save_of_write :
      (rec : VolumeRecord) (f : P.Files) (b : P.Bytes)
      → manifest_path P dir ≢ record_path P dir rec.volume_id
      → P.marshal_record rec ≡ ok b
      → (P.write_file f (record_path P dir rec.volume_id) b).0 ≡ ok tt
      → load P dir rec.volume_id (save P dir rec f).1 ≡ ok rec
  unfolding save save_bytes load decode_record
  load-save_of_write rec f b apart m written =
      grind (arith, read-write_manifest, L.read-write, L.record_roundtrip)

  -- Save changes no other volume's record, whether it succeeds or fails.
  -- The records of the two volumes and the manifest are three files.
  pub load-save_ne :
      (rec : VolumeRecord) (f : P.Files) (volume_id : String)
      → manifest_path P dir ≢ record_path P dir volume_id
      → record_path P dir rec.volume_id ≢ record_path P dir volume_id
      → load P dir volume_id (save P dir rec f).1 ≡ load P dir volume_id f
  unfolding save save_bytes load
  load-save_ne rec f volume_id apart ne = grind (arith, read-write_manifest, L.read-write_ne)

  pub load-delete_of_gone :
      (volume_id : String) (f : P.Files) (e : GoError)
      → manifest_path P dir ≢ record_path P dir volume_id
      → P.read_file (P.remove f (record_path P dir volume_id)).1 (record_path P dir volume_id)
        ≡ err e
      → load P dir volume_id (delete P dir volume_id f) ≡ err e
  unfolding delete load decode_record
  load-delete_of_gone volume_id f e apart gone = grind (arith, read-write_manifest)

  -- After a Delete whose removal succeeds, Load fails, with an error that says that the file is
  -- missing.
  -- The volume's record is not the manifest's file.
  load-delete :
      (volume_id : String) (f : P.Files)
      → manifest_path P dir ≢ record_path P dir volume_id
      → (P.remove f (record_path P dir volume_id)).0 ≡ ok tt
      → (e : GoError) × (load P dir volume_id (delete P dir volume_id f) ≡ err e)
        × (e.is_not_exist ≡ true)
  load-delete volume_id f apart removed =
      let (e, gone, missing) = L.read-remove f (record_path P dir volume_id) removed in
      (e, load-delete_of_gone volume_id f e apart gone, missing)

  -- Delete changes no other volume's record.
  -- The records of the two volumes and the manifest are three files.
  pub load-delete_ne :
      (volume_id other : String) (f : P.Files)
      → manifest_path P dir ≢ record_path P dir other
      → record_path P dir volume_id ≢ record_path P dir other
      → load P dir other (delete P dir volume_id f) ≡ load P dir other f
  unfolding delete load
  load-delete_ne volume_id other f apart ne = grind (arith, read-write_manifest, L.read-remove_ne)
