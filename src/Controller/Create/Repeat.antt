-- ===== src/Controller/Create/Repeat.antt =====
-- CreateVolume is idempotent: a repeated request is answered from the record, and touches nothing.
use caa_csi_block_driver.Prelude.{
  eq_int_refl, ◌≡◌, ◌≢◌, refl, sym, ◌∙◌, false, arith, inl, inr, ◌⊎◌, Bool-cases,
}
use caa_csi_block_driver.Result.{GoError, ok, err, Result-cases, done}
use caa_csi_block_driver.Provider.{VolumeInfo}
use caa_csi_block_driver.Platform.{IsLawful, VolumeRecord}
use caa_csi_block_driver.Server.{Setup, World}
use caa_csi_block_driver.Store.{record_path, manifest_path, load}
use caa_csi_block_driver.Store.RoundTrip.{load-save_of_write}
use caa_csi_block_driver.Store.Recovery.Rebuild.{Writes}
use caa_csi_block_driver.Controller.Create.{
  CreateVolumeRequest, Volume, create_volume, is_malformed, existing_volume, created_volume,
  new_record, requested_capacity,
}
use caa_csi_block_driver.Controller.Create.Outcomes.{
  create_volume-malformed, create_volume-of_load, create_volume-of_missing, IsCreated,
  create_new-Ensures,
}

-- Two responses that a caller can use for one another.
pub record SameVolume (u v : Volume) : Type 0 where
  pub id : u.volume_id ≡ v.volume_id
  pub capacity : u.capacity_bytes ≡ v.capacity_bytes
  pub topology : u.accessible_topology ≡ v.accessible_topology

-- The response for the record of a volume agrees with the one that its creation gave.
existing_volume-new_record :
    (req : CreateVolumeRequest) (info : VolumeInfo)
    → SameVolume (existing_volume req (new_record req info)) (created_volume req info)
unfolding existing_volume new_record created_volume
existing_volume-new_record req info = record { id = refl; capacity = refl; topology = refl }

module _ (S : Setup) where
  existing_done :
      (req : CreateVolumeRequest) (w w' : World S) (v : Volume) (rec : VolumeRecord)
      → is_malformed req ≡ false
      → load S.platform S.dir req.name w.files ≡ ok rec
      → create_volume S req w ≡ (done v, w')
      → (v ≡ existing_volume req rec) × (w' ≡ w)
  existing_done req w w' v rec good e h = ground (arith, create_volume-of_load S req w rec good e)

  pub create_volume-done :
      (req : CreateVolumeRequest) (w w' : World S) (v : Volume)
      → create_volume S req w ≡ (done v, w')
      → (is_malformed req ≡ false)
        × (((rec : VolumeRecord) × (load S.platform S.dir req.name w.files ≡ ok rec)
              × ((v ≡ existing_volume req rec) × (w' ≡ w)))
            ⊎ ((e : GoError) × (load S.platform S.dir req.name w.files ≡ err e)
                × IsCreated S req w v w'))
  create_volume-done req w w' v h = elim (Bool-cases (is_malformed req)) [
    | inl bad ↦ absurd (cc (create_volume-malformed S req w bad))
    | inr good ↦ elim (Result-cases (load S.platform S.dir req.name w.files)) [
      | inl (rec, e) ↦ (good, inl (rec, e, existing_done req w w' v rec good e h))
      | inr (c, e) ↦ (
        good,
        inr (
          c,
          e,
          (create_new-Ensures S req).at w w' v
              (sym (create_volume-of_missing S req w c good e) ∙ h),
        ),
      )
    ]
  ]

  module _ (L : IsLawful S.platform) (W : Writes S.platform) where
    -- The record of a volume that was made is in the store.
    pub load-IsCreated :
        (req : CreateVolumeRequest) (w w' : World S) (v : Volume)
        → manifest_path S.platform S.dir ≢ record_path S.platform S.dir req.name
        → (c : IsCreated S req w v w')
        → load S.platform S.dir req.name w'.files ≡ ok (new_record req c.info)
    unfolding new_record
    load-IsCreated req w w' v apart c =
        let (b, m) = W.marshals (new_record req c.info) in
        rw c.kept (
          load-save_of_write S.platform L S.dir (new_record req c.info) w.files b apart m
            (W.writes _ _ b))

    repeat_created :
        (req : CreateVolumeRequest) (w w' : World S) (v : Volume)
        → is_malformed req ≡ false
        → manifest_path S.platform S.dir ≢ record_path S.platform S.dir req.name
        → (c : IsCreated S req w v w')
        → create_volume S req w' ≡ (done (existing_volume req (new_record req c.info)), w')
    unfolding new_record
    repeat_created req w w' v good apart c =
        create_volume-of_load S req w' _ good (load-IsCreated req w w' v apart c)
        ∙ ground (arith, eq_int_refl (requested_capacity req))

    -- On a platform whose writes succeed, a request that was answered is answered again, with the
    -- same volume, capacity and topology, and the files and the cloud stay as they are.
    -- The volume's record is not the manifest's file.
    pub create_volume-repeat :
        (req : CreateVolumeRequest) (w w' : World S) (v : Volume)
        → manifest_path S.platform S.dir ≢ record_path S.platform S.dir req.name
        → create_volume S req w ≡ (done v, w')
        → (u : Volume) × (create_volume S req w' ≡ (done u, w')) × SameVolume u v
    create_volume-repeat req w w' v apart h = elim (create_volume-done req w w' v h).1 [
      | inl (rec, e, (response, same)) ↦
          (v, rw same (rw same at h), record { id = refl; capacity = refl; topology = refl })
      | inr (_, _, c) ↦ (
        existing_volume req (new_record req c.info),
        repeat_created req w w' v (create_volume-done req w w' v h).0 apart c,
        rw c.response (existing_volume-new_record req c.info),
      )
    ]
