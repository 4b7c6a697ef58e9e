-- ===== src/Controller/Expand/Outcomes.antt =====
-- What ControllerExpandVolume returns and leaves behind.
use caa_csi_block_driver.Prelude.{
  ℤ, le_int, le_int_refl, le_int_total, ◌≡◌, ◌≢◌, true, false, arith, ap, inl, inr, Bool-cases, ◌⊎◌,
}
use caa_csi_block_driver.Result.{Result, ok, done}
use caa_csi_block_driver.Platform.{IsLawful, VolumeRecord}
use caa_csi_block_driver.Server.{Setup, World}
use caa_csi_block_driver.Store.{record_path, manifest_path, load, save}
use caa_csi_block_driver.Store.RoundTrip.{load-save}
use caa_csi_block_driver.Controller.{load_volume_record}
use caa_csi_block_driver.Controller.Lookup.{load_volume_record_sound}
use caa_csi_block_driver.Controller.Expand.{ControllerExpandVolumeRequest, controller_expand_volume}

module _ (S : Setup) where
  -- The capacity that is returned is at least the one that was asked for.
  pub controller_expand_volume-enough :
      (req : ControllerExpandVolumeRequest) (w w' : World S) (n : ℤ)
      → controller_expand_volume S req w ≡ (done n, w')
      → le_int req.required_bytes n ≡ true
  unfolding controller_expand_volume
  controller_expand_volume-enough req w w' n h = ground (arith, le_int_refl req.required_bytes)

  -- Where a record is found, there are two cases of an expansion that is reported. Either it returns the
  -- record's capacity, and nothing but the search for the record happened, or the record was too small,
  -- and was saved with the capacity that was asked for and is returned, with no error.
  pub controller_expand_volume-done :
      (req : ControllerExpandVolumeRequest) (w w' : World S) (n : ℤ) (rec : VolumeRecord)
      → controller_expand_volume S req w ≡ (done n, w')
      → (load_volume_record S req.volume_id w).0 ≡ ok rec
      → ((n ≡ rec.capacity_bytes) × (w' ≡ (load_volume_record S req.volume_id w).1))
        ⊎ ((n ≡ req.required_bytes)
            × (le_int req.required_bytes rec.capacity_bytes ≡ false)
            × ((save S.platform S.dir
                  (record rec { capacity_bytes = n })
                  (load_volume_record S req.volume_id w).1.files)
                ≡ (ok tt, w'.files)))
  unfolding controller_expand_volume
  controller_expand_volume-done req w w' n rec h found =
      elim (Bool-cases (le_int req.required_bytes rec.capacity_bytes)) [
        | inl large ↦ inl (ground arith)
        | inr small ↦ inr (ground arith)
      ]

  -- An expansion never makes a volume smaller: what is returned is at least the capacity of the
  -- record that was found.
  pub controller_expand_volume-grows :
      (req : ControllerExpandVolumeRequest) (w w' : World S) (n : ℤ) (rec : VolumeRecord)
      → controller_expand_volume S req w ≡ (done n, w')
      → (load_volume_record S req.volume_id w).0 ≡ ok rec
      → le_int rec.capacity_bytes n ≡ true
  controller_expand_volume-grows req w w' n rec h found =
      elim (controller_expand_volume-done req w w' n rec h found) [
        | inl (same, _) ↦ rw same (le_int_refl rec.capacity_bytes)
        | inr (grown, small, _) ↦
            rw grown (le_int_total req.required_bytes rec.capacity_bytes small)
      ]

  module _ (L : IsLawful S.platform) where
    -- After an expansion that is reported, the volume's record holds the returned capacity and is
    -- otherwise the record that was found.
    -- The record found has the ID of the request, and is not the manifest's file.
    pub load-controller_expand_volume :
        (req : ControllerExpandVolumeRequest) (w w' : World S) (n : ℤ) (rec : VolumeRecord)
        → manifest_path S.platform S.dir ≢ record_path S.platform S.dir req.volume_id
        → rec.volume_id ≡ req.volume_id
        → controller_expand_volume S req w ≡ (done n, w')
        → (load_volume_record S req.volume_id w).0 ≡ ok rec
        → load S.platform S.dir req.volume_id w'.files ≡ ok (record rec { capacity_bytes = n })
    load-controller_expand_volume req w w' n rec apart named h found =
        elim (controller_expand_volume-done req w w' n rec h found) [
          | inl (same, unchanged) ↦
              rw (same, unchanged) (load_volume_record_sound S req.volume_id w rec found)
          | inr (grown, small, saved) ↦
              let f = (load_volume_record S req.volume_id w).1.files in
              rw (← named) (
                rw (ap (λ (r : Result (Unit {0}) × S.platform.Files). r.1) saved) at (
                  load-save S.platform L S.dir (record rec { capacity_bytes = n }) f
                    (rw named apart)
                    (ap (λ (r : Result (Unit {0}) × S.platform.Files). r.0) saved)))
        ]
