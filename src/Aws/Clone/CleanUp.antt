-- ===== src/Aws/Clone/CleanUp.antt =====
-- The temporary snapshot of CreateVolumeFromVolume in pkg/provider/aws/provider.go.
use caa_csi_block_driver.Prelude.{
  ℤ, String, ◌<>◌, ◌≡◌, refl, inl, inr, ◌⊎◌, ◌≢◌, false, arith, ne→==,
}
use caa_csi_block_driver.Result.{GoError, Result, ok, err, wrap, Result-cases}
use caa_csi_block_driver.Provider.{Call, VolumeInfo, SnapshotInfo}
use caa_csi_block_driver.Provider.Calls.{
  pure, try, wrapping, ◌>>=◌, bind_cases, wrapping_ok, wrapping_err,
}
use caa_csi_block_driver.Aws.{AwsProvider}
use caa_csi_block_driver.Aws.Volumes.{unless_exists, volume_exists}
use caa_csi_block_driver.Aws.Snapshots.{create_snapshot, delete_snapshot, find_ebs_snapshot_id}
use caa_csi_block_driver.Aws.Clone.{
  clean_up_on_error, create_from_volume, create_volume_from_snapshot, create_volume_from_volume,
  temp_tags,
}

module _ {Cloud : Type 0} (p : AwsProvider Cloud) where
  open p use {ec2_client}

  -- A state that DeleteSnapshot has left, whatever came of it.
  abbrev AfterDeletion : String → Cloud → Type 0
  AfterDeletion temp_id c' = (c : Cloud) × ((delete_snapshot p temp_id c).1 ≡ c')

  clean_up_on_error_cases :
      {A : Type 0} (temp_id message : String) (m : Call Cloud A) (c c' : Cloud) (r : Result A)
      → clean_up_on_error p temp_id message m c ≡ (r, c')
      → ((a : A) × (r ≡ ok a) × (m c ≡ (ok a, c')))
        ⊎ ((e : GoError) × (r ≡ err e) × AfterDeletion temp_id c')
  unfolding clean_up_on_error ◌>>=◌ try
  clean_up_on_error_cases temp_id message m c c' r h = elim (Result-cases (m c).0) [
    | inl (a, e) ↦ inl (a, ground arith, ground arith)
    | inr (x, e) ↦ inr (wrap message x, ground arith, ((m c).1, ground arith))
  ]

  -- What comes of a clone by a snapshot that was taken: an error, or a volume that was made from it,
  -- and the deletion of the snapshot as the last step.
  abbrev CleansUp : String → String → SnapshotInfo → ℤ → Result VolumeInfo → Cloud → Type 0
  CleansUp temp_id volume_id snap size_bytes r c' =
      ((e : GoError) × (r ≡ err e) × AfterDeletion temp_id c')
      ⊎ ((info : VolumeInfo) × (c1 : Cloud) × (c2 : Cloud) × (create_volume_from_snapshot p
              volume_id snap.snapshot_id size_bytes c1
            ≡ (ok info, c2))
          × (r ≡ ok info)
          × ((delete_snapshot p temp_id c2).1 ≡ c'))

  CleansUp-clone :
      (temp_id volume_id : String) (snap : SnapshotInfo) (size_bytes : ℤ) (c c' : Cloud)
      (r : Result VolumeInfo)
      → (clean_up_on_error p temp_id "creating volume from temp snapshot"
              (create_volume_from_snapshot p volume_id snap.snapshot_id size_bytes)
            >>= λ (info : VolumeInfo).
                try (delete_snapshot p temp_id) >>= λ (_ : Result (Unit {0})). pure info)
          c
        ≡ (r, c')
      → CleansUp temp_id volume_id snap size_bytes r c'
  unfolding ◌>>=◌ try
  CleansUp-clone temp_id volume_id snap size_bytes c c' r h =
      let message : String = "creating volume from temp snapshot" in
      let make = create_volume_from_snapshot p volume_id snap.snapshot_id size_bytes in
      let step = clean_up_on_error p temp_id message make in
      elim (bind_cases step
        (λ (info : VolumeInfo).
          try (delete_snapshot p temp_id) >>= λ (_ : Result (Unit {0})). pure info)
        c h) [
          | inl (info, c2, made, rest) ↦
              elim (clean_up_on_error_cases temp_id message make c c2 (ok info) made) [
                | inl (a, same, cloned) ↦
                    let e : info ≡ a = ground arith in
                    inr (info, c, c2, rw e cloned, ground arith, ground arith)
                | inr (x, bad, _) ↦ absurd (ground arith)
              ]
          | inr (e, failed, bad) ↦
              elim (clean_up_on_error_cases temp_id message make c c' (err e) failed) [
                | inl (a, good, _) ↦ absurd (ground arith)
                | inr (x, _, deleted) ↦ inl (e, bad, deleted)
              ]
        ]

  -- The first step of a clone that is to be made, and what came of the snapshot.
  abbrev pub Clones : String → String → String → ℤ → Cloud → Result VolumeInfo → Cloud → Type 0
  Clones temp_id volume_id source_id size_bytes c r c' =
      ((x : GoError) × (e : GoError) × (create_snapshot p source_id temp_id c ≡ (err x, c'))
        × (r ≡ err e))
      ⊎ ((snap : SnapshotInfo) × (c1 : Cloud) × (create_snapshot p source_id temp_id c
            ≡ (ok snap, c1))
          × CleansUp temp_id volume_id snap size_bytes r c')

  Clones-create_from_volume :
      (ttl volume_id source_id : String) (size_bytes : ℤ) (c c' : Cloud) (r : Result VolumeInfo)
      → create_from_volume p ttl volume_id source_id size_bytes c ≡ (r, c')
      → Clones ("clone-" <> volume_id) volume_id source_id size_bytes c r c'
  unfolding create_from_volume ◌>>=◌ try
  Clones-create_from_volume ttl volume_id source_id size_bytes c c' r h =
      let temp_id : String = "clone-" <> volume_id in
      let taking : String = "creating temp snapshot for clone" in
      let resolving : String = "failed to resolve EBS snapshot ID for " <> temp_id in
      let make : SnapshotInfo → String → Call Cloud VolumeInfo = λ snap snap_id.
        try (ec2_client.create_tags snap_id (temp_tags ttl)) >>= λ (_ : Result (Unit {0})).
        try (ec2_client.wait_snapshot_completed snap_id) >>= λ (_ : Result (Unit {0})).
        clean_up_on_error p temp_id "creating volume from temp snapshot"
          (create_volume_from_snapshot p volume_id snap.snapshot_id size_bytes)
        >>= λ (info : VolumeInfo).
            try (delete_snapshot p temp_id) >>= λ (_ : Result (Unit {0})). pure info in
      let resolve = clean_up_on_error p temp_id resolving (find_ebs_snapshot_id p temp_id) in
      elim (bind_cases (wrapping taking (create_snapshot p source_id temp_id))
        (λ (snap : SnapshotInfo). resolve >>= make snap) c h) [
          | inr (e, failed, bad) ↦
              let (x, not_taken) =
                wrapping_err taking (create_snapshot p source_id temp_id) c failed in
              inl (x, e, not_taken, bad)
          | inl (snap, c1, taken, rest) ↦
              let got = wrapping_ok taking (create_snapshot p source_id temp_id) c taken in
              elim (bind_cases resolve (make snap) c1 rest) [
                | inr (e, failed, bad) ↦
                    elim (clean_up_on_error_cases temp_id resolving (find_ebs_snapshot_id p temp_id)
                      c1 c' (err e) failed) [
                        | inl (a, good, _) ↦ absurd (ground arith)
                        | inr (x, _, deleted) ↦ inr (snap, c1, got, inl (e, bad, deleted))
                      ]
                | inl (snap_id, c2, found, last) ↦
                    let tagged = (ec2_client.create_tags snap_id (temp_tags ttl) c2).1 in
                    let waited = (ec2_client.wait_snapshot_completed snap_id tagged).1 in
                    inr (
                      snap,
                      c1,
                      got,
                      CleansUp-clone temp_id volume_id snap size_bytes waited c' r last,
                    )
              ]
        ]

  -- CreateVolumeFromVolume leaves no temporary snapshot without an attempt to delete it: with a zone,
  -- and of a volume that does not exist yet, the clone either fails since the snapshot could not be
  -- taken, and makes no further call, or takes the snapshot and ends with the call of DeleteSnapshot
  -- on it, after an error as well as after a volume was made from the snapshot, whose info it returns.
  pub Clones-create_volume_from_volume :
      (ttl volume_id source_id : String) (size_bytes : ℤ) (c c1 : Cloud)
      → p.config.availability_zone ≢ ""
      → volume_exists p volume_id c ≡ (ok false, c1)
      → (let (r, c') = create_volume_from_volume p ttl volume_id source_id size_bytes c in
          Clones ("clone-" <> volume_id) volume_id source_id size_bytes c1 r c')
  unfolding create_volume_from_volume unless_exists ◌>>=◌
  Clones-create_volume_from_volume ttl volume_id source_id size_bytes c c1 zone missing =
      Clones-create_from_volume ttl volume_id source_id size_bytes c1 _ _
        (rw (ne→== p.config.availability_zone "" zone, missing) refl)
