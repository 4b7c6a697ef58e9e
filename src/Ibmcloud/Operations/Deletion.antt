-- ===== src/Ibmcloud/Operations/Deletion.antt =====
-- What DeleteVolume of pkg/provider/ibmcloud/provider.go deletes.
use caa_csi_block_driver.Prelude.{
  ℕ, String, ◌≡◌, ◌≢◌, refl, inl, inr, true, Option, none, some, arith, Bool-cases, ◌==◌, eq_iff,
}
use caa_csi_block_driver.Result.{GoError, Result, ok, err, Result-cases, is_volume_not_found}
use caa_csi_block_driver.Provider.{Call}
use caa_csi_block_driver.Provider.Calls.{try, wrapping, ◌>>=◌}
use caa_csi_block_driver.Ibmcloud.{IbmCloudProvider}
use caa_csi_block_driver.Ibmcloud.Volumes.{
  Volume, Session, Packages, zero_volume, check_owned_volume,
}
use caa_csi_block_driver.Ibmcloud.Volumes.Owned.{IsOwned, check_owned_volume_iff}
use caa_csi_block_driver.Ibmcloud.Lookup.{lookup_volume}
use caa_csi_block_driver.Ibmcloud.Operations.{delete_found, delete_volume}

module _ {Cloud : Type 0} (P : Packages) (rounds : ℕ) (p : IbmCloudProvider (Session Cloud)) where
  -- The call that deletes a volume.
  abbrev pub delete_call : Volume → Call Cloud (Unit {0})
  delete_call v =
      wrapping "failed to DeleteVolume via ibmcloud-volume-vpc SDK"
        (p.session.delete_volume (record zero_volume { volume_id = v.volume_id }))

  -- How a deletion goes on from what the lookup gave: a volume that is missing is gone, one that is
  -- not the driver's is left alone, and the driver's is deleted by its native ID.
  pub data Deletes (volume_id : String) (c : Cloud)
      : Result (Option Volume) → Result (Unit {0}) → Cloud → Type 0 where
    missing : {e : GoError} → is_volume_not_found e ≡ true → Deletes volume_id c (err e) (ok tt) c
    refused : {found : Result (Option Volume)} {e : GoError} → Deletes volume_id c found (err e) c
    deleted :
        {v : Volume} {r : Result (Unit {0})} {c' : Cloud}
        → IsOwned P p.config v volume_id
        → v.volume_id ≢ ""
        → delete_call v c ≡ (r, c')
        → Deletes volume_id c (ok (some v)) r c'

  Deletes-delete_found :
      (volume_id : String) (c : Cloud) (found : Result (Option Volume))
      → (let (r, c') = delete_found P rounds p volume_id found c in Deletes volume_id c found r c')
  unfolding delete_found ◌>>=◌
  Deletes-delete_found volume_id c (err e) = elim (Bool-cases (is_volume_not_found e)) [
    | inl gone ↦ rw (gone, delete_found) (missing gone)
    | inr other ↦ rw (other, delete_found) refused
  ]
  Deletes-delete_found volume_id c (ok none) = refused
  Deletes-delete_found volume_id c (ok (some v)) =
      elim (Result-cases (check_owned_volume P p.config v volume_id)) [
        | inr (e, foreign) ↦ rw (foreign, delete_found, ◌>>=◌) refused
        | inl (_, owned) ↦ elim (Bool-cases (v.volume_id == "")) [
          | inl nameless ↦ rw (owned, nameless, delete_found, ◌>>=◌) refused
          | inr native ↦
              rw (owned, native, delete_found, ◌>>=◌)
                (deleted ((check_owned_volume_iff P p.config v volume_id).0 owned)
                  (λ e. ground (arith, eq_iff v.volume_id "")) refl)
        ]
      ]

  -- DeleteVolume calls the cloud's DeleteVolume only for a volume that its lookup found, with a native
  -- ID, the ownership tag of the name and the configuration's marker and settings, and returns what
  -- that call gave; else it makes no call after the lookup, and succeeds only if the lookup failed with
  -- ErrVolumeNotFound.
  pub Deletes-delete_volume :
      (volume_id : String) (c : Cloud)
      → (let (found, c1) = lookup_volume P rounds p volume_id c in
          let (r, c') = delete_volume P rounds p volume_id c in Deletes volume_id c1 found r c')
  unfolding delete_volume ◌>>=◌ try
  Deletes-delete_volume volume_id c =
      let (found, c1) = lookup_volume P rounds p volume_id c in
      Deletes-delete_found volume_id c1 found
