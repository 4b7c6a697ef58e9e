-- ===== src/Ibmcloud/Operations/Creation.antt =====
-- What CreateVolume of pkg/provider/ibmcloud/provider.go returns.
use caa_csi_block_driver.Prelude.{
  ℕ, ℤ, le_int, le_int_trans, String, ◌≡◌, ◌≢◌, refl, ◌∙◌, sym, inl, inr, true, Option, none, some,
  arith, Bool-cases, ◌==◌, eq_iff,
}
use caa_csi_block_driver.Result.{Result, ok, err, Result-cases, is_volume_not_found}
use caa_csi_block_driver.Provider.{VolumeInfo}
use caa_csi_block_driver.Provider.Calls.{returning, try, bind_ok, ◌>>=◌}
use caa_csi_block_driver.Ibmcloud.{IbmCloudProvider}
use caa_csi_block_driver.Ibmcloud.Capacity.{normalize_capacity, normalize_capacity_holds}
use caa_csi_block_driver.Ibmcloud.Volumes.{
  Volume, Session, Packages, check_owned_volume, volume_info, named_if_any,
}
use caa_csi_block_driver.Ibmcloud.Volumes.Info.{volume_info-IsInfo}
use caa_csi_block_driver.Ibmcloud.Lookup.{lookup_volume}
use caa_csi_block_driver.Ibmcloud.Lookup.Unique.{lookup_volume_name}
use caa_csi_block_driver.Ibmcloud.Operations.{
  make, checked_response, matching, reuse, create_new, create_or_reuse, create_volume,
}

-- What is known of a volume that is reported for a size.
abbrev pub Holds : ℤ → String → VolumeInfo → Type 0
Holds allocated volume_id info =
    (info.path ≢ "") × (info.volume_id ≡ volume_id) × (le_int allocated info.size_bytes ≡ true)

module _ {Cloud : Type 0} (P : Packages) (rounds : ℕ) (p : IbmCloudProvider (Session Cloud)) where
  reuse_lem :
      (volume_id : String) (allocated : ℤ) (v : Volume) (info : VolumeInfo)
      → v.name ≡ some volume_id
      → reuse P rounds p volume_id allocated v ≡ ok info
      → Holds allocated volume_id info
  unfolding reuse
  reuse_lem volume_id allocated v info named h =
      elim (Result-cases (check_owned_volume P p.config v volume_id)) [
        | inr (e, foreign) ↦ absurd (ground arith)
        | inl (_, owned) ↦ elim (Result-cases (volume_info (some v))) [
          | inr (e, bad) ↦ absurd (ground arith)
          | inl (i, good) ↦ elim (Bool-cases (le_int allocated i.size_bytes)) [
            | inr small ↦ absurd (ground arith)
            | inl large ↦
                let known = volume_info-IsInfo v i good in
                let same : i ≡ info = ground arith in
                let named' = known.name_of in
                let name : i.volume_id ≡ volume_id = ground arith in
                rw (← same) ((λ e. known.native (sym known.path_of ∙ e)), name, large)
          ]
        ]
      ]

  checked_response_lem :
      (volume_id : String) (allocated : ℤ) (response : Option Volume) (info : VolumeInfo)
      → checked_response P rounds p volume_id allocated response ≡ ok info
      → Holds allocated volume_id info
  unfolding checked_response matching volume_info
  checked_response_lem volume_id allocated none info h = absurd (ground arith)
  checked_response_lem volume_id allocated (some v) info h =
      elim (Result-cases (volume_info (some v))) [
        | inr (e, bad) ↦ absurd (ground arith)
        | inl (i, good) ↦
            let known = volume_info-IsInfo v i good in
            elim (Bool-cases (i.volume_id == volume_id)) [
              | inr other ↦ absurd (ground arith)
              | inl right ↦ elim (Bool-cases (le_int allocated i.size_bytes)) [
                | inr small ↦ absurd (ground arith)
                | inl large ↦
                    let same : i ≡ info = ground arith in
                    let name : i.volume_id ≡ volume_id =
                      ground (arith, eq_iff i.volume_id volume_id) in
                    rw (← same) ((λ e. known.native (sym known.path_of ∙ e)), name, large)
              ]
            ]
      ]

  create_new_lem :
      (volume_id : String) (allocated : ℤ) (info : VolumeInfo) (c c' : Cloud)
      → create_new P rounds p volume_id allocated c ≡ (ok info, c')
      → Holds allocated volume_id info
  unfolding create_new
  create_new_lem volume_id allocated info c c' h =
      let (response, c1, made, h1) =
        bind_ok (make P rounds p volume_id allocated)
          (λ (response : Option Volume).
            returning
              (checked_response P rounds p volume_id allocated (named_if_any volume_id response)))
          c h in
      checked_response_lem volume_id allocated (named_if_any volume_id response) info (ground arith)

  create_or_reuse_lem :
      (volume_id : String) (allocated : ℤ) (found : Result (Option Volume)) (info : VolumeInfo)
      (c c' : Cloud)
      → ((v : Volume) → found ≡ ok (some v) → v.name ≡ some volume_id)
      → create_or_reuse P rounds p volume_id allocated found c ≡ (ok info, c')
      → Holds allocated volume_id info
  unfolding create_or_reuse
  create_or_reuse_lem volume_id allocated (ok (some v)) info c c' named h =
      reuse_lem volume_id allocated v info (named v refl) (ground arith)
  create_or_reuse_lem volume_id allocated (ok none) info c c' named h =
      create_new_lem volume_id allocated info c c' h
  create_or_reuse_lem volume_id allocated (err e) info c c' named h =
      elim (Bool-cases (is_volume_not_found e)) [
        | inl gone ↦ create_new_lem volume_id allocated info c c' (rw (gone, create_or_reuse) at h)
        | inr other ↦ absurd (ground arith)
      ]

  -- Where no volume ID is configured, a volume that CreateVolume reports, an old one as well as a new
  -- one, has a native ID, the name that was asked for, and no fewer bytes than were asked for.
  pub create_volume-Holds :
      (volume_id : String) (size_bytes : ℤ) (info : VolumeInfo) (c c' : Cloud)
      → p.config.volume_id ≡ ""
      → create_volume P rounds p volume_id size_bytes c ≡ (ok info, c')
      → Holds size_bytes volume_id info
  unfolding create_volume ◌>>=◌ try
  create_volume-Holds volume_id size_bytes info c c' unset h =
      elim (Bool-cases (p.config.zone == "")) [
        | inl nowhere ↦ absurd (ground arith)
        | inr placed ↦ elim (Bool-cases (volume_id == "")) [
          | inl nameless ↦ absurd (ground arith)
          | inr named ↦ elim (Result-cases (normalize_capacity p.config.profile size_bytes)) [
            | inr (e, bad) ↦ absurd (ground arith)
            | inl (allocated, normal) ↦
                let (found, c1) = lookup_volume P rounds p volume_id c in
                let (native, name, large) =
                  create_or_reuse_lem volume_id allocated found info c1 c'
                    (λ v e. lookup_volume_name P rounds p volume_id v c c1 unset (ground arith))
                    (ground arith) in
                (
                  native,
                  name,
                  le_int_trans size_bytes allocated info.size_bytes
                      (normalize_capacity_holds p.config.profile size_bytes allocated normal) large,
                )
          ]
        ]
      ]
