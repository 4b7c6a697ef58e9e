-- ===== src/Ibmcloud/Recovery/Managed.antt =====
-- Which volumes ListManagedVolumes of pkg/provider/ibmcloud/provider.go adopts.
use caa_csi_block_driver.Prelude.{
  ℕ, String, ◌≡◌, refl, ◌⊎◌, inl, inr, false, Option, none, some, List, [], ◌∷◌, arith,
  Option-cases,
}
use caa_csi_block_driver.Result.{ok, Result-cases}
use caa_csi_block_driver.Provider.{VolumeInfo}
use caa_csi_block_driver.Provider.Pages.{collect}
use caa_csi_block_driver.Provider.Calls.{wrapping, wrapping_ok, pure, bind_ok}
use caa_csi_block_driver.Ibmcloud.{Config, IbmCloudProvider}
use caa_csi_block_driver.Ibmcloud.Volumes.{
  Volume, Session, Packages, check_owned_volume, volume_info,
}
use caa_csi_block_driver.Ibmcloud.Volumes.Info.{IsInfo, volume_info-IsInfo}
use caa_csi_block_driver.Ibmcloud.Volumes.Owned.{IsOwned, check_owned_volume_iff}
use caa_csi_block_driver.Ibmcloud.Listing.{Volumes, list_volumes}
use caa_csi_block_driver.Ibmcloud.Recovery.{
  owner_of, owned_info, managed_volume, list_managed_volumes,
}

-- A listed volume under its name, or the one that its ownership tags give.
pub data IsUnder (name : String) : Volume → Volume → Type 0 where
  own_name : {v : Volume} → v.name ≡ some name → IsUnder name v v
  tag_name :
      {v : Volume}
      → v.name ≡ none
      → owner_of "" false v.tags ≡ some name
      → IsUnder name v (record v { name = some name })

module _ (P : Packages) (cfg : Config) where
  -- An info of a listed volume that is the driver's and available.
  abbrev pub IsManaged : VolumeInfo → Option Volume → Type 0
  IsManaged info none = ⊥
  IsManaged info (some u) =
      (v : Volume) × IsUnder info.volume_id u v × IsOwned P cfg v info.volume_id × IsInfo v info

  abbrev pub IsOf : VolumeInfo → Volumes → Type 0
  IsOf info [] = ⊥
  IsOf info (v ∷ vs) = IsManaged info v ⊎ IsOf info vs

  abbrev pub AllOf : List VolumeInfo → Volumes → Type 0
  AllOf [] vs = Unit
  AllOf (info ∷ infos) vs = IsOf info vs × AllOf infos vs

  AllOf-more :
      (v : Option Volume) (infos : List VolumeInfo) (vs : Volumes)
      → AllOf infos vs
      → AllOf infos (v ∷ vs)
  AllOf-more v [] vs h = tt
  AllOf-more v (info ∷ infos) vs h = (inr h.0, AllOf-more v infos vs h.1)

module _ {Cloud : Type 0} (P : Packages) (rounds : ℕ) (p : IbmCloudProvider (Session Cloud)) where
  owned_info_lem :
      (u v : Volume) (name : String) (info : VolumeInfo)
      → IsUnder name u v
      → v.name ≡ some name
      → owned_info P rounds p v name ≡ some info
      → IsManaged P p.config info (some u)
  unfolding owned_info
  owned_info_lem u v name info under named h =
      elim (Result-cases (check_owned_volume P p.config v name)) [
        | inr (e, foreign) ↦ absurd (ground arith)
        | inl (_, owned) ↦ elim (Result-cases (volume_info (some v))) [
          | inr (e, bad) ↦ absurd (ground arith)
          | inl (i, good) ↦
              let same : i ≡ info = ground arith in
              let known = volume_info-IsInfo v info (rw (← same) good) in
              let named' = known.name_of in
              let of_name : name ≡ info.volume_id = ground arith in
              (
                v,
                rw (← of_name) under,
                rw (← of_name) ((check_owned_volume_iff P p.config v name).0 owned),
                known,
              )
        ]
      ]

  managed_volume_lem :
      (v : Option Volume) (info : VolumeInfo)
      → managed_volume P rounds p v ≡ some info
      → IsManaged P p.config info v
  unfolding managed_volume
  managed_volume_lem none info h = ground arith
  managed_volume_lem (some v) info h = elim (Option-cases v.name) [
    | inr (name, e) ↦ owned_info_lem v v name info (own_name e) e (ground arith)
    | inl e ↦ elim (Option-cases (owner_of "" false v.tags)) [
      | inl f ↦ absurd (ground arith)
      | inr (name, f) ↦
          owned_info_lem v (record v { name = some name }) name info (tag_name e f) refl
            (ground arith)
    ]
  ]

  AllOf-collect : (vs : Volumes) → AllOf P p.config (collect (managed_volume P rounds p) vs) vs
  unfolding collect
  AllOf-collect [] = tt
  AllOf-collect (v ∷ vs) =
      let rest =
        AllOf-more P p.config v (collect (managed_volume P rounds p) vs) vs (AllOf-collect vs) in
      elim (Option-cases (managed_volume P rounds p v)) [
        | inl passed ↦ rw (passed, collect) rest
        | inr (info, found) ↦ rw (found, collect) (inl (managed_volume_lem v info found), rest)
      ]

  -- A listing of the driver's volumes that succeeds adopts only volumes that the cloud listed, under
  -- their name or the one that their ownership tags give, that carry the ownership tag of that name
  -- and the configuration's marker and settings, and that are available.
  pub AllOf-list_managed_volumes :
      (infos : List VolumeInfo) (c c' : Cloud)
      → list_managed_volumes P rounds p c ≡ (ok infos, c')
      → (vs : Volumes) × (list_volumes p.session
            (("resource_group.id", p.config.resource_group) ∷ ("zone.name", p.config.zone) ∷ [])
            rounds
            c
          ≡ (ok vs, c'))
        × AllOf P p.config infos vs
  unfolding list_managed_volumes
  AllOf-list_managed_volumes infos c c' h =
      let listing =
        list_volumes p.session
          (("resource_group.id", p.config.resource_group) ∷ ("zone.name", p.config.zone) ∷ [])
          rounds in
      let (vs, c1, listed, h1) =
        bind_ok (wrapping "failed to ListVolumes" listing)
          (λ (volumes : Volumes). pure (collect (managed_volume P rounds p) volumes)) c h in
      let same : collect (managed_volume P rounds p) vs ≡ infos = ground arith in
      let here : c1 ≡ c' = ground arith in
      let served = wrapping_ok "failed to ListVolumes" listing c listed in
      (vs, rw (← here) served, rw (← same) (AllOf-collect vs))
