-- ===== src/Ibmcloud/Effects/Changes.antt =====
-- What CreateVolume and DeleteVolume of pkg/provider/ibmcloud/provider.go do to the sizes of the volumes
-- when they succeed.
use caa_csi_block_driver.Prelude.{
  ℕ, ℤ, pos, quot, String, ◌≡◌, refl, sym, ap, ◌∙◌, ◌⊎◌, ◌||◌, inl, inr, Option, none, some, arith,
  Bool-cases, ◌==◌,
}
use caa_csi_block_driver.Result.{Result, ok, err, Result-cases}
use caa_csi_block_driver.Provider.{VolumeInfo}
use caa_csi_block_driver.Provider.Specification.{put, idle_at}
use caa_csi_block_driver.Provider.Calls.{try, wrapping, wrapping_ok, returning, bind_ok, ◌>>=◌}
use caa_csi_block_driver.Provider.Numbers.{gib}
use caa_csi_block_driver.Ibmcloud.{IbmCloudProvider}
use caa_csi_block_driver.Ibmcloud.Capacity.{normalize_capacity}
use caa_csi_block_driver.Ibmcloud.Cloud.{VpcLaws}
use caa_csi_block_driver.Ibmcloud.Volumes.{Volume, Session, Packages, named_if_any, zero_volume}
use caa_csi_block_driver.Ibmcloud.Lookup.{lookup_volume}
use caa_csi_block_driver.Ibmcloud.Operations.{
  new_volume, create_volume, create_or_reuse, create_new, make, checked_response, refresh,
  delete_volume,
}
use caa_csi_block_driver.Ibmcloud.Operations.Deletion.{
  Deletes, missing, refused, deleted, Deletes-delete_volume,
}
use caa_csi_block_driver.Ibmcloud.Effects.{Finds, Finds-lookup_volume}

-- The GiB that CreateVolume asks for.
unfoldable pub requested_units : String → ℤ → ℤ
requested_units profile n = elim (normalize_capacity profile n) [
  | ok allocated ↦ quot allocated gib
  | err _ ↦ pos 0
]

module _ {Cloud : Type 0} (P : Packages) (rounds : ℕ) (p : IbmCloudProvider (Session Cloud))
    (L : VpcLaws p.session) where
  open L use {sizes, name_of}

  sizes-refresh :
      (v : Option Volume) (c : Cloud) → (let (r, c') = refresh P rounds p v c in sizes c' ≡ sizes c)
  unfolding refresh wrapping
  sizes-refresh none c = refl
  sizes-refresh (some v) c = elim (Bool-cases (v.volume_id == "" || v.status == "available")) [
    | inl ready ↦ rw (ready, refresh) refl
    | inr pending ↦ rw (pending, refresh) (L.get_keeps {id = v.volume_id} {c = c} refl)
  ]

  sizes-make :
      (name : String) (allocated : ℤ) (c c' : Cloud) (v : Option Volume)
      → make P rounds p name allocated c ≡ (ok v, c')
      → sizes c' ≡ put name (some (quot allocated gib)) (sizes c)
  unfolding make new_volume
  sizes-make name allocated c c' v h =
      let create = p.session.create_volume (new_volume P p.config name allocated) in
      let message : String = "failed to CreateVolume via ibmcloud-volume-vpc SDK" in
      let (created, c1, made, h1) = bind_ok (wrapping message create) (refresh P rounds p) c h in
      let here : (refresh P rounds p created c1).1 ≡ c' = ground arith in
      sym (ap sizes here)
      ∙ sizes-refresh created c1
      ∙ L.create_puts (wrapping_ok message create c made) refl refl

  sizes-create_new :
      (name : String) (allocated : ℤ) (c c' : Cloud) (info : VolumeInfo)
      → create_new P rounds p name allocated c ≡ (ok info, c')
      → sizes c' ≡ put name (some (quot allocated gib)) (sizes c)
  unfolding create_new
  sizes-create_new name allocated c c' info h =
      let (response, c1, made, h1) =
        bind_ok (make P rounds p name allocated)
          (λ (response : Option Volume).
            returning (checked_response P rounds p name allocated (named_if_any name response)))
          c h in
      let here : c1 ≡ c' = ground arith in
      sym (ap sizes here) ∙ sizes-make name allocated c c1 response made

  -- A volume that was there is left alone, and else there is a new one.
  abbrev pub Creates : String → ℤ → Cloud → Cloud → Type 0
  Creates name n c c' =
      ((m : ℤ) × (sizes c name ≡ some m) × (sizes c' ≡ sizes c))
      ⊎ ((sizes c name ≡ none)
          × (sizes c' ≡ put name (some (requested_units p.config.profile n)) (sizes c)))

  Creates-create_or_reuse :
      (name : String) (n allocated : ℤ) (c c1 c' : Cloud) (found : Result (Option Volume))
      (info : VolumeInfo)
      → normalize_capacity p.config.profile n ≡ ok allocated
      → Finds P rounds p L name c found c1
      → create_or_reuse P rounds p name allocated found c1 ≡ (ok info, c')
      → Creates name n c c'
  unfolding create_or_reuse requested_units
  Creates-create_or_reuse name n allocated c c1 c' found info normal
        (inl (v, m, hit, _, size, _, kept)) h =
      let same : c1 ≡ c' = ground arith in inl (m, size, sym (ap sizes same) ∙ kept)
  Creates-create_or_reuse name n allocated c c1 c' found info normal
        (inr (inl (e, failed, gone, no_size, kept))) h =
      let made : create_new P rounds p name allocated c1 ≡ (ok info, c') = ground arith in
      inr (
        no_size,
        rw (normal, requested_units)
            (sizes-create_new name allocated c1 c' info made ∙ ap (put name _) kept),
      )
  Creates-create_or_reuse name n allocated c c1 c' found info normal (inr (inr (e, failed, other)))
        h =
      absurd (ground arith)

  module _ (unset : p.config.volume_id ≡ "") where
    pub Creates-create_volume :
        (name : String) (n : ℤ) (c c' : Cloud) (info : VolumeInfo)
        → create_volume P rounds p name n c ≡ (ok info, c')
        → Creates name n c c'
    unfolding create_volume ◌>>=◌ try
    Creates-create_volume name n c c' info h = elim (Bool-cases (p.config.zone == "")) [
      | inl nowhere ↦ absurd (ground arith)
      | inr placed ↦ elim (Bool-cases (name == "")) [
        | inl nameless ↦ absurd (ground arith)
        | inr named ↦ elim (Result-cases (normalize_capacity p.config.profile n)) [
          | inr (e, bad) ↦ absurd (ground arith)
          | inl (allocated, normal) ↦
              let (found, c1) = lookup_volume P rounds p name c in
              Creates-create_or_reuse name n allocated c c1 c' found info normal
                (Finds-lookup_volume P rounds p L name c unset) (ground arith)
        ]
      ]
    ]

    sizes-Deletes :
        (name : String) (c c1 c' : Cloud) (found : Result (Option Volume)) (r : Result (Unit {0}))
        → Finds P rounds p L name c found c1
        → Deletes P rounds p name c1 found r c'
        → r ≡ ok tt
        → (w : String) → sizes c' w ≡ put name none (sizes c) w
    sizes-Deletes name c c1 c' found r finds (missing {e = e} gone) h w = elim finds [
      | inl (v, n, hit, _, _, _, _) ↦ absurd (ground arith)
      | inr (inl (x, same, _, no_size, kept)) ↦
          ap (λ d. d w) kept ∙ idle_at name w (sizes c) (λ _. none) (sym no_size)
      | inr (inr (x, same, other)) ↦ absurd (ground arith)
    ]
    sizes-Deletes name c c1 c' found r finds refused h w = absurd (ground arith)
    sizes-Deletes name c c1 c' found r finds (deleted {v = v} owned native call) h w = elim finds [
      | inl (u, n, hit, _, _, owner, kept) ↦
          let same : u ≡ v = ground arith in
          let request : Volume = record zero_volume { volume_id = v.volume_id } in
          let done_call =
            wrapping_ok "failed to DeleteVolume via ibmcloud-volume-vpc SDK"
              (p.session.delete_volume request) c1 (rw h at call) in
          let id : name_of c1 v.volume_id ≡ some name = ground arith in
          ap (λ d. d w) (L.delete_removes done_call id ∙ ap (put name none) kept)
      | inr (inl (x, same, _, _, _)) ↦ absurd (ground arith)
      | inr (inr (x, same, _)) ↦ absurd (ground arith)
    ]

    pub sizes-delete_volume :
        (name : String) (c c' : Cloud) {u : Unit {0}}
        → delete_volume P rounds p name c ≡ (ok u, c')
        → (w : String) → sizes c' w ≡ put name none (sizes c) w
    sizes-delete_volume name c c' h w =
        let (found, c1) = lookup_volume P rounds p name c in
        let here : (delete_volume P rounds p name c).1 ≡ c' = ground arith in
        ap (λ d. sizes d w) (sym here)
        ∙ sizes-Deletes name c c1 (delete_volume P rounds p name c).1 found
            (delete_volume P rounds p name c).0 (Finds-lookup_volume P rounds p L name c unset)
            (Deletes-delete_volume P rounds p name c) (ground arith) w
