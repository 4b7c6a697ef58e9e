-- ===== src/Ibmcloud/Effects.antt =====
-- What calls of pkg/provider/ibmcloud/provider.go that succeed do to the sizes of the volumes, with the
-- session's laws and where no volume ID is configured.
pub mod Changes
pub mod Expansion
use caa_csi_block_driver.Prelude.{
  ℕ, zero, suc, ℤ, le_int, quot, String, ◌≡◌, ◌≢◌, refl, sym, ap, ◌∙◌, ◌⊎◌, inl, inr, true, false,
  Option, none, some, List, [], ◌∷◌, ◌++◌, arith, Bool-cases, ◌==◌, eq_iff, eq_refl, if◌then◌else◌,
}
use caa_csi_block_driver.Result.{
  GoError, Result, ok, err, error, Result-cases, is_volume_not_found, other_error,
}
use caa_csi_block_driver.Provider.{Call, VolumeInfo}
use caa_csi_block_driver.Provider.Specification.{Disks, put}
use caa_csi_block_driver.Provider.Calls.{
  try, wrapping, wrapping_ok, returning, bind_ok, ◌>>=◌, ◌>>◌,
}
use caa_csi_block_driver.Provider.Numbers.{gib}
use caa_csi_block_driver.Ibmcloud.{IbmCloudProvider}
use caa_csi_block_driver.Ibmcloud.Capacity.{normalize_capacity}
use caa_csi_block_driver.Ibmcloud.Cloud.{VpcLaws, IsAnswer}
use caa_csi_block_driver.Ibmcloud.Volumes.{Volume, VolumePage, Session, Packages, has, named}
use caa_csi_block_driver.Ibmcloud.Listing.{list_volumes, list_from, after_page, Volumes}
use caa_csi_block_driver.Ibmcloud.Lookup.{
  is_named, as_some, find_named, lookup_by_name, lookup_volume,
}
use caa_csi_block_driver.Ibmcloud.Operations.{
  new_volume, create_volume, create_or_reuse, create_new, make, refresh, delete_volume,
  delete_found, expand_volume, get_volume_info,
}

module _ {Cloud : Type 0} (session : Session Cloud) (L : VpcLaws session) where
  open L use {sizes, name_of}

  -- What a search by name gives.
  abbrev IsListed : String → Cloud → Result Volumes → Cloud → Type 0
  IsListed name c r c' =
      ((e : GoError) × (r ≡ err e) × (e.sentinel ≡ other_error))
      ⊎ ((vs : Volumes) × (r ≡ ok vs)
          × (sizes c' ≡ sizes c)
          × IsAnswer (sizes c) (name_of c') name vs)

  IsListed-after_page :
      (name : String) (c : Cloud) (next : String → Volumes → Call Cloud Volumes)
      (answer : Result (Option VolumePage)) (c' : Cloud)
      → session.list_volumes 100 "" (("name", name) ∷ []) c ≡ (answer, c')
      → (let (r, c'') = after_page session (("name", name) ∷ []) next [] answer c' in
          IsListed name c r c'')
  unfolding after_page
  IsListed-after_page name c next (err e) c' h = inl (_, refl, L.list_foreign h)
  IsListed-after_page name c next (ok r) c' h =
      let (page, found, last, kept, answer) = L.list_answers h in
      rw (found, last) (inr (page.volumes, refl, kept, answer))

  IsListed-list_volumes :
      (name : String) (rounds : ℕ) (c : Cloud)
      → (let (r, c') = list_volumes session (("name", name) ∷ []) rounds c in IsListed name c r c')
  unfolding list_volumes list_from has
  IsListed-list_volumes name zero c = inl (_, refl, refl)
  IsListed-list_volumes name (suc rounds) c =
      IsListed-after_page name c (list_from session (("name", name) ∷ []) rounds ("" ∷ []))
        (session.list_volumes 100 "" (("name", name) ∷ []) c).0
        (session.list_volumes 100 "" (("name", name) ∷ []) c).1 refl

module _ {Cloud : Type 0} (P : Packages) (rounds : ℕ) (p : IbmCloudProvider (Session Cloud))
    (L : VpcLaws p.session) where
  open L use {sizes, name_of}

  -- A lookup finds the volume of a name, or none because there is none, or fails for another reason.
  abbrev Finds : String → Cloud → Result (Option Volume) → Cloud → Type 0
  Finds name c r c' =
      ((v : Volume) × (n : ℤ) × (r ≡ ok (some v))
        × (v.capacity ≡ some n)
        × (sizes c name ≡ some n)
        × (name_of c' v.volume_id ≡ some name)
        × (sizes c' ≡ sizes c))
      ⊎ ((e : GoError) × (r ≡ err e)
          × (is_volume_not_found e ≡ true)
          × (sizes c name ≡ none)
          × (sizes c' ≡ sizes c))
      ⊎ ((e : GoError) × (r ≡ err e) × (is_volume_not_found e ≡ false))

  is_named-answer :
      (name : String) (v : Volume) → (v.name ≡ none) ⊎ (v.name ≡ some name) → is_named name v ≡ true
  is_named-answer name v (inl e) = rw e refl
  is_named-answer name v (inr e) = rw e (eq_refl name)

  named-keeps :
      (name : String) (v : Volume)
      → ((named name v).volume_id ≡ v.volume_id) × ((named name v).capacity ≡ v.capacity)
  named-keeps name v = ground arith

  Finds-found :
      (name : String) (c c' : Cloud) (vs : Volumes)
      → sizes c' ≡ sizes c
      → IsAnswer (sizes c) (name_of c') name vs
      → Finds name c (as_some (find_named name none vs)) c'
  unfolding find_named
  Finds-found name c c' vs kept (inl (empty, no_size)) =
      rw (empty, find_named) (inr (inl (_, refl, refl, no_size, kept)))
  Finds-found name c c' vs kept (inr (v, n, only, is_name, capacity, size, owner)) =
      let hit = is_named-answer name v is_name in
      let (same_id, same_capacity) = named-keeps name v in
      rw (only, find_named)
        (rw (hit, find_named)
          (inl (
            named name v,
            n,
            refl,
            same_capacity ∙ capacity,
            size,
            ap (name_of c') same_id ∙ owner,
            kept,
          )))

  Finds-lookup_by_name :
      (name : String) (c : Cloud)
      → (let (r, c') = lookup_by_name P rounds p name c in Finds name c r c')
  unfolding lookup_by_name ◌>>=◌
  Finds-lookup_by_name name c = elim (Bool-cases (name == "")) [
    | inl empty ↦ rw (empty, lookup_by_name, ◌>>=◌) (inr (inr (_, refl, refl)))
    | inr set ↦
        let (r, c') = list_volumes p.session (("name", name) ∷ []) rounds c in
        elim (IsListed-list_volumes p.session L name rounds c) [
          | inl (e, failed, foreign) ↦
              rw (set, lookup_by_name, ◌>>=◌) (rw failed (inr (inr (e, refl, rw foreign refl))))
          | inr (vs, listed, kept, answer) ↦
              rw (set, lookup_by_name, ◌>>=◌) (rw listed (Finds-found name c c' vs kept answer))
        ]
  ]

  Finds-lookup_volume :
      (name : String) (c : Cloud)
      → p.config.volume_id ≡ ""
      → (let (r, c') = lookup_volume P rounds p name c in Finds name c r c')
  unfolding lookup_volume
  Finds-lookup_volume name c unset = rw (unset, lookup_volume) (Finds-lookup_by_name name c)
