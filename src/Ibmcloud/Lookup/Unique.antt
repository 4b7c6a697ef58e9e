-- ===== src/Ibmcloud/Lookup/Unique.antt =====
-- What lookupVolume of pkg/provider/ibmcloud/provider.go finds among the volumes of a search by name.
use caa_csi_block_driver.Prelude.{
  ℕ, String, ◌<>◌, ◌≡◌, refl, true, Option, none, some, List, [], ◌∷◌, map, arith, Bool-cases, ◌==◌,
  eq_iff, inl, inr, if◌then◌else◌,
}
use caa_csi_block_driver.Result.{
  Result, ok, err, sentinel_error, err_volume_not_found, err_volume_already_exists, Result-cases,
}
use caa_csi_block_driver.Provider.Calls.{◌>>=◌}
use caa_csi_block_driver.Ibmcloud.{IbmCloudProvider}
use caa_csi_block_driver.Ibmcloud.Volumes.{Volume, Session, Packages, named}
use caa_csi_block_driver.Ibmcloud.Listing.{list_volumes}
use caa_csi_block_driver.Ibmcloud.Lookup.{is_named, find_named, lookup_by_name, lookup_volume}

-- The volumes of a list that a name stands for, with it.
unfoldable pub with_name : String → List Volume → List Volume
with_name name [] = []
with_name name (v ∷ vs) =
    let rest = with_name name vs in if is_named name v then named name v ∷ rest else rest

-- What a search should give: the only volume of a name.
unfoldable pub the_only : String → List Volume → Result Volume
the_only name [] = err (sentinel_error err_volume_not_found name)
the_only name (v ∷ []) = ok v
the_only name (v ∷ w ∷ vs) =
    err (sentinel_error err_volume_already_exists ("ambiguous cloud name " <> name))

one_found :
    (name : String) (v : Volume) (vs : List Volume)
    → find_named name (some v) (map some vs) ≡ the_only name (v ∷ with_name name vs)
unfolding find_named the_only with_name
one_found name v [] = refl
one_found name v (w ∷ vs) = elim (Bool-cases (is_named name w)) [
  | inl hit ↦ rw (hit, find_named, with_name, the_only) refl
  | inr miss ↦ rw (miss, find_named, with_name) (one_found name v vs)
]

-- The search by name finds a volume exactly if one volume of the answer has the name, or none; with
-- no such volume it fails with ErrVolumeNotFound, and with more than one with ErrVolumeAlreadyExists.
pub find_named-the_only :
    (name : String) (vs : List Volume)
    → find_named name none (map some vs) ≡ the_only name (with_name name vs)
unfolding find_named the_only with_name
find_named-the_only name [] = refl
find_named-the_only name (v ∷ vs) = elim (Bool-cases (is_named name v)) [
  | inl hit ↦ rw (hit, find_named, with_name) (one_found name (named name v) vs)
  | inr miss ↦ rw (miss, find_named, with_name) (find_named-the_only name vs)
]

named-is_named :
    (name : String) (v : Volume) → is_named name v ≡ true → (named name v).name ≡ some name
named-is_named name v h = named_as name v v.name refl h
  where
    named_as :
        (name : String) (v : Volume) (n : Option String)
        → v.name ≡ n
        → is_named name v ≡ true
        → (named name v).name ≡ some name
    named_as name v none e h = rw e refl
    named_as name v (some n) e h =
        let same : n == name ≡ true = rw e at h in rw e (ground (arith, eq_iff n name))

abbrev IsFound : String → Option Volume → Type 0
IsFound name none = Unit
IsFound name (some v) = v.name ≡ some name

-- What the search finds has the name.
find_named_name :
    (name : String) (found : Option Volume) (vs : List (Option Volume)) (v : Volume)
    → IsFound name found
    → find_named name found vs ≡ ok v
    → v.name ≡ some name
unfolding find_named
find_named_name name none [] v good h = absurd (ground arith)
find_named_name name (some w) [] v good h = let e : w ≡ v = ground arith in rw (← e) good
find_named_name name found (none ∷ vs) v good h = absurd (ground arith)
find_named_name name (some u) (some w ∷ vs) v good h = elim (Bool-cases (is_named name w)) [
  | inr miss ↦ find_named_name name (some u) vs v good (rw (miss, find_named) at h)
  | inl hit ↦ absurd (ground arith)
]
find_named_name name none (some w ∷ vs) v good h = elim (Bool-cases (is_named name w)) [
  | inr miss ↦ find_named_name name none vs v good (rw (miss, find_named) at h)
  | inl hit ↦
      find_named_name name (some (named name w)) vs v (named-is_named name w hit)
        (rw (hit, find_named) at h)
]

module _ {Cloud : Type 0} (P : Packages) (rounds : ℕ) (p : IbmCloudProvider (Session Cloud)) where
  lookup_by_name_name :
      (name : String) (v : Volume) (c c' : Cloud)
      → lookup_by_name P rounds p name c ≡ (ok (some v), c')
      → v.name ≡ some name
  unfolding lookup_by_name ◌>>=◌
  lookup_by_name_name name v c c' h = elim (Bool-cases (name == "")) [
    | inl empty ↦ absurd (ground arith)
    | inr set ↦ elim (Result-cases (list_volumes p.session (("name", name) ∷ []) rounds c).0) [
      | inr (e, bad) ↦ absurd (ground arith)
      | inl (vs, listed) ↦ elim (Result-cases (find_named name none vs)) [
        | inr (e, bad) ↦ absurd (ground arith)
        | inl (w, found) ↦
            let same : w ≡ v = ground arith in rw (← same) (find_named_name name none vs w tt found)
      ]
    ]
  ]

  -- A volume that is looked up without a configured ID has the name that was looked for.
  pub lookup_volume_name :
      (name : String) (v : Volume) (c c' : Cloud)
      → p.config.volume_id ≡ ""
      → lookup_volume P rounds p name c ≡ (ok (some v), c')
      → v.name ≡ some name
  unfolding lookup_volume
  lookup_volume_name name v c c' unset h =
      lookup_by_name_name name v c c' (rw (unset, lookup_volume) at h)
