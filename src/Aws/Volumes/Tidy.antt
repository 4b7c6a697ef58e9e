-- ===== src/Aws/Volumes/Tidy.antt =====
-- Lists of EBS volumes in which an EBS ID names one volume and a CSI volume has one disk, and what
-- pkg/provider/aws/provider.go's changes do to them.
pub mod Changes
use caa_csi_block_driver.Prelude.{
  ℤ, String, ◌≡◌, ◌≢◌, refl, ◌∙◌, sym, ap, ◌⊎◌, inl, inr, Bool, true, false, not, Option, none,
  some, List, [], ◌∷◌, ◌++◌, map, arith, Bool-cases, Option-cases, ◌==◌, eq_iff, eq_refl,
  if◌then◌else◌,
}
use caa_csi_block_driver.Prelude.Keep.{keep, IsSingle, keep-append, keep-keep, keep-map, keep-true}
use caa_csi_block_driver.Aws.{Config, EbsVolume, CreateVolumeInput, volume_tag_key}
use caa_csi_block_driver.Aws.Volumes.{create_input, is_found}
use caa_csi_block_driver.Aws.Cloud.{
  value_of, is_disk_of, has_id, tagged, with_id, without_id, made, resized,
}

pub record IsTidy (vols : List EbsVolume) : Type 0 where
  pub one_disk : (v : String) → IsSingle (tagged v vols)
  pub one_volume : (i : String) → IsSingle (with_id i vols)

-- The size in GiB of a CSI volume's disk, if it has one.
abbrev pub size_of : List EbsVolume → Option ℤ
size_of [] = none
size_of (x ∷ xs) = some x.size

abbrev pub disk : List EbsVolume → String → Option ℤ
disk vols volume_id = size_of (tagged volume_id vols)

IsSingle-keep : (p : EbsVolume → Bool) (xs : List EbsVolume) → IsSingle xs → IsSingle (keep p xs)
unfolding keep
IsSingle-keep p [] h = tt
IsSingle-keep p (x ∷ []) h = elim (Bool-cases (p x)) [
  | inl e ↦ rw (e, keep) tt
  | inr e ↦ rw (e, keep) tt
]
IsSingle-keep p (x ∷ y ∷ xs) h = absurd h

IsSingle-map : (f : EbsVolume → EbsVolume) (xs : List EbsVolume) → IsSingle xs → IsSingle (map f xs)
IsSingle-map f [] h = tt
IsSingle-map f (x ∷ []) h = tt
IsSingle-map f (x ∷ y ∷ xs) h = absurd h

-- A single element is the only one.
only :
    (xs : List EbsVolume) (x : EbsVolume) (ys : List EbsVolume)
    → IsSingle xs
    → xs ≡ x ∷ ys
    → xs ≡ x ∷ []
only [] x ys h e = absurd (ground arith)
only (y ∷ []) x ys h e = ground arith
only (y ∷ z ∷ xs) x ys h e = absurd h

has_id_self : (x : EbsVolume) → has_id x.ebs_id x ≡ true
unfolding has_id
has_id_self x = eq_refl x.ebs_id

-- A volume is the disk of one CSI volume.
one_owner :
    (v w : String) (x : EbsVolume) → is_disk_of v x ≡ true → is_disk_of w x ≡ true → (v == w) ≡ true
unfolding is_disk_of
one_owner v w x of_v of_w = elim (Option-cases (value_of volume_tag_key x.tags)) [
  | inl e ↦ absurd (ground arith)
  | inr (u, e) ↦ ground (arith, eq_iff u v, eq_iff u w, eq_refl v)
]

module _ (vols : List EbsVolume) (tidy : IsTidy vols) where
  only_disk :
      (v : String) (x : EbsVolume) (xs : List EbsVolume)
      → tagged v vols ≡ x ∷ xs
      → tagged v vols ≡ x ∷ []
  only_disk v x xs e = only (tagged v vols) x xs (tidy.one_disk v) e

  kept_single :
      (p : EbsVolume → Bool) (ys : List EbsVolume) (x : EbsVolume)
      → IsSingle ys
      → keep p ys ≡ x ∷ []
      → ys ≡ x ∷ []
  unfolding keep
  kept_single p [] x h e = absurd (ground arith)
  kept_single p (y ∷ []) x h e = ground arith
  kept_single p (y ∷ z ∷ ys) x h e = absurd h

  -- The EBS ID of a CSI volume's disk names that disk.
  pub with_id-disk :
      (v : String) (x : EbsVolume) (xs : List EbsVolume)
      → tagged v vols ≡ x ∷ xs
      → with_id x.ebs_id vols ≡ x ∷ []
  unfolding keep
  with_id-disk v x xs e =
      let alone : keep (has_id x.ebs_id) (x ∷ []) ≡ x ∷ [] = rw (has_id_self x, keep) refl in
      kept_single (is_disk_of v) (with_id x.ebs_id vols) x (tidy.one_volume x.ebs_id) (
        keep-keep (is_disk_of v) (has_id x.ebs_id) vols
        ∙ ap (keep (has_id x.ebs_id)) (only_disk v x xs e)
        ∙ alone)

  -- The disks of two CSI volumes have different EBS IDs.
  other_id :
      (v w : String) (x y : EbsVolume) (xs ys : List EbsVolume)
      → tagged v vols ≡ x ∷ xs
      → tagged w vols ≡ y ∷ ys
      → (v == w) ≡ false
      → has_id x.ebs_id y ≡ false
  unfolding has_id is_disk_of
  other_id v w x y xs ys e f apart = elim (Bool-cases (has_id x.ebs_id y)) [
    | inr different ↦ different
    | inl same ↦
        let ids : y.ebs_id ≡ x.ebs_id = ground (arith, eq_iff y.ebs_id x.ebs_id) in
        let one : x ∷ [] ≡ y ∷ [] =
          sym (with_id-disk v x xs e)
          ∙ ap (λ i. with_id i vols) (sym ids)
          ∙ with_id-disk w y ys f in
        let xy : x ≡ y = ground arith in
        let of_v = keep-true (is_disk_of v) vols x xs e in
        let of_w = keep-true (is_disk_of w) vols y ys f in
        absurd (ground (arith, one_owner v w y (rw xy at of_v) of_w))
  ]

-- A new volume, tagged by its input, is the disk of its CSI volume.
is_disk_of-made :
    (cfg : Config) (v w : String) (snapshot : Option String) (n : ℤ) (i : String)
    → is_disk_of w (made (create_input cfg v snapshot n) i) ≡ (v == w)
unfolding is_disk_of value_of made create_input
is_disk_of-made cfg v w snapshot n i = refl

size_of-append : (xs ys : List EbsVolume) → is_found xs ≡ false → size_of (xs ++ ys) ≡ size_of ys
size_of-append [] ys h = refl
size_of-append (x ∷ xs) ys h = absurd (ground arith)

IsSingle-append : (xs ys : List EbsVolume) → is_found xs ≡ false → IsSingle ys → IsSingle (xs ++ ys)
IsSingle-append [] ys h single = single
IsSingle-append (x ∷ xs) ys h single = absurd (ground arith)

append_nil : (xs : List EbsVolume) → xs ++ [] ≡ xs
append_nil [] = refl
append_nil (x ∷ xs) = ap (λ ys. x ∷ ys) (append_nil xs)

is_found_nil : (xs : List EbsVolume) → xs ≡ [] → is_found xs ≡ false
is_found_nil [] e = refl
is_found_nil (x ∷ xs) e = absurd (ground arith)

module _ (vols : List EbsVolume) (x : EbsVolume) where
  -- What a test keeps of a list with a new element.
  keep_new :
      (p : EbsVolume → Bool) (b : Bool)
      → p x ≡ b
      → keep p (vols ++ x ∷ []) ≡ keep p vols ++ (if b then x ∷ [] else [])
  unfolding keep
  keep_new p b e = keep-append p vols (x ∷ []) ∙ ap (λ ys. keep p vols ++ ys) (rw (e, keep) refl)

  IsSingle-new :
      (p : EbsVolume → Bool) (b : Bool)
      → p x ≡ b
      → IsSingle (keep p vols)
      → (b ≡ true → is_found (keep p vols) ≡ false)
      → IsSingle (keep p (vols ++ x ∷ []))
  IsSingle-new p true e single free =
      rw (keep_new p true e) (IsSingle-append (keep p vols) _ (free refl) tt)
  IsSingle-new p false e single free = rw (keep_new p false e, append_nil (keep p vols)) single

  size_of-new :
      (p : EbsVolume → Bool) (b : Bool)
      → p x ≡ b
      → (b ≡ true → is_found (keep p vols) ≡ false)
      → size_of (keep p (vols ++ x ∷ [])) ≡ (if b then some x.size else size_of (keep p vols))
  size_of-new p true e free =
      rw (keep_new p true e) (size_of-append (keep p vols) (x ∷ []) (free refl))
  size_of-new p false e free = rw (keep_new p false e, append_nil (keep p vols)) refl
