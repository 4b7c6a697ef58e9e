-- ===== src/Aws/Volumes/Tidy/Changes.antt =====
-- A new, a deleted and a resized EBS volume: the list stays tidy, and only the disk of one CSI
-- volume changes.
use caa_csi_block_driver.Prelude.{
  ℤ, String, ◌≡◌, refl, ◌∙◌, sym, ap, ◌⊎◌, inl, inr, Bool, true, false, not, Option, none, some,
  List, [], ◌∷◌, ◌++◌, map, arith, Bool-cases, ◌==◌, eq_iff, if◌then◌else◌,
}
use caa_csi_block_driver.Prelude.Keep.{keep, keep-keep, keep-map}
use caa_csi_block_driver.Aws.{Config, EbsVolume}
use caa_csi_block_driver.Aws.Volumes.{create_input, is_found}
use caa_csi_block_driver.Aws.Cloud.{is_disk_of, has_id, tagged, with_id, without_id, made, resized}
use caa_csi_block_driver.Aws.Volumes.Tidy.{
  IsTidy, disk, IsSingle-keep, IsSingle-map, IsSingle-new, is_found_nil, is_disk_of-made,
  size_of-new, other_id, only_disk, has_id_self,
}

module _ (vols : List EbsVolume) (tidy : IsTidy vols) where
  module _ (cfg : Config) (v : String) (snapshot : Option String) (n : ℤ) (i : String)
      (free : with_id i vols ≡ []) (not_there : is_found (tagged v vols) ≡ false) where
    new : EbsVolume
    new = made (create_input cfg v snapshot n) i

    no_disk : (w : String) → (v == w) ≡ true → is_found (tagged w vols) ≡ false
    no_disk w e = ground (arith, eq_iff v w, not_there)

    no_volume : (j : String) → (i == j) ≡ true → is_found (with_id j vols) ≡ false
    no_volume j e =
        is_found_nil (with_id j vols) (ap (λ k. with_id k vols) (sym ((eq_iff i j).0 e)) ∙ free)

    pub IsTidy-new : IsTidy (vols ++ made (create_input cfg v snapshot n) i ∷ [])
    unfolding new has_id made
    IsTidy-new = record {
      one_disk = λ w.
          IsSingle-new vols new (is_disk_of w) (v == w) (is_disk_of-made cfg v w snapshot n i)
            (tidy.one_disk w) (no_disk w);
      one_volume =
          λ j. IsSingle-new vols new (has_id j) (i == j) refl (tidy.one_volume j) (no_volume j);
    }

    pub disk-new :
        (w : String)
        → disk (vols ++ made (create_input cfg v snapshot n) i ∷ []) w
          ≡ (if v == w then some n else disk vols w)
    unfolding new made create_input
    disk-new w =
        size_of-new vols new (is_disk_of w) (v == w) (is_disk_of-made cfg v w snapshot n i)
          (no_disk w)

  module _ (v : String) (x : EbsVolume) (xs : List EbsVolume) (found : tagged v vols ≡ x ∷ xs) where
    is_other : EbsVolume → Bool
    is_other y = not (has_id x.ebs_id y)

    pub IsTidy-without : IsTidy (without_id x.ebs_id vols)
    unfolding is_other
    IsTidy-without = record {
      one_disk = λ w.
          rw (keep-keep (is_disk_of w) is_other vols)
            (IsSingle-keep is_other (tagged w vols) (tidy.one_disk w));
      one_volume = λ j.
          rw (keep-keep (has_id j) is_other vols)
            (IsSingle-keep is_other (with_id j vols) (tidy.one_volume j));
    }

    others :
        (w : String) (ys : List EbsVolume)
        → tagged w vols ≡ ys
        → (v == w) ≡ false
        → (ys ≡ []) ⊎ ((y : EbsVolume) × (ys ≡ y ∷ []) × (has_id x.ebs_id y ≡ false))
    others w [] e differ = inl refl
    others w (y ∷ ys) e differ =
        inr
          (y, sym e ∙ only_disk vols tidy w y ys e, other_id vols tidy v w x y xs ys found e differ)

    -- What a CSI volume's disks are: those of `v`, or others.
    disks_of :
        (w : String) (ys : List EbsVolume)
        → tagged w vols ≡ ys
        → ((v == w) ≡ true) × (ys ≡ x ∷ [])
          ⊎ ((v == w) ≡ false)
            × ((ys ≡ []) ⊎ ((y : EbsVolume) × (ys ≡ y ∷ []) × (has_id x.ebs_id y ≡ false)))
    disks_of w ys e = elim (Bool-cases (v == w)) [
      | inl same ↦ inl (
        same,
        sym e
            ∙ ap (λ u. tagged u vols) (sym ((eq_iff v w).0 same))
            ∙ only_disk vols tidy v x xs found,
      )
      | inr differ ↦ inr (differ, others w ys e differ)
    ]

    pub disk-without :
        (w : String) → disk (without_id x.ebs_id vols) w ≡ (if v == w then none else disk vols w)
    unfolding keep is_other
    disk-without w =
        rw (keep-keep (is_disk_of w) is_other vols) (elim (disks_of w (tagged w vols) refl) [
          | inl (same, one) ↦ rw (same, one, has_id_self x) refl
          | inr (differ, inl no_disk) ↦ rw (differ, no_disk) refl
          | inr (differ, inr (y, one, other)) ↦ rw (differ, one, other) refl
        ])

    is_disk_of-resized :
        (w : String) (n : ℤ) (y : EbsVolume) → is_disk_of w (resized x.ebs_id n y) ≡ is_disk_of w y
    unfolding is_disk_of resized
    is_disk_of-resized w n y = ground arith

    has_id-resized :
        (j : String) (n : ℤ) (y : EbsVolume) → has_id j (resized x.ebs_id n y) ≡ has_id j y
    unfolding has_id resized
    has_id-resized j n y = ground arith

    pub IsTidy-resized : (n : ℤ) → IsTidy (map (resized x.ebs_id n) vols)
    IsTidy-resized n = record {
      one_disk = λ w.
          rw (keep-map (is_disk_of w) (resized x.ebs_id n) vols (is_disk_of-resized w n))
            (IsSingle-map (resized x.ebs_id n) (tagged w vols) (tidy.one_disk w));
      one_volume = λ j.
          rw (keep-map (has_id j) (resized x.ebs_id n) vols (has_id-resized j n))
            (IsSingle-map (resized x.ebs_id n) (with_id j vols) (tidy.one_volume j));
    }

    pub disk-resized :
        (n : ℤ) (w : String)
        → disk (map (resized x.ebs_id n) vols) w ≡ (if v == w then some n else disk vols w)
    unfolding resized
    disk-resized n w =
        rw (keep-map (is_disk_of w) (resized x.ebs_id n) vols (is_disk_of-resized w n))
          (elim (disks_of w (tagged w vols) refl) [
            | inl (same, one) ↦ rw (same, one, has_id_self x) refl
            | inr (differ, inl no_disk) ↦ rw (differ, no_disk) refl
            | inr (differ, inr (y, one, other)) ↦ rw (differ, one, other) refl
          ])
