-- ===== src/Aws/Volumes/Effects.antt =====
-- What the volume operations of pkg/provider/aws/provider.go that succeed did to the volumes of a
-- settled account of a cloud with EC2's laws.
use caa_csi_block_driver.Provider.Numbers.{gib_ceil}
use caa_csi_block_driver.Prelude.{
  ℤ, String, ◌<>◌, ◌≡◌, ◌∙◌, sym, ap, ◌⊎◌, inl, inr, true, false, none, List, [], ◌∷◌, ◌++◌, map,
  arith, Bool-cases, ◌==◌,
}
use caa_csi_block_driver.Result.{Result, ok, err}
use caa_csi_block_driver.Provider.{Call, VolumeInfo}
use caa_csi_block_driver.Provider.Calls.{bind_ok, try_ok, wrapping_ok, wrapping, try, pure, ◌>>=◌}
use caa_csi_block_driver.Aws.{EbsVolume, CreateVolumeInput, AwsProvider, tag_filter, volume_tag_key}
use caa_csi_block_driver.Aws.Volumes.{
  gib_floor, create_input, created_info, is_found, volume_exists, find_ebs_volume_id,
  describe_by_id, reuse_or, make_volume, create_new, unless_exists, create_volume, delete_found,
  delete_volume, enlarge, is_large_enough, expand_volume,
}
use caa_csi_block_driver.Aws.Cloud.{tagged, with_id, without_id, made, resized, Ec2Laws}
use caa_csi_block_driver.Aws.Volumes.Found.{
  volume_exists_lem, find_ebs_volume_id_lem, nothing_found, describe_by_id_lem,
  get_volume_info_keeps,
}

module _ {Cloud : Type 0} (p : AwsProvider Cloud) (L : Ec2Laws p.ec2_client) where
  open p use {config}
  open L use {volumes, settled}

  -- EC2 made a volume from an input, with an ID that was free.
  abbrev pub Makes : CreateVolumeInput → Cloud → Cloud → Type 0
  Makes input c c' =
      (i : String) × (with_id i (volumes c) ≡ []) × (volumes c' ≡ volumes c ++ made input i ∷ [])

  make_volume_lem :
      (message : String) (input : CreateVolumeInput) (c : Cloud) {i : String} {c' : Cloud}
      → make_volume p message input c ≡ (ok i, c')
      → Makes input c c'
  unfolding make_volume
  make_volume_lem message input c h =
      let make = wrapping message (p.ec2_client.create_volume input) in
      let wait = λ (i : String). try (p.ec2_client.wait_volume_available i) in
      let (i, c1, e1, e2) = bind_ok make (λ (i : String). wait i >>= λ _. pure i) c h in
      let (r, c2, e3, e4) = bind_ok (wait i) (λ _. pure i) c1 e2 in
      let (free, added) =
        L.create_adds (wrapping_ok message (p.ec2_client.create_volume input) c e1) in
      let kept = L.wait_keeps (try_ok (p.ec2_client.wait_volume_available i) c1 e3) in
      (i, free, ground (arith, kept, added, e4))

  create_new_lem :
      (v : String) (n : ℤ) (c : Cloud) {info : VolumeInfo} {c' : Cloud}
      → create_new p v n c ≡ (ok info, c')
      → Makes (create_input config v none (gib_floor n)) c c'
  unfolding create_new
  create_new_lem v n c h =
      let input = create_input config v none (gib_floor n) in
      let message = "ec2.CreateVolume failed for " <> v in
      let info_of = λ (i : String). pure (created_info config v n i) in
      let (i, c1, e1, e2) = bind_ok (make_volume p message input) info_of c h in
      let (j, free, added) = make_volume_lem message input c e1 in
      (j, free, ground (arith, added, e2))

  -- A volume that was there, or what the other branch did where there was none.
  unless_exists_lem :
      (v : String) (create : Call Cloud VolumeInfo) (c : Cloud) {info : VolumeInfo} {c' : Cloud}
      → settled c
      → unless_exists p v create c ≡ (ok info, c')
      → ((is_found (tagged v (volumes c)) ≡ true) × (volumes c' ≡ volumes c))
        ⊎ ((is_found (tagged v (volumes c)) ≡ false)
            × (c1 : Cloud) × (volumes c1 ≡ volumes c)
            × (create c1 ≡ (ok info, c')))
  unfolding unless_exists
  unless_exists_lem v create c {info} {c'} at_rest h =
      elim (Bool-cases (config.availability_zone == "")) [
        | inl unzoned ↦ absurd (ground arith)
        | inr zoned ↦
            let h' : (volume_exists p v >>= reuse_or p v create) c ≡ (ok info, c') = ground arith in
            let (b, c1, e1, e2) = bind_ok (volume_exists p v) (reuse_or p v create) c h' in
            let (found, kept, after) = volume_exists_lem p L v c at_rest e1 in
            elim (Bool-cases b) [
              | inl there ↦ inl (
                ground arith,
                get_volume_info_keeps p L v c1 {info = info} {c' = c'} after (ground arith) ∙ kept,
              )
              | inr not_there ↦ inr (ground arith, c1, kept, ground arith)
            ]
      ]

  -- CreateVolume found a volume, or made one.
  pub create_volume_lem :
      (v : String) (n : ℤ) (c : Cloud) {info : VolumeInfo} {c' : Cloud}
      → settled c
      → create_volume p v n c ≡ (ok info, c')
      → ((is_found (tagged v (volumes c)) ≡ true) × (volumes c' ≡ volumes c))
        ⊎ ((is_found (tagged v (volumes c)) ≡ false)
            × Makes (create_input config v none (gib_floor n)) c c')
  unfolding create_volume
  create_volume_lem v n c at_rest h = elim (unless_exists_lem v (create_new p v n) c at_rest h) [
    | inl there ↦ inl there
    | inr (not_there, c1, kept, made_it) ↦
        let (i, free, added) = create_new_lem v n c1 made_it in
        inr (not_there, (i, ap (with_id i) (sym kept) ∙ free, ground (arith, added, kept)))
  ]

  delete_found_lem :
      (v : String) (c : Cloud) (r : Result String) {vols : List EbsVolume} {c1 c2 c' : Cloud}
      {u : Unit {0}}
      → settled c
      → p.ec2_client.describe_volumes (tag_filter ("tag:" <> volume_tag_key) v) c ≡ (ok vols, c1)
      → find_ebs_volume_id p v c ≡ (r, c2)
      → delete_found p r c2 ≡ (ok u, c')
      → ((tagged v (volumes c) ≡ []) × (volumes c' ≡ volumes c))
        ⊎ ((x : EbsVolume) × (xs : List EbsVolume) × (tagged v (volumes c) ≡ x ∷ xs)
            × (volumes c' ≡ without_id x.ebs_id (volumes c)))
  unfolding delete_found
  delete_found_lem v c (ok i) at_rest answered found h =
      let (x, xs, there, same, kept, _) = find_ebs_volume_id_lem p L v c at_rest found in
      let gone = L.delete_removes (wrapping_ok _ (p.ec2_client.delete_volume i) _ h) in
      inr (x, xs, there, gone ∙ ap (without_id i) kept ∙ ap (λ j. without_id j (volumes c)) same)
  delete_found_lem v c (err e) at_rest answered found h =
      let (none_there, kept) = nothing_found p L v c at_rest answered found in
      inl (none_there, ground (arith, kept))

  -- DeleteVolume, whose search was answered: nothing was there, or the first volume found is gone.
  pub delete_volume_lem :
      (v : String) (c : Cloud) {vols : List EbsVolume} {c1 c' : Cloud} {u : Unit {0}}
      → settled c
      → p.ec2_client.describe_volumes (tag_filter ("tag:" <> volume_tag_key) v) c ≡ (ok vols, c1)
      → delete_volume p v c ≡ (ok u, c')
      → ((tagged v (volumes c) ≡ []) × (volumes c' ≡ volumes c))
        ⊎ ((x : EbsVolume) × (xs : List EbsVolume) × (tagged v (volumes c) ≡ x ∷ xs)
            × (volumes c' ≡ without_id x.ebs_id (volumes c)))
  unfolding delete_volume
  delete_volume_lem v c at_rest answered h =
      let (r, c2, e1, e2) = bind_ok (try (find_ebs_volume_id p v)) (delete_found p) c h in
      delete_found_lem v c r at_rest answered (try_ok (find_ebs_volume_id p v) c e1) e2

  -- The volume with an ID was large enough, or EC2 resized it.
  abbrev pub Enlarges : String → ℤ → Cloud → Cloud → Type 0
  Enlarges i size c c' =
      ((is_large_enough size (with_id i (volumes c)) ≡ true) × (volumes c' ≡ volumes c))
      ⊎ ((is_large_enough size (with_id i (volumes c)) ≡ false)
          × (volumes c' ≡ map (resized i size) (volumes c)))

  enlarge_lem :
      (size : ℤ) {i j : String} {vols : List EbsVolume} {c c1 c2 c' : Cloud} {u : Unit {0}}
      → i ≡ j
      → vols ≡ with_id i (volumes c1)
      → volumes c1 ≡ volumes c
      → volumes c2 ≡ volumes c1
      → enlarge p i size (is_large_enough size vols) c2 ≡ (ok u, c')
      → Enlarges j size c c'
  enlarge_lem size {i} {j} {vols} {c} {c1} {c2} {c'} {u} same described kept kept_too h =
      let vols_same : vols ≡ with_id j (volumes c) = ground (arith, described, same, kept) in
      elim (Bool-cases (is_large_enough size vols)) [
        | inl large ↦ inl (ground arith, ground arith)
        | inr small ↦
            let e : wrapping ("ec2.ModifyVolume failed for " <> i)
                  (p.ec2_client.modify_volume i size) c2
                ≡ (ok u, c') =
              ground arith in
            let sized = L.modify_resizes (wrapping_ok _ (p.ec2_client.modify_volume i size) c2 e) in
            inr (ground arith, ground arith)
      ]

  -- ExpandVolume found a volume that is large enough, or resized the first one.
  pub expand_volume_lem :
      (v : String) (n : ℤ) (c : Cloud) {c' : Cloud} {u : Unit {0}}
      → settled c
      → expand_volume p v n c ≡ (ok u, c')
      → (x : EbsVolume) × (xs : List EbsVolume) × (tagged v (volumes c) ≡ x ∷ xs)
        × Enlarges x.ebs_id (gib_ceil n) c c'
  unfolding expand_volume
  expand_volume_lem v n c at_rest h =
      let find = wrapping ("cannot find EBS volume for " <> v) (find_ebs_volume_id p v) in
      let act = λ (i : String) (vols : List EbsVolume).
        enlarge p i (gib_ceil n) (is_large_enough (gib_ceil n) vols) in
      let (i, c1, e1, e2) = bind_ok find (λ (i : String). describe_by_id p i >>= act i) c h in
      let (x, xs, found, same, kept, after) =
        find_ebs_volume_id_lem p L v c at_rest (wrapping_ok _ (find_ebs_volume_id p v) c e1) in
      let (vols, c2, e3, e4) = bind_ok (describe_by_id p i) (act i) c1 e2 in
      let (described, kept_too) = describe_by_id_lem p L i c1 after e3 in
      (x, xs, found, enlarge_lem (gib_ceil n) same described kept kept_too e4)
