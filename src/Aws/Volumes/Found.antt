-- ===== src/Aws/Volumes/Found.antt =====
-- What the searches of pkg/provider/aws/provider.go for EBS volumes find in a settled account of a cloud
-- with EC2's laws.
use mathlib.Core.Path.{subst}
use caa_csi_block_driver.Prelude.{String, ◌<>◌, ◌≡◌, refl, ◌∙◌, sym, ap, Bool, List, [], ◌∷◌, arith}
use caa_csi_block_driver.Result.{GoError, ok, err}
use caa_csi_block_driver.Provider.{VolumeInfo}
use caa_csi_block_driver.Provider.Calls.{bind_ok, wrapping_ok, wrapping, pure, ◌>>=◌}
use caa_csi_block_driver.Aws.{EbsVolume, AwsProvider, tag_filter, volume_tag_key}
use caa_csi_block_driver.Aws.Volumes.{
  tagged_volumes, is_found, volume_exists, first_id, find_ebs_volume_id, get_volume_info,
  describe_by_id, first_info,
}
use caa_csi_block_driver.Aws.Cloud.{tagged, with_id, Ec2Laws}

module _ {Cloud : Type 0} (p : AwsProvider Cloud) (L : Ec2Laws p.ec2_client) where
  open p use {config}
  open L use {volumes, settled}

  tagged_volumes_lem :
      (v : String) (c : Cloud) {vols : List EbsVolume} {c' : Cloud}
      → settled c
      → tagged_volumes p v c ≡ (ok vols, c')
      → (vols ≡ tagged v (volumes c)) × (volumes c' ≡ volumes c) × settled c'
  unfolding tagged_volumes
  tagged_volumes_lem v c at_rest h =
      let e =
        wrapping_ok "ec2.DescribeVolumes failed"
          (p.ec2_client.describe_volumes (tag_filter ("tag:" <> volume_tag_key) v)) c h in
      (L.describe_finds at_rest e, L.describe_keeps e, L.describe_settled at_rest e)

  pub volume_exists_lem :
      (v : String) (c : Cloud) {b : Bool} {c' : Cloud}
      → settled c
      → volume_exists p v c ≡ (ok b, c')
      → (b ≡ is_found (tagged v (volumes c))) × (volumes c' ≡ volumes c) × settled c'
  unfolding volume_exists
  volume_exists_lem v c at_rest h =
      let (vols, c1, e1, e2) = bind_ok (tagged_volumes p v) (λ vs. pure (is_found vs)) c h in
      let (found, kept, after) = tagged_volumes_lem v c at_rest e1 in
      (
        ground (arith, found, e2),
        ground (arith, kept, e2),
        subst settled (ground (arith, e2)) after,
      )

  -- The first of the volumes that were found, and nothing changed since.
  abbrev pub Finds : String → Cloud → String → Cloud → Type 0
  Finds v c i c' =
      (x : EbsVolume) × (xs : List EbsVolume) × (tagged v (volumes c) ≡ x ∷ xs)
      × (i ≡ x.ebs_id)
      × (volumes c' ≡ volumes c)
      × settled c'

  nothing_first :
      (v : String) (vols : List EbsVolume) {c c' : Cloud} {e : GoError}
      → first_id p v vols c ≡ (err e, c')
      → (vols ≡ []) × (c ≡ c')
  unfolding first_id
  nothing_first v [] h = (refl, ground arith)
  nothing_first v (x ∷ xs) h = absurd (ground arith)

  -- A search that was answered and failed found nothing.
  pub nothing_found :
      (v : String) (c : Cloud) {vols : List EbsVolume} {c1 c' : Cloud} {e : GoError}
      → settled c
      → p.ec2_client.describe_volumes (tag_filter ("tag:" <> volume_tag_key) v) c ≡ (ok vols, c1)
      → find_ebs_volume_id p v c ≡ (err e, c')
      → (tagged v (volumes c) ≡ []) × (volumes c' ≡ volumes c)
  unfolding find_ebs_volume_id tagged_volumes wrapping ◌>>=◌
  nothing_found v c {vols} {c1} {c'} at_rest answered h =
      let (empty, same) = nothing_first v vols (rw answered at h) in
      (
        sym (L.describe_finds at_rest answered) ∙ empty,
        ap volumes (sym same) ∙ L.describe_keeps answered,
      )

  first_id_lem :
      (v : String) (vols : List EbsVolume) (c c1 : Cloud) {i : String} {c' : Cloud}
      → vols ≡ tagged v (volumes c)
      → volumes c1 ≡ volumes c
      → settled c1
      → first_id p v vols c1 ≡ (ok i, c')
      → Finds v c i c'
  unfolding first_id
  first_id_lem v [] c c1 found kept at_rest h = absurd (ground arith)
  first_id_lem v (x ∷ xs) c c1 found kept at_rest h =
      (x, xs, sym found, ground arith, ground arith, subst settled (ground arith) at_rest)

  pub find_ebs_volume_id_lem :
      (v : String) (c : Cloud) {i : String} {c' : Cloud}
      → settled c
      → find_ebs_volume_id p v c ≡ (ok i, c')
      → Finds v c i c'
  unfolding find_ebs_volume_id
  find_ebs_volume_id_lem v c at_rest h =
      let (vols, c1, e1, e2) = bind_ok (tagged_volumes p v) (first_id p v) c h in
      let (found, kept, after) = tagged_volumes_lem v c at_rest e1 in
      first_id_lem v vols c c1 found kept after e2

  pub describe_by_id_lem :
      (i : String) (c : Cloud) {vols : List EbsVolume} {c' : Cloud}
      → settled c
      → describe_by_id p i c ≡ (ok vols, c')
      → (vols ≡ with_id i (volumes c)) × (volumes c' ≡ volumes c)
  unfolding describe_by_id
  describe_by_id_lem i c at_rest h =
      let e =
        wrapping_ok ("ec2.DescribeVolumes failed for " <> i) (p.ec2_client.describe_volume_ids i) c
          h in
      (L.describe_ids_finds at_rest e, L.describe_ids_keeps e)

  first_info_keeps :
      (v i : String) (vols : List EbsVolume) (c : Cloud) {info : VolumeInfo} {c' : Cloud}
      → first_info p v i vols c ≡ (ok info, c')
      → volumes c' ≡ volumes c
  unfolding first_info
  first_info_keeps v i [] c h = absurd (ground arith)
  first_info_keeps v i (x ∷ xs) c h = ground arith

  pub get_volume_info_keeps :
      (v : String) (c : Cloud) {info : VolumeInfo} {c' : Cloud}
      → settled c
      → get_volume_info p v c ≡ (ok info, c')
      → volumes c' ≡ volumes c
  unfolding get_volume_info
  get_volume_info_keeps v c at_rest h =
      let (i, c1, e1, e2) = bind_ok (find_ebs_volume_id p v) _ c h in
      let (x, xs, found, same, kept, after) = find_ebs_volume_id_lem v c at_rest e1 in
      let (vols, c2, e3, e4) = bind_ok (describe_by_id p i) (first_info p v i) c1 e2 in
      let (_, kept_too) = describe_by_id_lem i c1 after e3 in
      first_info_keeps v i vols c2 e4 ∙ kept_too ∙ kept
