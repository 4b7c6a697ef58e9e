-- ===== src/Aws/Volumes.antt =====
-- The volumes of pkg/provider/aws/provider.go: VolumeExists, findEBSVolumeID, GetVolumeInfo,
-- CreateVolume, DeleteVolume, ExpandVolume and ListManagedVolumes.
pub mod Found
pub mod Effects
pub mod Sizes
pub mod Listing
pub mod Deletion
pub mod Tidy
pub mod Refinement
use caa_csi_block_driver.Provider.Numbers.{
  gib, gib_ceil, is_positive, one_if_zero, some_if_positive, some_if_set,
}
use caa_csi_block_driver.Prelude.{
  ℕ, ℤ, pos, add_nat, to_int32, to_int64, quot, scale, eq_int, le_int, String, ◌<>◌, Bool, true,
  false, Option, none, some, List, [], ◌∷◌, ◌==◌, if◌then◌else◌,
}
use caa_csi_block_driver.GoMap.{Params, or_empty}
use caa_csi_block_driver.Result.{GoError, Result, ok, err, error}
use caa_csi_block_driver.Provider.{Call, VolumeInfo}
use caa_csi_block_driver.Provider.Calls.{pure, fail, try, wrapping, ◌>>=◌, ◌>>◌}
use caa_csi_block_driver.Provider.Pages.{list_pages}
use caa_csi_block_driver.Aws.{
  Config, Tag, EbsVolume, CreateVolumeInput, AwsProvider, tag, tag_filter, tag_value,
  volume_tag_key,
}

-- int32(sizeBytes / gib), and 1 instead of 0
unfoldable pub gib_floor : ℤ → ℤ
gib_floor size_bytes = one_if_zero (to_int32 (quot size_bytes gib))

-- The metadata of a volume in an availability zone.
abbrev pub volume_metadata : String → String → Params
volume_metadata ebs_id zone =
    ("cloud-volume-path", ebs_id)
    ∷ ("cloud-provider", "aws")
    ∷ ("ebs-volume-id", ebs_id)
    ∷ ("availability-zone", zone)
    ∷ []

-- The input of ec2.CreateVolume, with or without a snapshot to make the volume from.
unfoldable pub create_input : Config → String → Option String → ℤ → CreateVolumeInput
create_input cfg volume_id snapshot size = record {
  availability_zone = cfg.availability_zone;
  snapshot_id = snapshot;
  size = size;
  volume_type = cfg.volume_type;
  tags = tag "Name" ("csi-vol-" <> volume_id) ∷ tag volume_tag_key volume_id ∷ [];
  iops = some_if_positive cfg.iops;
  throughput = some_if_positive cfg.throughput;
  kms_key_id = some_if_set cfg.kms_key_id;
}

-- The info of a volume that was just made.
unfoldable pub created_info : Config → String → ℤ → String → VolumeInfo
created_info cfg volume_id size_bytes ebs_id = record {
  volume_id = volume_id;
  path = ebs_id;
  size_bytes = size_bytes;
  provider = "aws";
  metadata = volume_metadata ebs_id cfg.availability_zone;
}

-- The info of a volume that EC2 describes.
unfoldable pub volume_info : String → String → EbsVolume → VolumeInfo
volume_info volume_id ebs_id vol = record {
  volume_id = volume_id;
  path = ebs_id;
  size_bytes = scale vol.size gib;
  provider = "aws";
  metadata = volume_metadata ebs_id (or_empty vol.availability_zone);
}

-- The body of ListManagedVolumes' inner loop.
unfoldable pub managed_volume : EbsVolume → Option VolumeInfo
managed_volume vol =
    let volume_id = tag_value volume_tag_key "" vol.tags in
    if volume_id == "" then none else some (volume_info volume_id vol.ebs_id vol)

abbrev is_found : List EbsVolume → Bool
is_found [] = false
is_found (v ∷ vs) = true

abbrev is_large_enough : ℤ → List EbsVolume → Bool
is_large_enough size [] = false
is_large_enough size (v ∷ vs) = le_int size v.size

module _ {Cloud : Type 0} (p : AwsProvider Cloud) where
  open p use {ec2_client, config}

  -- The volumes with the tag of a CSI volume.
  tagged_volumes : String → Call Cloud (List EbsVolume)
  tagged_volumes volume_id =
      wrapping "ec2.DescribeVolumes failed"
        (ec2_client.describe_volumes (tag_filter ("tag:" <> volume_tag_key) volume_id))

  unfoldable pub volume_exists : String → Call Cloud Bool
  unfolding tagged_volumes ◌>>=◌ wrapping
  volume_exists volume_id = do vols ← tagged_volumes volume_id; pure (is_found vols)

  first_id : String → List EbsVolume → Call Cloud String
  first_id volume_id [] =
      fail (error ("EBS volume with tag " <> volume_tag_key <> "=" <> volume_id <> " not found"))
  first_id volume_id (v ∷ vs) = pure v.ebs_id

  -- findEBSVolumeID
  unfoldable pub find_ebs_volume_id : String → Call Cloud String
  unfolding tagged_volumes first_id ◌>>=◌ wrapping
  find_ebs_volume_id volume_id = do vols ← tagged_volumes volume_id; first_id volume_id vols

  -- The volumes with an EBS ID.
  pub describe_by_id : String → Call Cloud (List EbsVolume)
  unfolding wrapping
  describe_by_id ebs_id =
      wrapping ("ec2.DescribeVolumes failed for " <> ebs_id) (ec2_client.describe_volume_ids ebs_id)

  first_info : String → String → List EbsVolume → Call Cloud VolumeInfo
  first_info volume_id ebs_id [] = fail (error ("volume " <> volume_id <> " not found"))
  first_info volume_id ebs_id (v ∷ vs) = pure (volume_info volume_id ebs_id v)

  unfoldable pub get_volume_info : String → Call Cloud VolumeInfo
  unfolding find_ebs_volume_id describe_by_id first_info ◌>>=◌
  get_volume_info volume_id = do
    ebs_id ← find_ebs_volume_id volume_id
    vols ← describe_by_id ebs_id
    first_info volume_id ebs_id vols

  -- A new volume from an input. The waiter's error is only logged.
  unfoldable pub make_volume : String → CreateVolumeInput → Call Cloud String
  unfolding ◌>>=◌ wrapping try
  make_volume message input = do
    ebs_id ← wrapping message (ec2_client.create_volume input)
    try (ec2_client.wait_volume_available ebs_id)
    pure ebs_id

  create_new : String → ℤ → Call Cloud VolumeInfo
  unfolding make_volume ◌>>=◌
  create_new volume_id size_bytes = do
    ebs_id ←
        make_volume ("ec2.CreateVolume failed for " <> volume_id)
          (create_input config volume_id none (gib_floor size_bytes))
    pure (created_info config volume_id size_bytes ebs_id)

  -- A volume that is there is reused.
  abbrev reuse_or : String → Call Cloud VolumeInfo → Bool → Call Cloud VolumeInfo
  reuse_or volume_id create true = get_volume_info volume_id
  reuse_or volume_id create false = create

  -- What CreateVolume and both ways to clone a volume do first.
  unfoldable pub unless_exists : String → Call Cloud VolumeInfo → Call Cloud VolumeInfo
  unfolding volume_exists get_volume_info ◌>>=◌
  unless_exists volume_id create =
      if config.availability_zone == ""
      then fail (error "awsAvailabilityZone is required to create volumes")
      else (do exists ← volume_exists volume_id; reuse_or volume_id create exists)

  unfoldable pub create_volume : String → ℤ → Call Cloud VolumeInfo
  unfolding unless_exists create_new
  create_volume volume_id size_bytes = unless_exists volume_id (create_new volume_id size_bytes)

  -- Any error of the search counts as a volume that is not there.
  delete_found : Result String → Call Cloud (Unit {0})
  unfolding wrapping
  delete_found (err _) = pure tt
  delete_found (ok ebs_id) =
      wrapping ("ec2.DeleteVolume failed for " <> ebs_id) (ec2_client.delete_volume ebs_id)

  unfoldable pub delete_volume : String → Call Cloud (Unit {0})
  unfolding find_ebs_volume_id delete_found ◌>>=◌ try
  delete_volume volume_id = do found ← try (find_ebs_volume_id volume_id); delete_found found

  -- A volume that is large enough is left alone.
  abbrev enlarge : String → ℤ → Bool → Call Cloud (Unit {0})
  enlarge ebs_id size true = pure tt
  enlarge ebs_id size false =
      wrapping ("ec2.ModifyVolume failed for " <> ebs_id) (ec2_client.modify_volume ebs_id size)

  unfoldable pub expand_volume : String → ℤ → Call Cloud (Unit {0})
  unfolding find_ebs_volume_id describe_by_id ◌>>=◌ wrapping
  expand_volume volume_id new_size_bytes = do
    ebs_id ← wrapping ("cannot find EBS volume for " <> volume_id) (find_ebs_volume_id volume_id)
    vols ← describe_by_id ebs_id
    let size = gib_ceil new_size_bytes
    enlarge ebs_id size (is_large_enough size vols)

  -- ListManagedVolumes, whose context lets some number of pages through
  unfoldable pub list_managed_volumes : ℕ → Call Cloud (List VolumeInfo)
  unfolding wrapping
  list_managed_volumes pages = wrapping "ec2.DescribeVolumes for recovery failed" (
      list_pages managed_volume pages
        (ec2_client.volume_pages (tag_filter "tag-key" volume_tag_key)) none)
