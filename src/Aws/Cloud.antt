-- ===== src/Aws/Cloud.antt =====
-- What EC2 documents of the calls that the AWS provider makes. A call may fail. EC2 is eventually
-- consistent: a request that it accepts is carried out later, and DescribeVolumes shows what was
-- requested only once the account is settled. The laws are over the volumes that the requests accepted
-- so far ask for; what a search finds is known in a settled account only.
use caa_csi_block_driver.Prelude.{
  ℤ, String, ◌<>◌, ◌≡◌, Bool, false, Option, none, some, List, [], ◌∷◌, ◌++◌, map, ◌==◌, not,
  if◌then◌else◌,
}
use caa_csi_block_driver.Prelude.Keep.{keep}
use caa_csi_block_driver.GoMap.{or_empty}
use caa_csi_block_driver.Result.{Result, ok}
use caa_csi_block_driver.Aws.{
  Tag, Filter, EbsVolume, CreateVolumeInput, Ec2, tag_filter, volume_tag_key,
}

-- The value of a key; EC2 keeps one tag for a key.
unfoldable pub value_of : String → List Tag → Option String
value_of key [] = none
value_of key (t ∷ ts) = if or_empty t.key == key then some (or_empty t.value) else value_of key ts

abbrev is_value : String → Option String → Bool
is_value v none = false
is_value v (some w) = w == v

-- Whether a volume is tagged as a CSI volume's disk.
unfoldable pub is_disk_of : String → EbsVolume → Bool
unfolding value_of
is_disk_of volume_id vol = is_value volume_id (value_of volume_tag_key vol.tags)

unfoldable pub has_id : String → EbsVolume → Bool
has_id ebs_id vol = vol.ebs_id == ebs_id

abbrev pub tagged : String → List EbsVolume → List EbsVolume
tagged volume_id vols = keep (is_disk_of volume_id) vols

abbrev pub with_id : String → List EbsVolume → List EbsVolume
with_id ebs_id vols = keep (has_id ebs_id) vols

abbrev pub without_id : String → List EbsVolume → List EbsVolume
without_id ebs_id vols = keep (λ v. not (has_id ebs_id v)) vols

-- The volume that EC2 makes from an input.
unfoldable pub made : CreateVolumeInput → String → EbsVolume
made input ebs_id = record {
  ebs_id = ebs_id;
  size = input.size;
  availability_zone = some input.availability_zone;
  tags = input.tags;
}

-- A volume after ModifyVolume on the volume with an ID.
unfoldable pub resized : String → ℤ → EbsVolume → EbsVolume
unfolding has_id
resized ebs_id size vol = if has_id ebs_id vol then record vol { size = size } else vol

pub record Ec2Laws {Cloud : Type 0} (ec2 : Ec2 Cloud) : Type 1 where
  -- The volumes as they are once all requests accepted so far have been carried out.
  pub volumes : Cloud → List EbsVolume
  -- Every request accepted so far has been carried out, and is shown.
  pub settled : Cloud → Type 0
  pub describe_finds :
      {v : String} {c c' : Cloud} {vols : List EbsVolume}
      → settled c
      → ec2.describe_volumes (tag_filter ("tag:" <> volume_tag_key) v) c ≡ (ok vols, c')
      → vols ≡ tagged v (volumes c)
  pub describe_keeps :
      {f : Filter} {c c' : Cloud} {r : Result (List EbsVolume)}
      → ec2.describe_volumes f c ≡ (r, c')
      → volumes c' ≡ volumes c
  pub describe_settled :
      {f : Filter} {c c' : Cloud} {r : Result (List EbsVolume)}
      → settled c
      → ec2.describe_volumes f c ≡ (r, c')
      → settled c'
  pub describe_ids_finds :
      {i : String} {c c' : Cloud} {vols : List EbsVolume}
      → settled c
      → ec2.describe_volume_ids i c ≡ (ok vols, c')
      → vols ≡ with_id i (volumes c)
  pub describe_ids_keeps :
      {i : String} {c c' : Cloud} {r : Result (List EbsVolume)}
      → ec2.describe_volume_ids i c ≡ (r, c')
      → volumes c' ≡ volumes c
  pub create_adds :
      {input : CreateVolumeInput} {c c' : Cloud} {i : String}
      → ec2.create_volume input c ≡ (ok i, c')
      → (with_id i (volumes c) ≡ []) × (volumes c' ≡ volumes c ++ made input i ∷ [])
  pub delete_removes :
      {i : String} {c c' : Cloud} {u : Unit {0}}
      → ec2.delete_volume i c ≡ (ok u, c')
      → volumes c' ≡ without_id i (volumes c)
  pub modify_resizes :
      {i : String} {size : ℤ} {c c' : Cloud} {u : Unit {0}}
      → ec2.modify_volume i size c ≡ (ok u, c')
      → volumes c' ≡ map (resized i size) (volumes c)
  pub wait_keeps :
      {i : String} {c c' : Cloud} {r : Result (Unit {0})}
      → ec2.wait_volume_available i c ≡ (r, c')
      → volumes c' ≡ volumes c
