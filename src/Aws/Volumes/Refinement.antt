-- ===== src/Aws/Volumes/Refinement.antt =====
-- What CreateVolume, DeleteVolume and ExpandVolume of pkg/provider/aws/provider.go promise, as
-- operations on the sizes of the CSI volumes, and that they implement it over any history.
use caa_csi_block_driver.Provider.Numbers.{gib_ceil}
use caa_csi_block_driver.Prelude.{ℤ, String, ◌<>◌, ◌≡◌, List, [], ◌∷◌}
use caa_csi_block_driver.Result.{ok}
use caa_csi_block_driver.Provider.{VolumeInfo}
use caa_csi_block_driver.Provider.Specification.{
  Op, create, delete, expand, Disks, specified, specified_all,
}
use caa_csi_block_driver.Aws.{EbsVolume, AwsProvider, tag_filter, volume_tag_key}
use caa_csi_block_driver.Aws.Volumes.{gib_floor, create_volume, delete_volume, expand_volume}
use caa_csi_block_driver.Aws.Cloud.{Ec2Laws}
use caa_csi_block_driver.Aws.Volumes.Tidy.{IsTidy, disk}

-- The specification with the provider's rounding. A tag names the CSI volume itself.
abbrev pub specified_by_tag : Op → Disks → Disks
specified_by_tag = specified gib_floor gib_ceil (λ v. v)

abbrev pub all_specified_by_tag : List Op → Disks → Disks
all_specified_by_tag = specified_all gib_floor gib_ceil (λ v. v)

module _ {Cloud : Type 0} (p : AwsProvider Cloud) (L : Ec2Laws p.ec2_client) where
  -- Calls that succeed. DeleteVolume also succeeds when its search fails; that is no step.
  pub data Acts : Cloud → Op → Cloud → Type 0 where
    creates :
        {c c' : Cloud} {v : String} {n : ℤ} {info : VolumeInfo}
        → create_volume p v n c ≡ (ok info, c')
        → Acts c (create v n) c'
    deletes :
        {c c1 c' : Cloud} {v : String} {vols : List EbsVolume} {u : Unit {0}}
        → p.ec2_client.describe_volumes (tag_filter ("tag:" <> volume_tag_key) v) c ≡ (ok vols, c1)
        → delete_volume p v c ≡ (ok u, c')
        → Acts c (delete v) c'
    expands :
        {c c' : Cloud} {v : String} {n : ℤ} {u : Unit {0}}
        → expand_volume p v n c ≡ (ok u, c')
        → Acts c (expand v n) c'

  -- Calls one after another. Each starts in a settled account, and after it EC2 goes on to another
  -- state, in which the same is asked for.
  pub data History : Cloud → List Op → Cloud → Type 0 where
    start : {c : Cloud} → History c [] c
    then_op :
        {c c1 c2 c' : Cloud} {op : Op} {ops : List Op}
        → L.settled c
        → Acts c op c1
        → L.volumes c2 ≡ L.volumes c1
        → History c2 ops c'
        → History c (op ∷ ops) c'

-- The disks after a change are those that the specification asks for.
abbrev Meets : List EbsVolume → Op → List EbsVolume → Type 0
Meets vols op vols' =
    IsTidy vols' × ((w : String) → disk vols' w ≡ specified_by_tag op (disk vols) w)
