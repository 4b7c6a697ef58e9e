-- ===== src/Tests/AwsTests.antt =====
-- The AWS provider's theorems at concrete inputs.
use caa_csi_block_driver.Aws.{AwsProvider, tag, volume_tag_key}
use caa_csi_block_driver.Aws.Snapshots.{snapshot_tags}
use caa_csi_block_driver.Aws.Clone.{create_volume_from_volume, aws_block_provider}
use caa_csi_block_driver.Aws.Clone.CleanUp.{Clones, Clones-create_volume_from_volume}
use caa_csi_block_driver.Tests.Ec2.{
  client, snapshot, config, Account, online, offline, disks, aws, client-Ec2Laws, disk_with,
}
use caa_csi_block_driver.Provider.Numbers.{gib}
use caa_csi_block_driver.Aws.Cloud.{made, is_disk_of}
use caa_csi_block_driver.Prelude.{
  ℕ, ◌*◌, ◌%◌, ◌<◌, pos, ◌≡◌, ◌≢◌, refl, ◌↔◌, none, some, [], ◌∷◌, arith,
}
use caa_csi_block_driver.Aws.Volumes.{create_volume, expand_volume, gib_floor}
use caa_csi_block_driver.GoMap.{copy_into, set, lookup}
use caa_csi_block_driver.Tests.Files.{find, memory, volume_record, apart}
use caa_csi_block_driver.Prelude.Keep.{keep}
use caa_csi_block_driver.Topology.{clone_params}
use caa_csi_block_driver.Result.{ok, error, done}
use caa_csi_block_driver.Provider.{new_block_volume_provider}
use caa_csi_block_driver.Server.{Setup, World}
use caa_csi_block_driver.Store.{load, delete}
use caa_csi_block_driver.Controller.Delete.{DeleteVolumeRequest, delete_volume}
use caa_csi_block_driver.Platform.{VolumeRecord}
use caa_csi_block_driver.Aws.Volumes.Deletion.{delete_volume-forgets}
use caa_csi_block_driver.Controller.{delete_provider_params}
use caa_csi_block_driver.Aws.Volumes.Sizes.{gib_floor_short_iff}
use caa_csi_block_driver.Tests.Cloud.{no_env}
use caa_csi_block_driver.Aws.Volumes
use caa_csi_block_driver.Provider.Specification

-- A volume of 5 GiB is created, expanded to 6 GiB and a byte, and deleted.
abbrev created : Account
created = (create_volume aws "pvc-1" (pos 5368709120) (online [])).1

abbrev expanded : Account
expanded = (expand_volume aws "pvc-1" (pos 6442450945) created).1

abbrev removed : Account
removed = (Volumes.delete_volume aws "pvc-1" expanded).1

gib_floor_short_iff_example :
    (g : ℕ) × (gib_floor (pos 6442450945) ≡ pos g)
    × (g * gib < 6442450945 ↔ (gib < 6442450945) × (6442450945 % gib ≢ 0))
gib_floor_short_iff_example = gib_floor_short_iff 6442450945 (omega arith)

abbrev aws_setup : Setup
aws_setup = record {
  platform = memory no_env;
  dir = "/store";
  Cloud = Account;
  registry = ("aws", λ params c. (ok (aws_block_provider aws 2 "soon"), c)) ∷ [];
}

abbrev rec : VolumeRecord
rec = record {
  volume_id = "pvc-1";
  provider = "aws";
  path = "vol-1";
  capacity_bytes = pos 5368709120;
  params = some (("cloudProvider", "aws") ∷ []);
}

abbrev unreachable : World aws_setup
unreachable = record {
  files = ("/store/pvc-1.json", volume_record rec) ∷ [];
  cloud = offline (disk_with (tag volume_tag_key "pvc-1" ∷ []) ∷ []);
}

abbrev request : DeleteVolumeRequest
request = record { volume_id = "pvc-1"; secrets = none }

delete_volume-forgets_example :
    (delete_volume aws_setup request unreachable ≡ (
      done tt,
      record {
        files = delete (memory no_env) "/store" "pvc-1" unreachable.files;
        cloud = unreachable.cloud;
      },
    ))
    × (client-Ec2Laws.volumes unreachable.cloud ≡ client-Ec2Laws.volumes unreachable.cloud)
unfolding load find new_block_volume_provider lookup delete_provider_params set clone_params
    copy_into delete delete_volume
delete_volume-forgets_example =
    delete_volume-forgets aws_setup aws client-Ec2Laws 2 "soon" request unreachable rec
      (error "no such host") unreachable.cloud (apart _ _ refl) refl refl refl

-- An account that has room for a clone and finds its temporary snapshot.
abbrev cloner : AwsProvider Account
cloner = record {
  ec2_client = record client {
    describe_snapshots = λ f c. (ok (snapshot (snapshot_tags "pvc-1" "clone-pvc-2") ∷ []), c);
    create_volume = λ input c. (ok "vol-2", online (made input "vol-2" ∷ disks c));
  };
  config = config;
}

abbrev source : Account
source = online (disk_with (tag volume_tag_key "pvc-1" ∷ []) ∷ [])

Clones-create_volume_from_volume_example :
    let (r, c') =
      create_volume_from_volume cloner "2030-01-01T00:00:00Z" "pvc-2" "pvc-1"
        (pos 5368709120)
        source in
    Clones cloner "clone-pvc-2" "pvc-2" "pvc-1" (pos 5368709120) source r c'
unfolding Volumes.volume_exists keep is_disk_of
Clones-create_volume_from_volume_example =
    Clones-create_volume_from_volume cloner "2030-01-01T00:00:00Z" "pvc-2" "pvc-1" (pos 5368709120)
      source source (apart _ _ refl) refl
