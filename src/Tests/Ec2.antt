-- ===== src/Tests/Ec2.antt =====
-- An EC2 account in memory that has room for one volume and may be out of reach.
use caa_csi_block_driver.Prelude.{
  pos, String, ◌≡◌, refl, true, Option, none, some, List, [], ◌∷◌, ◌++◌, map, arith,
}
use caa_csi_block_driver.Prelude.Keep.{keep}
use caa_csi_block_driver.Result.{Result, ok, err, error}
use caa_csi_block_driver.Provider.{Call}
use caa_csi_block_driver.Provider.Pages.{Page}
use caa_csi_block_driver.Aws.{
  Config, Tag, EbsVolume, EbsSnapshot, CreateVolumeInput, Ec2, AwsProvider, tag, volume_tag_key,
}
use caa_csi_block_driver.Aws.Cloud.{tagged, with_id, without_id, made, resized, Ec2Laws}

pub data Account : Type 0 where
  online offline : List EbsVolume → Account

abbrev pub disks : Account → List EbsVolume
disks (online ds) = ds
disks (offline ds) = ds

abbrev pub describe : (List EbsVolume → List EbsVolume) → Call Account (List EbsVolume)
describe select (online ds) = (ok (select ds), online ds)
describe select (offline ds) = (err (error "no such host"), offline ds)

abbrev pub change : (List EbsVolume → List EbsVolume) → Call Account (Unit {0})
change f (online ds) = (ok tt, online (f ds))
change f (offline ds) = (err (error "no such host"), offline ds)

abbrev pub create : CreateVolumeInput → Call Account String
create input (online []) = (ok "vol-1", online (made input "vol-1" ∷ []))
create input (online (d ∷ ds)) = (err (error "VolumeLimitExceeded"), online (d ∷ ds))
create input (offline ds) = (err (error "no such host"), offline ds)

abbrev pub snapshot : List Tag → EbsSnapshot
snapshot tags = record {
  ebs_id = "snap-1";
  volume_size = some (pos 5);
  start_time = some (pos 1700000000);
  is_completed = true;
  tags = tags;
}

abbrev pub disk_with : List Tag → EbsVolume
disk_with tags = record {
  ebs_id = "vol-1";
  size = pos 5;
  availability_zone = some "us-east-1a";
  tags = tags;
}

-- A listing has two pages: a volume of the driver's, and one without its tag.
abbrev pub pages : Option String → Call Account (Page EbsVolume)
pages none c = (ok (disk_with (tag volume_tag_key "pvc-1" ∷ []) ∷ [], some "2"), c)
pages (some token) c = (ok (disk_with [] ∷ [], none), c)

abbrev pub client : Ec2 Account
client = record {
  describe_volumes = λ f. describe (tagged f.value);
  describe_volume_ids = λ i. describe (with_id i);
  volume_pages = λ f. pages;
  describe_snapshots = λ f c. (ok [], c);
  snapshot_pages = λ f token c. (ok ([], none), c);
  create_volume = create;
  delete_volume = λ i. change (without_id i);
  modify_volume = λ i size. change (map (resized i size));
  create_snapshot = λ i tags c. (ok (snapshot tags), c);
  delete_snapshot = λ i c. (ok tt, c);
  create_tags = λ i tags c. (ok tt, c);
  wait_volume_available = λ i c. (ok tt, c);
  wait_snapshot_completed = λ i c. (ok tt, c);
}

abbrev pub config : Config
config = record {
  region = "us-east-1";
  availability_zone = "us-east-1a";
  volume_type = "gp3";
  access_key_id = "";
  secret_key = "";
  iops = pos 0;
  throughput = pos 0;
  kms_key_id = "";
}

abbrev pub aws : AwsProvider Account
aws = record { ec2_client = client; config = config }

pub describe_finds :
    (f : List EbsVolume → List EbsVolume) (c c' : Account) (vols : List EbsVolume)
    → describe f c ≡ (ok vols, c')
    → vols ≡ f (disks c)
describe_finds f (online ds) c' vols h = ground arith
describe_finds f (offline ds) c' vols h = absurd (ground arith)

pub describe_keeps :
    (f : List EbsVolume → List EbsVolume) (c c' : Account) (r : Result (List EbsVolume))
    → describe f c ≡ (r, c')
    → disks c' ≡ disks c
describe_keeps f (online ds) c' r h = ground arith
describe_keeps f (offline ds) c' r h = ground arith

pub change_changes :
    (f : List EbsVolume → List EbsVolume) (c c' : Account) (u : Unit {0})
    → change f c ≡ (ok u, c')
    → disks c' ≡ f (disks c)
change_changes f (online ds) c' u h = ground arith
change_changes f (offline ds) c' u h = absurd (ground arith)

pub create_adds :
    (input : CreateVolumeInput) (c c' : Account) (i : String)
    → create input c ≡ (ok i, c')
    → (with_id i (disks c) ≡ []) × (disks c' ≡ disks c ++ made input i ∷ [])
unfolding keep
create_adds input (online []) c' i h = (refl, ground arith)
create_adds input (online (d ∷ ds)) c' i h = absurd (ground arith)
create_adds input (offline ds) c' i h = absurd (ground arith)

pub wait_keeps :
    (c c' : Account) (r : Result (Unit {0}))
    → ◌≡◌ {A = Result (Unit {0}) × Account} (ok tt, c) (r, c')
    → disks c' ≡ disks c
wait_keeps c c' r h = ground arith

abbrev pub client-Ec2Laws : Ec2Laws client
client-Ec2Laws = record {
  volumes = disks;
  settled = λ c. Unit {0};
  describe_finds = λ {v} {c} {c'} {vols} at_rest. describe_finds (tagged v) c c' vols;
  describe_keeps = λ {f} {c} {c'} {r}. describe_keeps (tagged f.value) c c' r;
  describe_settled = λ {f} {c} {c'} {r} at_rest h. tt;
  describe_ids_finds = λ {i} {c} {c'} {vols} at_rest. describe_finds (with_id i) c c' vols;
  describe_ids_keeps = λ {i} {c} {c'} {r}. describe_keeps (with_id i) c c' r;
  create_adds = λ {input} {c} {c'} {i}. create_adds input c c' i;
  delete_removes = λ {i} {c} {c'} {u}. change_changes (without_id i) c c' u;
  modify_resizes = λ {i} {size} {c} {c'} {u}. change_changes (map (resized i size)) c c' u;
  wait_keeps = λ {i} {c} {c'} {r}. wait_keeps c c' r;
}
