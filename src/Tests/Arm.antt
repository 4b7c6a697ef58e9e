-- ===== src/Tests/Arm.antt =====
-- A resource group in memory: the sizes of its disks by name.
use caa_csi_block_driver.Prelude.{
  ℤ, pos, String, ◌<>◌, ◌≡◌, refl, sym, ap, ◌∙◌, Option, none, some, [], arith,
}
use caa_csi_block_driver.Result.{GoError, Result, ok, err, error}
use caa_csi_block_driver.Provider.{Call}
use caa_csi_block_driver.Azure.{
  Config, Disk, NewDisk, Begin, DisksClient, SnapshotsClient, AzureProvider,
}
use caa_csi_block_driver.Azure.Cloud.{ArmLaws, Sizes, put}

abbrev pub missing : GoError
missing = record (error "ResourceNotFound") { code = "404" }

abbrev pub disk_of : String → ℤ → Disk
disk_of name n = record { resource_id = some ("/disks/" <> name); disk_size_gb = some n; tags = [] }

abbrev pub answer : String → Option ℤ → Call Sizes Disk
answer name none c = (err missing, c)
answer name (some n) c = (ok (disk_of name n), c)

abbrev pub begin_update : String → ℤ → Begin Sizes (Unit {0})
begin_update name n c = (ok (λ d. (ok tt, put name (some n) d)), c)

abbrev pub begin_create : String → NewDisk → Begin Sizes Disk
begin_create name disk c =
    (ok (λ d. (ok (disk_of name disk.disk_size_gb), put name (some disk.disk_size_gb) d)), c)

abbrev pub delete_of : String → Option ℤ → Begin Sizes (Unit {0})
delete_of name none c = (err missing, c)
delete_of name (some n) c = (ok (λ d. (ok tt, put name none d)), c)

abbrev pub client : DisksClient Sizes
client = record {
  get = λ group name c. answer name (c name) c;
  begin_create_or_update = λ group. begin_create;
  begin_update = λ group. begin_update;
  begin_delete = λ group name c. delete_of name (c name) c;
  list_pages = λ group token c. (ok ([], none), c);
}

abbrev snapshots : SnapshotsClient Sizes
snapshots = record {
  get = λ group name c. (err missing, c);
  begin_create_or_update = λ group name s c. (err missing, c);
  begin_delete = λ group name c. (err missing, c);
  list_pages = λ group token c. (ok ([], none), c);
}

abbrev config : Config
config = record {
  subscription_id = "sub";
  resource_group = "group";
  location = "westeurope";
  disk_sku = "StandardSSD_LRS";
  disk_iops = pos 0;
  disk_mbps = pos 0;
  disk_enc_set_id = "";
}

abbrev pub azure : AzureProvider Sizes
azure = record { disks_client = client; snapshots_client = snapshots; config = config }

pub answer_finds :
    (name : String) (size : Option ℤ) (c c' : Sizes) (d : Disk)
    → c name ≡ size
    → answer name size c ≡ (ok d, c')
    → (n : ℤ) × (d.disk_size_gb ≡ some n) × (c name ≡ some n)
answer_finds name none c c' d e h = absurd (ground arith)
answer_finds name (some n) c c' d e h = (n, ground arith, e)

pub answer_misses :
    (name : String) (size : Option ℤ) (c c' : Sizes) (x : GoError)
    → c name ≡ size
    → answer name size c ≡ (err x, c')
    → c name ≡ none
answer_misses name none c c' x e h = e
answer_misses name (some n) c c' x e h = absurd (ground arith)

pub answer_keeps :
    (name : String) (size : Option ℤ) (c c' : Sizes) (r : Result Disk)
    → answer name size c ≡ (r, c')
    → c' ≡ c
answer_keeps name none c c' r h = ground arith
answer_keeps name (some n) c c' r h = ground arith

-- An operation from its beginning to its end.
abbrev pub run : {A : Type 0} → Result (Call Sizes A) × Sizes → Result A × Sizes
run (ok poller, c) = poller c
run (err e, c) = (err e, c)

pub create_puts :
    (name : String) (disk : NewDisk) (c c1 c' : Sizes) (poller : Call Sizes Disk) (d : Disk)
    → begin_create name disk c ≡ (ok poller, c1)
    → poller c1 ≡ (ok d, c')
    → c' ≡ put name (some disk.disk_size_gb) c
create_puts name disk c c1 c' poller d begun done = sym (ap (λ r. r.1) (ap run begun ∙ done))

pub update_puts :
    (name : String) (n : ℤ) (c c1 c' : Sizes) (poller : Call Sizes (Unit {0})) (u : Unit {0})
    → begin_update name n c ≡ (ok poller, c1)
    → poller c1 ≡ (ok u, c')
    → c' ≡ put name (some n) c
update_puts name n c c1 c' poller u begun done = sym (ap (λ r. r.1) (ap run begun ∙ done))

pub delete_removes :
    (name : String) (size : Option ℤ) (c c1 c' : Sizes) (poller : Call Sizes (Unit {0}))
    (u : Unit {0})
    → delete_of name size c ≡ (ok poller, c1)
    → poller c1 ≡ (ok u, c')
    → c' ≡ put name none c
delete_removes name none c c1 c' poller u begun done = absurd (ground arith)
delete_removes name (some n) c c1 c' poller u begun done = sym (ap (λ r. r.1) (ap run begun ∙ done))

pub delete_misses :
    (name : String) (size : Option ℤ) (c c' : Sizes) (e : GoError)
    → c name ≡ size
    → delete_of name size c ≡ (err e, c')
    → (c name ≡ none) × (c' ≡ c)
delete_misses name none c c' e same h = (same, ground arith)
delete_misses name (some n) c c' e same h = absurd (ground arith)

abbrev pub client-ArmLaws : ArmLaws client "group"
client-ArmLaws = record {
  sizes = λ c. c;
  get_finds = λ {name} {c} {c'} {d}. answer_finds name (c name) c c' d refl;
  get_misses = λ {name} {c} {c'} {e} h m. answer_misses name (c name) c c' e refl h;
  get_keeps = λ {name} {c} {c'} {r}. answer_keeps name (c name) c c' r;
  create_puts = λ {name} {disk} {c} {c1} {c'} {poller} {d}. create_puts name disk c c1 c' poller d;
  update_puts = λ {name} {size} {c} {c1} {c'} {poller} {u}. update_puts name size c c1 c' poller u;
  delete_removes =
      λ {name} {c} {c1} {c'} {poller} {u}. delete_removes name (c name) c c1 c' poller u;
  delete_misses = λ {name} {c} {c'} {e} h m. delete_misses name (c name) c c' e refl h;
}
