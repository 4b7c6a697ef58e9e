-- ===== src/Azure/Cloud.antt =====
-- What Azure documents of the calls that the provider makes for disks, over the sizes in GiB of the
-- disks in the provider's resource group, by their names. A call may fail at any point.
use caa_csi_block_driver.Prelude.{ℤ, String, ◌≡◌, true, Option, none, some}
use caa_csi_block_driver.Result.{GoError, Result, ok, err}
use caa_csi_block_driver.Provider.{Call}
pub use caa_csi_block_driver.Provider.Specification.{put}
use caa_csi_block_driver.Azure.{Disk, NewDisk, DisksClient, is_not_found}

abbrev pub Sizes : Type 0
Sizes = String → Option ℤ

pub record ArmLaws {Cloud : Type 0} (client : DisksClient Cloud) (group : String) : Type 0 where
  pub sizes : Cloud → Sizes
  pub get_finds :
      {name : String} {c c' : Cloud} {d : Disk}
      → client.get group name c ≡ (ok d, c')
      → (n : ℤ) × (d.disk_size_gb ≡ some n) × (sizes c name ≡ some n)
  pub get_misses :
      {name : String} {c c' : Cloud} {e : GoError}
      → client.get group name c ≡ (err e, c')
      → is_not_found e ≡ true
      → sizes c name ≡ none
  pub get_keeps :
      {name : String} {c c' : Cloud} {r : Result Disk}
      → client.get group name c ≡ (r, c')
      → sizes c' ≡ sizes c
  pub create_puts :
      {name : String} {disk : NewDisk} {c c1 c' : Cloud} {poller : Call Cloud Disk} {d : Disk}
      → client.begin_create_or_update group name disk c ≡ (ok poller, c1)
      → poller c1 ≡ (ok d, c')
      → sizes c' ≡ put name (some disk.disk_size_gb) (sizes c)
  pub update_puts :
      {name : String} {size : ℤ} {c c1 c' : Cloud} {poller : Call Cloud (Unit {0})} {u : Unit {0}}
      → client.begin_update group name size c ≡ (ok poller, c1)
      → poller c1 ≡ (ok u, c')
      → sizes c' ≡ put name (some size) (sizes c)
  pub delete_removes :
      {name : String} {c c1 c' : Cloud} {poller : Call Cloud (Unit {0})} {u : Unit {0}}
      → client.begin_delete group name c ≡ (ok poller, c1)
      → poller c1 ≡ (ok u, c')
      → sizes c' ≡ put name none (sizes c)
  pub delete_misses :
      {name : String} {c c' : Cloud} {e : GoError}
      → client.begin_delete group name c ≡ (err e, c')
      → is_not_found e ≡ true
      → (sizes c name ≡ none) × (sizes c' ≡ sizes c)
