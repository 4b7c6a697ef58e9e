-- ===== src/Tests/StoreTests.antt =====
-- The store's theorems at concrete inputs.
use caa_csi_block_driver.Prelude.{pos, String, ◌≡◌, refl, some, [], ◌∷◌, true, ext, arith}
use caa_csi_block_driver.GoMap.{Params, lookup, erase}
use caa_csi_block_driver.Result.{ok}
use caa_csi_block_driver.Platform.{VolumeRecord}
use caa_csi_block_driver.Server.{World}
use caa_csi_block_driver.Store.{
  load, save, delete, bootstrap_params, load_manifest_params, write_manifest, read_manifest,
  list_all, read_records,
}
use caa_csi_block_driver.Store.Env.{is_usable, sanitize_persistable_params}
use caa_csi_block_driver.Store.Manifest.{bootstrap_params-delete}
use caa_csi_block_driver.Store.Secrets.{IsCleanStore, write_manifest-IsCleanStore}
use caa_csi_block_driver.Store.Recovery.{recover_from_cloud}
use caa_csi_block_driver.Store.Recovery.Cloud.{load-recover_from_cloud}
use caa_csi_block_driver.Store.RoundTrip.{load-save}
use caa_csi_block_driver.Tests.Files.{
  Disk, volume_record, memory, memory-IsLawful, find, without, entries_of, apart,
}
use caa_csi_block_driver.Tests.Cloud.{no_env, setup, new_volume, provider}

abbrev test_params : Params
test_params = ("cloudProvider", "aws") ∷ ("awsSecretKey", "secret") ∷ []

abbrev record_of : String → VolumeRecord
record_of id = record {
  volume_id = id;
  provider = "aws";
  path = "/dev/sdf";
  capacity_bytes = pos 4096;
  params = some test_params;
}

abbrev disk : Disk
disk = (save (memory no_env) "/store" (record_of "vol-1") []).1

load-save_example : load (memory no_env) "/store" "vol-1" disk ≡ ok (record_of "vol-1")
unfolding save write_manifest list_all read_records entries_of ext find
load-save_example =
    load-save (memory no_env) (memory-IsLawful no_env) "/store" (record_of "vol-1") []
      (apart _ _ refl) refl

bootstrap_params-delete_example :
    is_usable
      (bootstrap_params (memory no_env) "/store" (delete (memory no_env) "/store" "vol-1" disk))
    ≡ true
unfolding save load_manifest_params read_manifest find write_manifest list_all read_records
    entries_of ext lookup sanitize_persistable_params erase without
bootstrap_params-delete_example =
    bootstrap_params-delete (memory no_env) (memory-IsLawful no_env) "/store" "vol-1" disk
      (apart _ _ refl) refl refl

-- A store with a record that holds a secret, and no manifest.
abbrev secretive : Disk
secretive = ("/store/vol-1.json", volume_record (record_of "vol-1")) ∷ []

no_manifest : IsCleanStore (memory no_env) (memory-IsLawful no_env) "/store" secretive
unfolding read_manifest find
no_manifest = record { at = λ m read. ground arith }

write_manifest-IsCleanStore_example :
    IsCleanStore
      (memory no_env)
      (memory-IsLawful no_env)
      "/store"
      (write_manifest (memory no_env) "/store" secretive).1
unfolding write_manifest list_all read_records entries_of ext find
write_manifest-IsCleanStore_example =
    write_manifest-IsCleanStore (memory no_env) (memory-IsLawful no_env) "/store" secretive
      no_manifest refl

-- A world where the cloud lists two volumes, one of which has a record.
abbrev two_volumes : World setup
two_volumes = record {
  files = secretive;
  cloud = new_volume "vol-1" (pos 4096) ∷ new_volume "vol-2" (pos 8192) ∷ [];
}

load-recover_from_cloud_example :
    load
      (memory no_env)
      "/store"
      "vol-1"
      (recover_from_cloud setup (some test_params) two_volumes).1.files
    ≡ ok (record_of "vol-1")
unfolding load find
load-recover_from_cloud_example =
    load-recover_from_cloud setup (memory-IsLawful no_env) (some test_params) two_volumes "vol-1"
      (record_of "vol-1") (apart _ _ refl) refl
