-- ===== src/Tests/LibvirtTests.antt =====
-- The libvirt provider's theorem on a machine in memory.
use caa_csi_block_driver.Prelude.{
  ℤ, pos, String, ◌<>◌, ◌≡◌, refl, sym, ap, ◌∙◌, ◌⊎◌, true, false, Option, none, some, arith, ◌==◌,
  eq_refl, if◌then◌else◌,
}
use caa_csi_block_driver.Result.{GoError, Result, ok, err, error}
use caa_csi_block_driver.Provider.{Call}
use caa_csi_block_driver.Libvirt.{
  FileInfo, Files, LibvirtProvider, volume_path, volume_info, create_volume,
}
use caa_csi_block_driver.Libvirt.Failures.{PoolLaws, IsCleared, create_volume-made}

-- The sizes of the files at paths.
abbrev Machine : Type 0
Machine = String → Option ℤ

abbrev write : String → Option ℤ → Machine → Machine
write path size m other = if path == other then size else m other

abbrev missing : GoError
missing = record (error "no such file") { is_not_exist = true }

abbrev answer : Option ℤ → Call Machine FileInfo
answer none m = (err missing, m)
answer (some n) m = (ok (record { is_dir = false; size = n }), m)

abbrev resize : String → ℤ → Call Machine (Unit {0})
resize path size m = (ok tt, write path (some size) m)

abbrev files : Files Machine
files = record {
  stat = λ path m. answer (m path) m;
  create = λ path m. (ok tt, write path (some (pos 0)) m);
  create_excl = λ path m. (ok tt, write path (some (pos 0)) m);
  open_file = λ path m. (ok tt, m);
  truncate = resize;
  copy = λ source path m. (ok tt, write path (m source) m);
  close = λ path m. (ok tt, m);
  remove = λ path m. (ok tt, write path none m);
  mkfs = λ path m. (err (error "mkfs.ext4: exit status 1"), m);
  resize2fs = λ path m. (ok tt, m);
  join = λ dir name. dir <> "/" <> name;
}

abbrev pool : LibvirtProvider Machine
pool = record { files = files; config = record { pool_path = "/pool" } }

write-same : (path : String) (size : Option ℤ) (m : Machine) → write path size m path ≡ size
write-same path size m = ground (arith, eq_refl path)

answer_missing :
    (size : Option ℤ) (m m' : Machine) (e : GoError) (path : String)
    → m path ≡ size
    → answer size m ≡ (err e, m')
    → m' path ≡ none
answer_missing none m m' e path same h = ap (λ n. n path) (sym (ap (λ r. r.1) h)) ∙ same
answer_missing (some n) m m' e path same h = absurd (ground arith)

written :
    (path : String) (size : Option ℤ) (m m' : Machine) (r s : Result (Unit {0}))
    → ◌≡◌ {A = Result (Unit {0}) × Machine} (r, write path size m) (s, m')
    → m' path ≡ size
written path size m m' r s h = ap (λ n. n path) (sym (ap (λ x. x.1) h)) ∙ write-same path size m

files-PoolLaws : PoolLaws files
files-PoolLaws = record {
  size_at = λ m. m;
  stat_missing = λ {path} {m} {m'} {e} h x. answer_missing (m path) m m' e path refl h;
  create_failed = λ {path} {m} {m'} {e} h x. absurd (ground arith);
  truncate_sizes = λ {path} {size} {m} {m'} {u}. written path (some size) m m' (ok tt) (ok u);
  mkfs_keeps = λ {path} {m} {m'} {u} h. absurd (ground arith);
  remove_removes = λ {path} {m} {m'} {u}. written path none m m' (ok tt) (ok u);
}

abbrev empty : Machine
empty path = none

-- The disk cannot be formatted, so nothing is left.
create_volume-made_example :
    (((create_volume pool "pvc-1" (pos 1073741824) empty).0
        ≡ ok (volume_info "pvc-1" (volume_path pool "pvc-1") (pos 1073741824)))
      × (files-PoolLaws.size_at
            (create_volume pool "pvc-1" (pos 1073741824) empty).1
            (volume_path pool "pvc-1")
          ≡ some (pos 1073741824)))
    ⊎ ((e : GoError) × ((create_volume pool "pvc-1" (pos 1073741824) empty).0 ≡ err e)
        × IsCleared pool files-PoolLaws
            (volume_path pool "pvc-1")
            (create_volume pool "pvc-1" (pos 1073741824) empty).1)
create_volume-made_example =
    create_volume-made pool files-PoolLaws "pvc-1" (pos 1073741824) empty missing empty
      (create_volume pool "pvc-1" (pos 1073741824) empty).0
      (create_volume pool "pvc-1" (pos 1073741824) empty).1 refl refl refl
