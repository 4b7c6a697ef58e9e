-- ===== src/Platform.antt =====
-- Go's packages os, path/filepath, strconv and encoding/json, as far as pkg/driver calls them: operations on
-- an abstract state of the node's files, any of which may fail, and the laws that the driver relies
-- on. `os.ReadDir`'s entries are kept as their names and whether they are directories.
pub mod Http
use caa_csi_block_driver.Prelude.{ℕ, ℤ, String, ◌≡◌, ◌≢◌, Bool, true, Option, List}
use caa_csi_block_driver.GoMap.{Params}
use caa_csi_block_driver.Result.{GoError, Result, ok, err}

-- volumeRecord of pkg/driver/volumestore.go
pub record VolumeRecord : Type 0 where
  pub volume_id : String
  pub provider : String
  pub path : String
  pub capacity_bytes : ℤ
  pub params : Option Params

-- volumeManifest of pkg/driver/volumestore.go
pub record VolumeManifest : Type 0 where
  pub params : Option Params
  pub volume_ids : List String

pub record DirEntry : Type 0 where
  pub name : String
  pub is_dir : Bool

pub record Platform : Type 1 where
  pub Files : Type 0
  pub Bytes : Type 0
  pub getenv : String → String
  pub join : String → String → String
  pub itoa : ℕ → String
  pub parse_int : String → Option ℤ
  pub read_file : Files → String → Result Bytes
  pub stat : Files → String → Result (Unit {0})
  pub read_dir : Files → String → Result (List DirEntry)
  pub write_file : Files → String → Bytes → Result (Unit {0}) × Files
  pub remove : Files → String → Result (Unit {0}) × Files
  pub marshal_record : VolumeRecord → Result Bytes
  pub unmarshal_record : Bytes → Result VolumeRecord
  pub marshal_manifest : VolumeManifest → Result Bytes
  pub unmarshal_manifest : Bytes → Result VolumeManifest
  pub unmarshal_params : Bytes → Result (Option Params)

-- A write that reports success has stored its bytes, a removal that reports success or a missing
-- file leaves none, and neither touches another file. A failed write may leave anything in its file.
-- A failed removal leaves its file. JSON that was written reads back. Two paths are two files: the
-- driver's come from filepath.Join, which cleans them, and its directories hold no links.
pub record IsLawful (P : Platform) : Type 0 where
  pub read-write :
      (f : P.Files) (p : String) (b : P.Bytes)
      → (P.write_file f p b).0 ≡ ok tt
      → P.read_file (P.write_file f p b).1 p ≡ ok b
  pub read-write_ne :
      (f : P.Files) (p q : String) (b : P.Bytes)
      → p ≢ q
      → P.read_file (P.write_file f p b).1 q ≡ P.read_file f q
  pub stat-write_ne :
      (f : P.Files) (p q : String) (b : P.Bytes)
      → p ≢ q
      → P.stat (P.write_file f p b).1 q ≡ P.stat f q
  pub stat-read :
      (f : P.Files) (p : String) (b : P.Bytes) → P.read_file f p ≡ ok b → P.stat f p ≡ ok tt
  pub read-remove :
      (f : P.Files) (p : String)
      → (P.remove f p).0 ≡ ok tt
      → (e : GoError) × (P.read_file (P.remove f p).1 p ≡ err e) × (e.is_not_exist ≡ true)
  pub read-remove_failed :
      (f : P.Files) (p : String) (e : GoError)
      → (P.remove f p).0 ≡ err e
      → P.read_file (P.remove f p).1 p ≡ P.read_file f p
  pub read-remove_ne :
      (f : P.Files) (p q : String) → p ≢ q → P.read_file (P.remove f p).1 q ≡ P.read_file f q
  pub record_roundtrip :
      (r : VolumeRecord) (b : P.Bytes) → P.marshal_record r ≡ ok b → P.unmarshal_record b ≡ ok r
  pub manifest_roundtrip :
      (m : VolumeManifest) (b : P.Bytes)
      → P.marshal_manifest m ≡ ok b
      → P.unmarshal_manifest b ≡ ok m
