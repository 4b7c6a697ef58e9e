-- ===== src/Store.antt =====
-- pkg/driver/volumestore.go: volume records and their manifest as JSON files in a directory. Every
-- method holds the store's mutex from its first file operation to its last, so a method is one step;
-- a method that changes files returns the files after it, also beside an error.
pub mod Bootstrap
pub mod Env
pub mod Recovery
pub mod Manifest
pub mod RoundTrip
pub mod Secrets
use caa_csi_block_driver.Prelude.{
  String, ◌<>◌, Bool, true, false, not, ◌||◌, Option, none, some, List, [], ◌∷◌, map, ◌==◌, ext,
  if◌then◌else◌,
}
use caa_csi_block_driver.GoMap.{Params, get, entries}
use caa_csi_block_driver.Result.{Result, ok, err, wrap}
use caa_csi_block_driver.Platform.{Platform, VolumeRecord, VolumeManifest, DirEntry}
use Env.{is_usable, sanitize_persistable_params, params_from_env}

abbrev pub manifest_file_name : String
manifest_file_name = "_manifest.json"

-- The directory entries that are not read as volume records.
abbrev is_skipped : String → Bool
is_skipped name = not (ext name == ".json") || name == manifest_file_name

abbrev volume_ids : List VolumeRecord → List String
volume_ids = map (λ (r : VolumeRecord). r.volume_id)

-- The parameters of the first record that has usable ones.
unfoldable pub first_usable : List VolumeRecord → Option Params
first_usable [] = none
first_usable (r ∷ recs) = if is_usable r.params then some (entries r.params) else first_usable recs

abbrev existing_params : Result VolumeManifest → Params
existing_params (err _) = []
existing_params (ok existing) =
    if is_usable existing.params then sanitize_persistable_params (entries existing.params) else []

-- The parameters of a manifest over some records: the first usable ones, or those of the manifest
-- that is there.
unfoldable pub manifest_params : List VolumeRecord → Result VolumeManifest → Params
unfolding first_usable
manifest_params recs existing = elim (first_usable recs) [
  | none ↦ existing_params existing
  | some params ↦ sanitize_persistable_params params
]

module _ (P : Platform) (dir : String) where
  open P use {Files, Bytes}

  -- The file of a volume's record.
  abbrev pub record_path : String → String
  record_path volume_id = P.join dir (volume_id <> ".json")

  abbrev pub manifest_path : String
  manifest_path = P.join dir manifest_file_name

  pub decode_record : Result Bytes → Result VolumeRecord
  decode_record (err e) = err e
  decode_record (ok bytes) = elim (P.unmarshal_record bytes) [
    | err e ↦ err (wrap "failed to unmarshal volume record" e)
    | ok rec ↦ ok rec
  ]

  unfoldable pub load : String → Files → Result VolumeRecord
  unfolding decode_record
  load volume_id f = decode_record (P.read_file f (record_path volume_id))

  exists_of : Result (Unit {0}) → Result Bool
  exists_of (ok _) = ok true
  exists_of (err e) = if e.is_not_exist then ok false else err e

  unfoldable pub exists : String → Files → Result Bool
  unfolding exists_of
  exists volume_id f = exists_of (P.stat f (record_path volume_id))

  -- The records of a directory listing; what cannot be read or parsed is passed over.
  unfoldable pub read_records : List DirEntry → Files → List VolumeRecord
  unfolding decode_record
  read_records [] f = []
  read_records (e ∷ es) f =
      let rest = read_records es f in
      if is_skipped e.name then rest else elim (decode_record (P.read_file f (P.join dir e.name))) [
        | err _ ↦ rest
        | ok rec ↦ rec ∷ rest
      ]

  unfoldable pub list_all : Files → Result (List VolumeRecord)
  list_all f = elim (P.read_dir f dir) [ err e ↦ err e | ok es ↦ ok (read_records es f) ]

  unfoldable pub any_params : Files → Option Params
  any_params f = elim (P.read_dir f dir) [ err _ ↦ none | ok es ↦ first_usable (read_records es f) ]

  unfoldable pub read_manifest : Files → Result VolumeManifest
  read_manifest f = elim (P.read_file f manifest_path) [
    | err e ↦ err e
    | ok bytes ↦ P.unmarshal_manifest bytes
  ]

  unfoldable pub store_manifest : VolumeManifest → Files → Result (Unit {0}) × Files
  store_manifest m f = elim (P.marshal_manifest m) [
    | err e ↦ (err e, f)
    | ok bytes ↦ P.write_file f manifest_path bytes
  ]

  -- With no records left: a manifest with usable parameters loses only its volume IDs, and any other
  -- is removed.
  unfoldable pub empty_manifest : Result VolumeManifest → Files → Result (Unit {0}) × Files
  unfolding store_manifest
  empty_manifest (err _) f = (ok tt, (P.remove f manifest_path).1)
  empty_manifest (ok existing) f =
      if is_usable existing.params
      then store_manifest (record existing { volume_ids = [] }) f
      else (ok tt, (P.remove f manifest_path).1)

  unfoldable pub write_manifest_over : List VolumeRecord → Files → Result (Unit {0}) × Files
  unfolding empty_manifest manifest_params store_manifest
  write_manifest_over [] f = empty_manifest (read_manifest f) f
  write_manifest_over (r ∷ recs) f =
      store_manifest
        (record {
          params = some (manifest_params (r ∷ recs) (read_manifest f));
          volume_ids = volume_ids (r ∷ recs);
        })
        f

  unfoldable pub write_manifest : Files → Result (Unit {0}) × Files
  unfolding write_manifest_over
  write_manifest f = elim (list_all f) [ err e ↦ (err e, f) | ok recs ↦ write_manifest_over recs f ]

  save_bytes : String → Bytes → Files → Result (Unit {0}) × Files
  save_bytes volume_id bytes f =
      let (written, f') = P.write_file f (record_path volume_id) bytes in
      elim written [ err e ↦ (err e, f') | ok _ ↦ write_manifest f' ]

  unfoldable pub save : VolumeRecord → Files → Result (Unit {0}) × Files
  unfolding save_bytes
  save rec f = elim (P.marshal_record rec) [
    | err e ↦ (err (wrap "failed to marshal volume record" e), f)
    | ok bytes ↦ save_bytes rec.volume_id bytes f
  ]

  -- A failed removal and a failed manifest are only logged.
  unfoldable pub delete : String → Files → Files
  delete volume_id f = (write_manifest (P.remove f (record_path volume_id)).1).1

  unfoldable pub load_manifest_params : Files → Option Params
  load_manifest_params f = elim (read_manifest f) [
    | err _ ↦ none
    | ok m ↦ if is_usable m.params then some (entries m.params) else none
  ]

  params_of_bytes : Bytes → Option Params
  params_of_bytes bytes = elim (P.unmarshal_params bytes) [
    | err _ ↦ none
    | ok params ↦ if get (entries params) "cloudProvider" == "" then none else some (entries params)
  ]

  unfoldable pub load_bootstrap_params_file : Files → Option Params
  unfolding params_of_bytes
  load_bootstrap_params_file f =
      let path = P.getenv "CSI_BOOTSTRAP_PARAMS_FILE" in
      if path == ""
      then none
      else elim (P.read_file f path) [ err _ ↦ none | ok bytes ↦ params_of_bytes bytes ]

  abbrev or_next : Option Params → Option Params → Option Params
  or_next (some params) next = some params
  or_next none next = next

  unfoldable pub bootstrap_params : Files → Option Params
  bootstrap_params f = or_next (any_params f) (
      or_next (load_manifest_params f)
        (or_next (load_bootstrap_params_file f) (params_from_env P.getenv)))
