-- ===== src/Ibmcloud/Lookup.antt =====
-- lookupVolume and isNotFound of pkg/provider/ibmcloud/provider.go: a volume by its configured ID, or
-- by its name.
pub mod Unique
use caa_csi_block_driver.Prelude.{
  ℕ, ℤ, pos, eq_int, String, ◌<>◌, Bool, true, false, ◌||◌, Option, none, some, List, [], ◌∷◌, ◌==◌,
  if◌then◌else◌,
}
use caa_csi_block_driver.Result.{
  GoError, Result, ok, err, error, sentinel_error, err_invalid_parameters, err_volume_not_found,
  err_volume_already_exists,
}
use caa_csi_block_driver.Provider.{Call}
use caa_csi_block_driver.Provider.Calls.{fail, pure, returning, reject_if, try, ◌>>=◌, ◌>>◌}
use caa_csi_block_driver.Ibmcloud.{IbmCloudProvider}
use caa_csi_block_driver.Ibmcloud.Volumes.{Volume, Session, Packages, named, named_if_any}
use caa_csi_block_driver.Ibmcloud.Listing.{list_volumes}

abbrev is_code : Option ℤ → ℤ → Bool
is_code none code = false
is_code (some rc) code = eq_int rc code

-- isNotFound
abbrev pub is_not_found : Packages → GoError → Bool
is_not_found P e = P.is_entity_not_found e || is_code (P.message_rc e) (pos 404)

-- Whether a volume has this name, or none, which the search by name takes for this one.
abbrev pub is_named : String → Volume → Bool
is_named name v = elim v.name [ none ↦ true | some n ↦ n == name ]

abbrev found_or_missing : String → Option Volume → Result Volume
found_or_missing name none = err (sentinel_error err_volume_not_found name)
found_or_missing name (some v) = ok v

-- The loop over the volumes of a search by name, with the one that it has found so far.
unfoldable pub find_named : String → Option Volume → List (Option Volume) → Result Volume
find_named name found [] = found_or_missing name found
find_named name found (none ∷ vs) = err (error "IBM name lookup returned a nil volume")
find_named name found (some v ∷ vs) = elim (is_named name v) [
  | false ↦ find_named name found vs
  | true ↦ elim found [
    | none ↦ find_named name (some (named name v)) vs
    | some _ ↦ err (sentinel_error err_volume_already_exists ("ambiguous cloud name " <> name))
  ]
]

abbrev pub as_some : Result Volume → Result (Option Volume)
as_some (err e) = err e
as_some (ok v) = ok (some v)

module _ {Cloud : Type 0} (P : Packages) (rounds : ℕ) (p : IbmCloudProvider (Session Cloud)) where
  unfoldable pub lookup_by_name : String → Call Cloud (Option Volume)
  unfolding find_named list_volumes ◌>>=◌
  lookup_by_name name = do
    reject_if (name == "") (sentinel_error err_invalid_parameters "empty volume name")
    volumes ← list_volumes p.session (("name", name) ∷ []) rounds
    returning (as_some (find_named name none volumes))

  -- What a call of GetVolume with the configured ID gave.
  by_id : String → Result (Option Volume) → Call Cloud (Option Volume)
  unfolding lookup_by_name
  by_id name (ok v) = pure (named_if_any name v)
  by_id name (err e) =
      if is_not_found P e
      then fail (sentinel_error err_volume_not_found name)
      else lookup_by_name name

  unfoldable pub lookup_volume : String → Call Cloud (Option Volume)
  unfolding lookup_by_name by_id ◌>>=◌ try
  lookup_volume name =
      if p.config.volume_id == ""
      then lookup_by_name name
      else (do r ← try (p.session.get_volume p.config.volume_id); by_id name r)
