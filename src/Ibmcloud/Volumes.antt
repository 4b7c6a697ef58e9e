-- ===== src/Ibmcloud/Volumes.antt =====
-- The volumes of pkg/provider/ibmcloud/provider.go: configTag, checkOwnedVolume and volumeInfo. A
-- nil pointer is `none`. The session of github.com/IBM/ibmcloud-volume-interface is a parameter, a
-- record of its calls, as are sha256, JSON and the SDK's view of errors.
pub mod Info
pub mod Owned
use caa_csi_block_driver.Prelude.{
  ℕ, zero, suc, ◌-◌, ◌/◌, ◌^◌, leb, ℤ, pos, negsuc, scale, eq_int, String, ◌<>◌, Bool, true, false,
  not, ◌&&◌, ◌||◌, Option, none, some, List, [], ◌∷◌, ◌==◌, if◌then◌else◌,
}
use caa_csi_block_driver.GoMap.{Params}
use caa_csi_block_driver.Result.{
  GoError, Result, ok, err, error, sentinel_error, err_volume_already_exists,
}
use caa_csi_block_driver.Result.Bind.{◌>>=◌, ◌>>◌}
use caa_csi_block_driver.Provider.{Call, VolumeInfo}
use caa_csi_block_driver.Provider.Numbers.{gib}
use caa_csi_block_driver.Ibmcloud.{Config, ownership_tag_prefix, config_tag_prefix}

-- provider.Volume of the SDK, as far as the driver reads or fills it; the profile is its name, the
-- resource group its ID, and the encryption key its CRN.
pub record Volume : Type 0 where
  pub volume_id : String
  pub name : Option String
  pub volume_type : String
  pub capacity : Option ℤ
  pub iops : Option String
  pub az : String
  pub region : String
  pub status : String
  pub profile : Option String
  pub resource_group : Option String
  pub encryption_key : Option String
  pub bandwidth : ℤ
  pub tags : List String

-- Go's zero value
abbrev pub zero_volume : Volume
zero_volume = record {
  volume_id = "";
  name = none;
  volume_type = "";
  capacity = none;
  iops = none;
  az = "";
  region = "";
  status = "";
  profile = none;
  resource_group = none;
  encryption_key = none;
  bandwidth = pos 0;
  tags = [];
}

-- provider.VolumeList of the SDK
pub record VolumePage : Type 0 where
  pub volumes : List (Option Volume)
  pub next : String

-- provider.Session of the SDK; ListVolumes takes a limit, a token and filters
pub record Session (Cloud : Type 0) : Type 0 where
  pub create_volume : Volume → Call Cloud (Option Volume)
  pub get_volume : String → Call Cloud (Option Volume)
  pub delete_volume : Volume → Call Cloud (Unit {0})
  pub update_volume : Volume → Call Cloud (Unit {0})
  pub list_volumes : ℕ → String → Params → Call Cloud (Option VolumePage)

-- What the provider calls of other packages: the hexadecimal SHA-256 of a configuration's JSON,
-- strings.ToLower, whether providerError.GetErrorType is EntityNotFound, and the RC of the
-- providerError.Message that errors.As finds, if it finds one.
pub record Packages : Type 0 where
  pub digest : Config → String
  pub to_lower : String → String
  pub is_entity_not_found : GoError → Bool
  pub message_rc : GoError → Option ℤ

-- Reading a field of a nil volume, a panic of the Go runtime, is an error here that nothing looks for.
abbrev pub nil_dereference : GoError
nil_dereference = error "invalid memory address or nil pointer dereference"

-- A volume whose name is missing gets the one that was asked for.
abbrev pub named : String → Volume → Volume
named name v = elim v.name [ none ↦ record v { name = some name } | some _ ↦ v ]

abbrev pub named_if_any : String → Option Volume → Option Volume
named_if_any name none = none
named_if_any name (some v) = some (named name v)

-- Whether a list holds a text: the loops over tags, and the map of tokens that were seen.
unfoldable pub has : List String → String → Bool
has [] s = false
has (t ∷ ts) s = t == s || has ts s

abbrev is_value : Option String → String → Bool
is_value none s = false
is_value (some v) s = v == s

-- A pointer that is nil or to this text.
abbrev is_nil_or : Option String → String → Bool
is_nil_or none s = true
is_nil_or (some v) s = v == s

-- if bad { return fmt.Errorf("%w: …", ErrVolumeAlreadyExists) }
abbrev conflict_if : Bool → String → Result (Unit {0})
conflict_if bad message =
    if bad then err (sentinel_error err_volume_already_exists message) else ok tt

-- The zone, the profile and the resource group that checkOwnedVolume asks for.
unfoldable pub is_placed : Config → Volume → Bool
is_placed cfg v =
    v.az == cfg.zone
    && is_value v.profile cfg.profile
    && is_nil_or v.resource_group cfg.resource_group

-- The encryption key, the IOPS and the bandwidth that checkOwnedVolume asks for.
unfoldable pub check_settings : Config → Volume → Result (Unit {0})
check_settings cfg v = do
  conflict_if (not (is_nil_or v.encryption_key cfg.encryption_key)) "encryption key mismatch"
  conflict_if (not (cfg.iops == "") && not (is_value v.iops cfg.iops)) "IOPS mismatch"
  conflict_if (not (eq_int cfg.throughput (pos 0)) && not (eq_int v.bandwidth cfg.throughput))
      "throughput mismatch"

module _ (P : Packages) (cfg : Config) where
  -- configTag
  unfoldable pub config_tag : String
  config_tag = config_tag_prefix <> P.digest (record cfg { extra_tags = []; volume_id = "" })

  unfoldable pub check_owned_volume : Volume → String → Result (Unit {0})
  unfolding has config_tag is_placed check_settings
  check_owned_volume v name = do
    conflict_if (not (has v.tags (ownership_tag_prefix <> name)))
        (name <> " lacks this driver's ownership tag")
    conflict_if (not (has v.tags config_tag)) (name <> " lacks a matching configuration marker")
    conflict_if (not (is_placed cfg v)) (name <> " zone/profile/resource group mismatch")
    check_settings cfg v

-- A capacity in GiB whose bytes are positive and fit an int64.
unfoldable pub is_capacity : ℤ → Bool
is_capacity (negsuc n) = false
is_capacity (pos zero) = false
is_capacity (pos (suc n)) = leb (suc n) ((2 ^ 63 - 1) / gib)

-- The fields that an info needs, the name, the capacity and the profile, if they are there.
unfoldable pub complete : Volume → Option (String × ℤ × String)
unfolding is_capacity
complete v = elim v.name [
  | none ↦ none
  | some name ↦ elim v.capacity [
    | none ↦ none
    | some n ↦ elim v.profile [
      | none ↦ none
      | some profile ↦
          if v.volume_id == "" || name == "" || not (is_capacity n)
          then none
          else some (name, n, profile)
    ]
  ]
]

abbrev pub info_of : Volume → String → ℤ → String → VolumeInfo
info_of v name n profile = record {
  volume_id = name;
  path = v.volume_id;
  size_bytes = scale n gib;
  provider = "ibmcloud";
  metadata =
      ("cloud-volume-path", v.volume_id)
      ∷ ("cloud-provider", "ibmcloud")
      ∷ ("ibm-volume-id", v.volume_id)
      ∷ ("zone", v.az)
      ∷ ("profile", profile)
      ∷ [];
}

-- The info of a volume whose fields are there.
unfoldable pub available_info : Volume → Option (String × ℤ × String) → Result VolumeInfo
available_info v none = err (error "incomplete IBM volume response")
available_info v (some (name, n, profile)) =
    if v.status == "available"
    then ok (info_of v name n profile)
    else err (error ("IBM volume " <> v.volume_id <> " is not available; retry later"))

unfoldable pub volume_info : Option Volume → Result VolumeInfo
unfolding complete available_info
volume_info none = err (error "incomplete IBM volume response")
volume_info (some v) = available_info v (complete v)
