-- ===== src/Ibmcloud.antt =====
-- pkg/provider/ibmcloud/provider.go: how parameters become a configuration (NewIBMCloudProvider,
-- parseConfig, newProviderWithConfig, resolveResourceGroup). The children model the volumes. The Go functions strconv.ParseInt,
-- strconv.FormatInt, strings.TrimSpace and strings.ToLower, the Kubernetes client and the SDK's
-- storage provider are parameters.
pub mod Capacity
pub mod Laws
pub mod Volumes
pub mod Listing
pub mod Lookup
pub mod Operations
pub mod Recovery
pub mod Cloud
pub mod Effects
pub mod Refinement
use caa_csi_block_driver.Prelude.{
  ℕ, ◌-◌, ◌^◌, ℤ, pos, String, ◌<>◌, Bool, true, false, not, ◌&&◌, ◌||◌, Option, none, some, List,
  [], ◌∷◌, ◌==◌, split, starts_with, if◌then◌else◌,
}
use caa_csi_block_driver.GoMap.{Params, get}
use caa_csi_block_driver.Result.{
  Result, ok, err, error, sentinel_error, err_invalid_parameters, wrap,
}
use caa_csi_block_driver.Result.Bind.{◌>>=◌, ◌>>◌}
use caa_csi_block_driver.Provider.Numbers.{positive_within}

pub record Config : Type 0 where
  pub region : String
  pub zone : String
  pub resource_group : String
  pub profile : String
  pub iops : String
  pub encrypted : String
  pub encryption_key : String
  pub billing_type : String
  pub extra_tags : List String
  pub fs_type : String
  pub throughput : ℤ
  pub volume_id : String

abbrev pub ownership_tag_prefix : String
ownership_tag_prefix = "caa-csi-volume-id:"

abbrev pub config_tag_prefix : String
config_tag_prefix = "caa-csi-config:"

abbrev or_default : String → String → String
or_default value default = if value == "" then default else value

-- The value of a key, or of a second one where the first has none.
abbrev either_key : Params → String → String → String
either_key params k j = or_default (get params k) (get params j)

abbrev pub is_valid_profile : String → Bool
is_valid_profile p =
    p == "general-purpose" || p == "5iops-tier" || p == "10iops-tier" || p == "custom" || p == "sdp"

abbrev pub takes_iops : String → Bool
takes_iops p = p == "custom" || p == "sdp"

abbrev same_bool : Bool → Bool → Bool
same_bool true b = b
same_bool false b = not b

abbrev is_reserved : String → Bool
is_reserved tag = starts_with tag ownership_tag_prefix || starts_with tag config_tag_prefix

unfoldable pub has_reserved : List String → Bool
has_reserved [] = false
has_reserved (tag ∷ tags) = is_reserved tag || has_reserved tags

unfoldable pub set_values : List String → List String
set_values [] = []
set_values (v ∷ vs) = let rest = set_values vs in if v == "" then rest else v ∷ rest

abbrev reject : Bool → String → Result (Unit {0})
reject bad message = if bad then err (error message) else ok tt

-- The checks before the numbers are parsed.
unfoldable pub check_placement : String → String → String → String → Result (Unit {0})
check_placement region zone profile iops = do
  reject (region == "" || zone == "") "region and zone must be explicitly configured"
  reject (not (is_valid_profile profile)) "unsupported profile"
  reject (not (starts_with zone region)) "zone must belong to region"
  reject (profile == "custom" && iops == "") "custom profile requires iops"
  reject (not (takes_iops profile) && not (iops == "")) "iops is not supported for tiered profiles"

unfoldable pub check_encryption : String → String → Result (Unit {0})
check_encryption encrypted key = do
  reject (not (encrypted == "true" || encrypted == "false")) "encrypted must be true or false"
  reject (not (same_bool (encrypted == "true") (not (key == ""))))
      "encrypted=true requires encryptionKey; omit the key when encrypted=false"

unfoldable pub check_tags : List String → Result (Unit {0})
unfolding has_reserved
check_tags tags = reject (has_reserved tags) "tag prefix is reserved for driver ownership"

-- The functions of strconv and strings that parseConfig calls.
pub record Text : Type 0 where
  pub parse_int : String → Option ℤ
  pub format_int : ℤ → String
  pub trim_space : String → String
  pub to_lower : String → String

module _ (T : Text) where
  abbrev trim_all : List String → List String
  trim_all [] = []
  trim_all (v ∷ vs) = T.trim_space v ∷ trim_all vs

  extra_tags_of : String → List String
  unfolding split set_values
  extra_tags_of tags = if tags == "" then [] else set_values (trim_all (split b',' tags))

  positive_or_error : String → Option ℤ → Result ℤ
  positive_or_error message none = err (error message)
  positive_or_error message (some n) = ok n

  abbrev formatted : Result ℤ → Result String
  formatted (err e) = err e
  formatted (ok n) = ok (T.format_int n)

  -- The IOPS in their canonical form, if there are any.
  iops_of : String → Result String
  unfolding positive_or_error positive_within
  iops_of v =
      if v == ""
      then ok ""
      else formatted (
          positive_or_error "iops must be a positive integer"
            (positive_within (2 ^ 63 - 1) (T.parse_int v)))

  throughput_of : String → Result ℤ
  unfolding positive_or_error positive_within
  throughput_of v =
      if v == ""
      then ok (pos 0)
      else positive_or_error "throughput must be a positive int32 (Mbps)"
          (positive_within (2 ^ 31 - 1) (T.parse_int v))

  unfoldable pub parse_config : Params → Result Config
  unfolding extra_tags_of iops_of throughput_of check_placement check_encryption check_tags
  parse_config params = do
    let region = either_key params "region" "ibmRegion"
    let zone = either_key params "zone" "ibmZone"
    let profile = or_default (either_key params "profile" "ibmProfile") "general-purpose"
    let iops = either_key params "iops" "ibmIops"
    let extra_tags = extra_tags_of (get params "tags")
    let encryption_key = get params "encryptionKey"
    let encrypted = T.to_lower (or_default (get params "encrypted") "false")
    check_placement region zone profile iops
    canonical_iops ← iops_of iops
    throughput ← throughput_of (get params "throughput")
    check_encryption encrypted encryption_key
    check_tags extra_tags
    ok (record {
      region = region;
      zone = zone;
      resource_group = either_key params "resourceGroup" "ibmResourceGroup";
      profile = profile;
      iops = canonical_iops;
      encrypted = encrypted;
      encryption_key = encryption_key;
      billing_type = or_default (get params "billingType") "hourly";
      extra_tags = extra_tags;
      fs_type = or_default (get params "csi.storage.k8s.io/fstype") "ext4";
      throughput = throughput;
      volume_id = either_key params "ibm-volume-id" "cloud-volume-path";
    })

-- resolveResourceGroup
unfoldable pub resolve_resource_group : String → String → Result String
resolve_resource_group explicit configured =
    if not (explicit == "")
    then ok explicit
    else if configured == ""
    then err (
        sentinel_error err_invalid_parameters
          "resourceGroup is omitted and the provider has no g2_resource_group_id")
    else ok configured

-- IBMCloudProvider
pub record IbmCloudProvider (Session : Type 0) : Type 0 where
  pub session : Session
  pub config : Config

abbrev with_message : {A : Type 0} → String → Result A → Result A
with_message message (ok a) = ok a
with_message message (err e) = err (wrap message e)

-- fmt.Errorf("%w: %v", ErrInvalidParameters, err), which keeps only the text of the error
abbrev as_invalid : {A : Type 0} → Result A → Result A
as_invalid (ok a) = ok a
as_invalid (err e) = err (sentinel_error err_invalid_parameters e.text)

-- What newProviderWithConfig calls to get a session of the SDK.
pub record Sdk (Session : Type 0) : Type 1 where
  pub K8sClient : Type 0
  pub Storage : Type 0
  pub k8s_client : Result K8sClient
  pub new_storage_provider : K8sClient → Result Storage
  pub resource_group_id : Storage → String
  pub provider_session : Storage → Result Session

module _ {Session : Type 0} (S : Sdk Session) where
  unfoldable pub new_provider_with_config : Config → Result (IbmCloudProvider Session)
  unfolding resolve_resource_group
  new_provider_with_config cfg = do
    client ← with_message "failed to get Kubernetes clientset" S.k8s_client
    storage ←
        with_message "failed to create NewIBMCloudStorageProvider" (S.new_storage_provider client)
    group ← resolve_resource_group cfg.resource_group (S.resource_group_id storage)
    session ← with_message "failed to get Provider Session" (S.provider_session storage)
    ok (record { session = session; config = record cfg { resource_group = group } })

  unfoldable pub new_ibm_cloud_provider : Text → Params → Result (IbmCloudProvider Session)
  unfolding parse_config new_provider_with_config
  new_ibm_cloud_provider T params = do
    cfg ← as_invalid (parse_config T params)
    as_invalid (new_provider_with_config cfg)
