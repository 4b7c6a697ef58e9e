-- ===== src/Store/Env.antt =====
-- The parameters that pkg/driver/volumestore.go takes from the environment, and what it strips
-- from parameters before they are kept on disk.
pub mod Laws
use caa_csi_block_driver.Prelude.{
  String, Bool, not, ◌&&◌, Option, none, some, List, [], ◌∷◌, ◌==◌, if◌then◌else◌,
}
use caa_csi_block_driver.GoMap.{Params, get, set, erase, entries, has_entries}

-- firstNonEmpty
unfoldable pub first_non_empty : List String → String
first_non_empty [] = ""
first_non_empty (v ∷ values) = if v == "" then first_non_empty values else v

unfoldable pub set_if_non_empty : Params → String → String → Params
set_if_non_empty params key value = if value == "" then params else set params key value

-- The test `len(p) > 0 && p["cloudProvider"] != ""` on a map that may be nil.
abbrev pub is_usable : Option Params → Bool
is_usable p = has_entries (entries p) && not (get (entries p) "cloudProvider" == "")

-- sanitizePersistableParams on a map that is not nil
unfoldable pub sanitize_persistable_params : Params → Params
sanitize_persistable_params params = erase (erase params "awsAccessKeyId") "awsSecretKey"

module _ (getenv : String → String) where
  -- The cases of the switch in paramsFromEnv.
  aws_params : Params → Params
  aws_params p0 =
      let p1 =
        set_if_non_empty p0 "awsRegion"
          (first_non_empty (getenv "CSI_AWS_REGION" ∷ getenv "AWS_REGION" ∷ [])) in
      let p2 = set_if_non_empty p1 "awsAvailabilityZone" (
        first_non_empty
          (getenv "CSI_AWS_AVAILABILITY_ZONE" ∷ getenv "AWS_AVAILABILITY_ZONE" ∷ [])) in
      let p3 = set_if_non_empty p2 "awsVolumeType" (getenv "CSI_AWS_VOLUME_TYPE") in
      set_if_non_empty p3 "awsKmsKeyId" (getenv "CSI_AWS_KMS_KEY_ID")

  azure_params : Params → Params
  azure_params p0 =
      let p1 = set_if_non_empty p0 "azureSubscriptionId" (
        first_non_empty
          (getenv "CSI_AZURE_SUBSCRIPTION_ID" ∷ getenv "AZURE_SUBSCRIPTION_ID" ∷ [])) in
      let p2 = set_if_non_empty p1 "azureResourceGroup" (
        first_non_empty (getenv "CSI_AZURE_RESOURCE_GROUP" ∷ getenv "AZURE_RESOURCE_GROUP" ∷ [])) in
      let p3 =
        set_if_non_empty p2 "azureLocation"
          (first_non_empty (getenv "CSI_AZURE_LOCATION" ∷ getenv "AZURE_LOCATION" ∷ [])) in
      let p4 = set_if_non_empty p3 "azureDiskSKU" (getenv "CSI_AZURE_DISK_SKU") in
      set_if_non_empty p4 "azureDiskEncryptionSetId" (getenv "CSI_AZURE_DISK_ENCRYPTION_SET_ID")

  libvirt_params : Params → Params
  libvirt_params p0 = set_if_non_empty p0 "cloudProviderVolumePath" (
      first_non_empty (getenv "CSI_LIBVIRT_VOLUME_PATH" ∷ getenv "CLOUD_PROVIDER_VOLUME_PATH" ∷ []))

  provider_params : String → Params → Params
  provider_params cloud_provider p =
      if cloud_provider == "aws"
      then aws_params p
      else if cloud_provider == "azure"
      then azure_params p
      else if cloud_provider == "libvirt"
      then libvirt_params p
      else p

  unfoldable pub params_from_env : Option Params
  unfolding first_non_empty set_if_non_empty aws_params azure_params libvirt_params provider_params
  params_from_env =
      let cloud_provider =
        first_non_empty (getenv "CSI_CLOUD_PROVIDER" ∷ getenv "CLOUD_PROVIDER" ∷ []) in
      if cloud_provider == ""
      then none
      else some (provider_params cloud_provider (("cloudProvider", cloud_provider) ∷ []))
