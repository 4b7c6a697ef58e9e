-- ===== src/Azure/Settings.antt =====
-- NewAzureProvider. The credential and the constructors of the clients are parameters.
use caa_csi_block_driver.Prelude.{
  ◌-◌, ◌^◌, ℤ, pos, String, ◌<>◌, Bool, not, ◌&&◌, ◌||◌, Option, none, some, ◌==◌, if◌then◌else◌,
}
use caa_csi_block_driver.GoMap.{Params, get}
use caa_csi_block_driver.Result.{Result, ok, err, error, wrap}
use caa_csi_block_driver.Result.Bind.{◌>>=◌, ◌>>◌, require}
use caa_csi_block_driver.Provider.Numbers.{positive_within, is_positive}
use caa_csi_block_driver.Azure.{
  Config, DisksClient, SnapshotsClient, AzureProvider, default_disk_sku,
}
use caa_csi_block_driver.Azure.Names.{is_valid_resource_id}

-- The SKUs for which NewAzureProvider takes azureDiskIops and azureDiskMbps.
abbrev takes_performance : String → Bool
takes_performance sku = sku == "UltraSSD_LRS" || sku == "PremiumV2_LRS"

-- The parameters' SKU, under either spelling of its key.
abbrev disk_sku_of : Params → String
disk_sku_of params =
    if not (get params "azureDiskSKU" == "")
    then get params "azureDiskSKU"
    else if not (get params "azureDiskSku" == "")
    then get params "azureDiskSku"
    else default_disk_sku

abbrev with_message : {A : Type 0} → String → Result A → Result A
with_message message (ok a) = ok a
with_message message (err e) = err (wrap message e)

abbrev reject : Bool → String → Result (Unit {0})
reject bad message = if bad then err (error message) else ok tt

module _ (parse_int : String → Option ℤ) where
  positive_or_error : String → Option ℤ → Result ℤ
  positive_or_error name none = err (error ("invalid " <> name))
  positive_or_error name (some n) = ok n

  -- A parameter that is a positive int64, or zero where it is not set.
  unfoldable pub int64_param : String → String → Result ℤ
  unfolding positive_or_error positive_within
  int64_param name v =
      if v == ""
      then ok (pos 0)
      else positive_or_error name (positive_within (2 ^ 63 - 1) (parse_int v))

  -- The part of NewAzureProvider that comes after the clients.
  unfoldable pub azure_config : Params → Result Config
  unfolding int64_param is_valid_resource_id
  azure_config params = do
    let disk_sku = disk_sku_of params
    disk_iops ← int64_param "azureDiskIops" (get params "azureDiskIops")
    disk_mbps ← int64_param "azureDiskMbps" (get params "azureDiskMbps")
    reject (is_positive disk_iops && not (takes_performance disk_sku))
        "azureDiskIops is only supported for UltraSSD_LRS and PremiumV2_LRS"
    reject (is_positive disk_mbps && not (takes_performance disk_sku))
        "azureDiskMbps is only supported for UltraSSD_LRS and PremiumV2_LRS"
    let disk_enc_set_id = get params "azureDiskEncryptionSetId"
    reject (not (disk_enc_set_id == "") && not (is_valid_resource_id disk_enc_set_id))
        "invalid azureDiskEncryptionSetId"
    ok (record {
      subscription_id = get params "azureSubscriptionId";
      resource_group = get params "azureResourceGroup";
      location = get params "azureLocation";
      disk_sku = disk_sku;
      disk_iops = disk_iops;
      disk_mbps = disk_mbps;
      disk_enc_set_id = disk_enc_set_id;
    })

module _ {Cloud Credential : Type 0} (credential : Result Credential)
    (new_disks_client : String → Credential → Result (DisksClient Cloud))
    (new_snapshots_client : String → Credential → Result (SnapshotsClient Cloud)) where
  unfoldable pub new_azure_provider : (String → Option ℤ) → Params → Result (AzureProvider Cloud)
  unfolding azure_config
  new_azure_provider parse_int params = do
    let subscription_id = get params "azureSubscriptionId"
    require subscription_id "azureSubscriptionId is required for azure provider"
    require (get params "azureResourceGroup") "azureResourceGroup is required for azure provider"
    cred ← with_message "failed to create Azure credential" credential
    disks ←
        with_message "failed to create Azure disks client" (new_disks_client subscription_id cred)
    snapshots ←
        with_message "failed to create Azure snapshots client"
          (new_snapshots_client subscription_id cred)
    cfg ← azure_config parse_int params
    ok (record { disks_client = disks; snapshots_client = snapshots; config = cfg })
