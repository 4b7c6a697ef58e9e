-- ===== src/Store/Env/Laws.antt =====
-- Parameters from the environment name a provider and hold no credentials.
use caa_csi_block_driver.Prelude.{
  String, ◌≡◌, ◌≢◌, refl, ◌∙◌, false, none, some, arith, eq_iff, ◌==◌, [], ◌∷◌, if◌then◌else◌,
}
use caa_csi_block_driver.GoMap.{Params, lookup, get, lookup-set}
use caa_csi_block_driver.Store.Env.{
  set_if_non_empty, aws_params, azure_params, libvirt_params, provider_params, params_from_env,
  first_non_empty,
}

-- A key that no case of the switch sets.
abbrev IsOther : String → Type 0
IsOther k =
    (("awsRegion" == k) ≡ false)
    × (("awsAvailabilityZone" == k) ≡ false)
    × (("awsVolumeType" == k) ≡ false)
    × (("awsKmsKeyId" == k) ≡ false)
    × (("azureSubscriptionId" == k) ≡ false)
    × (("azureResourceGroup" == k) ≡ false)
    × (("azureLocation" == k) ≡ false)
    × (("azureDiskSKU" == k) ≡ false)
    × (("azureDiskEncryptionSetId" == k) ≡ false)
    × (("cloudProviderVolumePath" == k) ≡ false)

lookup-set_if_non_empty :
    (params : Params) (key value k : String)
    → (key == k) ≡ false
    → lookup k (set_if_non_empty params key value) ≡ lookup k params
unfolding set_if_non_empty
lookup-set_if_non_empty params key value k ne = ground (arith, lookup-set params key value k)

module _ (getenv : String → String) where
  lookup-aws_params :
      (params : Params) (k : String)
      → IsOther k
      → lookup k (aws_params getenv params) ≡ lookup k params
  unfolding aws_params
  lookup-aws_params params k o =
      lookup-set_if_non_empty _ _ _ k o.3
      ∙ lookup-set_if_non_empty _ _ _ k o.2
      ∙ lookup-set_if_non_empty _ _ _ k o.1
      ∙ lookup-set_if_non_empty _ _ _ k o.0

  lookup-azure_params :
      (params : Params) (k : String)
      → IsOther k
      → lookup k (azure_params getenv params) ≡ lookup k params
  unfolding azure_params
  lookup-azure_params params k o =
      lookup-set_if_non_empty _ _ _ k o.8
      ∙ lookup-set_if_non_empty _ _ _ k o.7
      ∙ lookup-set_if_non_empty _ _ _ k o.6
      ∙ lookup-set_if_non_empty _ _ _ k o.5
      ∙ lookup-set_if_non_empty _ _ _ k o.4

  lookup-provider_params :
      (p : String) (params : Params) (k : String)
      → IsOther k
      → lookup k (provider_params getenv p params) ≡ lookup k params
  unfolding provider_params libvirt_params
  lookup-provider_params p params k o = ground (
    arith,
    lookup-aws_params params k o,
    lookup-azure_params params k o,
    lookup-set_if_non_empty params "cloudProviderVolumePath"
        (first_non_empty
          (getenv "CSI_LIBVIRT_VOLUME_PATH" ∷ getenv "CLOUD_PROVIDER_VOLUME_PATH" ∷ []))
        k o.9,
  )

  -- What the switch starts with.
  lookup-start :
      (c k : String)
      → IsOther k
      → lookup k (provider_params getenv c (("cloudProvider", c) ∷ []))
        ≡ (if "cloudProvider" == k then some c else none)
  unfolding lookup
  lookup-start c k o = lookup-provider_params c (("cloudProvider", c) ∷ []) k o

  -- Parameters that come from the environment name the provider that the environment names, and hold
  -- neither of the AWS credentials, which the environment may well have.
  pub params_from_env-lookup :
      (params : Params)
      → params_from_env getenv ≡ some params
      → (lookup "cloudProvider" params
          ≡ some (first_non_empty (getenv "CSI_CLOUD_PROVIDER" ∷ getenv "CLOUD_PROVIDER" ∷ [])))
        × (get params "cloudProvider" ≢ "")
        × (lookup "awsAccessKeyId" params ≡ none)
        × (lookup "awsSecretKey" params ≡ none)
  unfolding params_from_env
  params_from_env-lookup params h =
      let c = first_non_empty (getenv "CSI_CLOUD_PROVIDER" ∷ getenv "CLOUD_PROVIDER" ∷ []) in
      ground (
        arith,
        eq_iff c "",
        lookup-start c "cloudProvider" (refl, refl, refl, refl, refl, refl, refl, refl, refl, refl),
        lookup-start c "awsAccessKeyId"
            (refl, refl, refl, refl, refl, refl, refl, refl, refl, refl),
        lookup-start c "awsSecretKey" (refl, refl, refl, refl, refl, refl, refl, refl, refl, refl),
      )
