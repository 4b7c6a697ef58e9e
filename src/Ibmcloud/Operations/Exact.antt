-- ===== src/Ibmcloud/Operations/Exact.antt =====
-- DeleteVolume of pkg/driver/controllerserver.go with the provider of pkg/provider/ibmcloud/provider.go:
-- the disk is the one that the volume's record names.
use caa_csi_block_driver.Prelude.{
  ℕ, String, ◌≡◌, ◌≢◌, refl, ◌∙◌, ◌⊎◌, inl, inr, Option, some, [], arith, eq_iff, ne→==,
}
use caa_csi_block_driver.GoMap.{
  Params, get, set, entries, lookup, copy_into, lookup-set, lookup-copy_into,
}
use caa_csi_block_driver.Result.{GoError, Result, ok, err, Result-cases}
use caa_csi_block_driver.Platform.{VolumeRecord}
use caa_csi_block_driver.Topology.{clone_params}
use caa_csi_block_driver.Controller.{delete_provider_params}
use caa_csi_block_driver.Provider.Calls.{try, wrapping, ◌>>=◌}
use caa_csi_block_driver.Ibmcloud.{
  Config, IbmCloudProvider, Text, Sdk, parse_config, new_provider_with_config,
  new_ibm_cloud_provider, either_key,
}
use caa_csi_block_driver.Ibmcloud.Laws.{parse_config-volume_id}
use caa_csi_block_driver.Ibmcloud.Volumes.{Volume, Session, Packages, zero_volume, named}
use caa_csi_block_driver.Ibmcloud.Lookup.{lookup_volume}
use caa_csi_block_driver.Ibmcloud.Operations.{delete_volume}
use caa_csi_block_driver.Ibmcloud.Operations.Deletion.{
  Deletes, missing, refused, deleted, Deletes-delete_volume,
}

-- The parameters that DeleteVolume hands to the provider name the record's path.
volume_id_of-delete_provider_params :
    (rec : VolumeRecord)
    → rec.path ≢ ""
    → get (entries rec.params) "ibm-volume-id" ≡ ""
    → either_key (delete_provider_params rec) "ibm-volume-id" "cloud-volume-path" ≡ rec.path
unfolding delete_provider_params clone_params lookup
volume_id_of-delete_provider_params rec there unset =
    let m = copy_into [] (entries rec.params) in
    let no_id : get (delete_provider_params rec) "ibm-volume-id" ≡ "" = ground (
      arith,
      lookup-set m "cloud-volume-path" rec.path "ibm-volume-id",
      lookup-copy_into [] (entries rec.params) "ibm-volume-id",
    ) in
    let path : get (delete_provider_params rec) "cloud-volume-path" ≡ rec.path =
      ground (
        arith,
        eq_iff rec.path "",
        lookup-set m "cloud-volume-path" rec.path "cloud-volume-path",
      ) in
    rw (no_id, path) refl

module _ {Cloud : Type 0} (S : Sdk (Session Cloud)) where
  new_provider_with_config-volume_id :
      (cfg : Config) (p : IbmCloudProvider (Session Cloud))
      → new_provider_with_config S cfg ≡ ok p
      → p.config.volume_id ≡ cfg.volume_id
  unfolding new_provider_with_config
  new_provider_with_config-volume_id cfg p h = elim (Result-cases S.k8s_client) [
    | inr (e, bad) ↦ absurd (ground arith)
    | inl (client, e1) ↦ elim (Result-cases (S.new_storage_provider client)) [
      | inr (e, bad) ↦ absurd (ground arith)
      | inl (storage, e2) ↦ ground arith
    ]
  ]

  new_ibm_cloud_provider-volume_id :
      (T : Text) (params : Params) (p : IbmCloudProvider (Session Cloud))
      → new_ibm_cloud_provider S T params ≡ ok p
      → p.config.volume_id ≡ either_key params "ibm-volume-id" "cloud-volume-path"
  unfolding new_ibm_cloud_provider
  new_ibm_cloud_provider-volume_id T params p h = elim (Result-cases (parse_config T params)) [
    | inr (e, bad) ↦ absurd (ground arith)
    | inl (cfg, good) ↦ elim (Result-cases (new_provider_with_config S cfg)) [
      | inr (e, bad) ↦ absurd (ground arith)
      | inl (q, made) ↦
          let same : q ≡ p = ground arith in
          rw (← same) (new_provider_with_config-volume_id cfg q made)
          ∙ parse_config-volume_id T params cfg good
    ]
  ]

-- What a call that deletes a volume by its native ID gives, or an error with no call.
abbrev pub DeletesId :
    {Cloud : Type 0} → Session Cloud → String → Cloud → Result (Unit {0}) → Cloud → Type 0
DeletesId session native_id c r c' =
    ((e : GoError) × (r ≡ err e) × (c' ≡ c))
    ⊎ (wrapping "failed to DeleteVolume via ibmcloud-volume-vpc SDK"
          (session.delete_volume (record zero_volume { volume_id = native_id })) c
        ≡ (r, c'))

module _ {Cloud : Type 0} (P : Packages) (rounds : ℕ) (p : IbmCloudProvider (Session Cloud)) where
  DeletesId-Deletes :
      (volume_id : String) (c c' : Cloud) (found : Result (Option Volume)) (r : Result (Unit {0}))
      → Deletes P rounds p volume_id c found r c'
      → (v : Volume) → found ≡ ok (some v)
      → DeletesId p.session v.volume_id c r c'
  DeletesId-Deletes volume_id c c' found r (missing gone) v h = absurd (ground arith)
  DeletesId-Deletes volume_id c c' found r (refused {e = e}) v h = inl (e, refl, refl)
  DeletesId-Deletes volume_id c c' found r (deleted {v = w} owned native call) v h =
      let same : w ≡ v = ground arith in rw (← same) (inr call)

  -- With a configured ID that GetVolume answers, that volume is what the lookup finds.
  lookup_volume_configured :
      (name : String) (v : Volume) (c c' : Cloud)
      → p.config.volume_id ≢ ""
      → p.session.get_volume p.config.volume_id c ≡ (ok (some v), c')
      → lookup_volume P rounds p name c ≡ (ok (some (named name v)), c')
  unfolding lookup_volume ◌>>=◌ try
  lookup_volume_configured name v c c' set found =
      let no = ne→== p.config.volume_id "" set in ground arith

named-keeps_id : (name : String) (v : Volume) → (named name v).volume_id ≡ v.volume_id
named-keeps_id name v = ground arith

-- The provider that the controller's DeleteVolume makes of a record with a path, and whose parameters
-- have no ibm-volume-id, deletes the disk of that path and no other, where GetVolume answers with the volume of the ID that it is asked for: its
-- DeleteVolume either fails with no call after the lookup, or calls the cloud's with the path as ID.
pub DeletesId-delete_volume :
    {Cloud : Type 0} (S : Sdk (Session Cloud)) (T : Text) (P : Packages) (rounds : ℕ)
    (rec : VolumeRecord) (p : IbmCloudProvider (Session Cloud)) (volume_id : String) (v : Volume)
    (c c1 : Cloud)
    → rec.path ≢ ""
    → get (entries rec.params) "ibm-volume-id" ≡ ""
    → new_ibm_cloud_provider S T (delete_provider_params rec) ≡ ok p
    → p.session.get_volume rec.path c ≡ (ok (some v), c1)
    → v.volume_id ≡ rec.path
    → (let (r, c') = delete_volume P rounds p volume_id c in DeletesId p.session rec.path c1 r c')
DeletesId-delete_volume S T P rounds rec p volume_id v c c1 there unset made got same =
    let path =
      new_ibm_cloud_provider-volume_id S T (delete_provider_params rec) p made
      ∙ volume_id_of-delete_provider_params rec there unset in
    let found =
      lookup_volume_configured P rounds p volume_id v c c1 (rw path there) (rw path got) in
    let id = named-keeps_id volume_id v ∙ same in
    let after : (lookup_volume P rounds p volume_id c).1 ≡ c1 = ground arith in
    rw (← id) (
      rw (← after) (
        DeletesId-Deletes P rounds p volume_id (lookup_volume P rounds p volume_id c).1
          (delete_volume P rounds p volume_id c).1 (lookup_volume P rounds p volume_id c).0
          (delete_volume P rounds p volume_id c).0 (Deletes-delete_volume P rounds p volume_id c)
          (named volume_id v) (ground arith)))
