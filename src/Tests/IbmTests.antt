-- ===== src/Tests/IbmTests.antt =====
-- The IBM Cloud provider's theorems at concrete inputs.
use caa_csi_block_driver.Prelude.{
  ◌≡◌, some, to_int64, ◌↔◌, eq_iff, none, arith, inl, scale, quot, cut_prefix, ℕ, ◌*◌, ◌<◌, pos,
  refl, ◌⊎◌, [], ◌∷◌,
}
use caa_csi_block_driver.Provider.Specification.{Disks, create, expand, specified_all}
use caa_csi_block_driver.Provider.History.{creates, deletes, start, then_op}
use caa_csi_block_driver.Ibmcloud.Operations.{
  expand_volume, expanded_capacity, new_volume, delete_volume, create_volume,
}
use caa_csi_block_driver.Ibmcloud.Effects.Changes.{requested_units}
use caa_csi_block_driver.Ibmcloud.Refinement.{sizes-block_volume_provider}
use caa_csi_block_driver.Tests.Vpc.{vpc_provider, vpc-VpcLaws}
use caa_csi_block_driver.Topology.{clone_params}
use caa_csi_block_driver.GoMap.{copy_into, set, lookup}
use caa_csi_block_driver.Ibmcloud.Operations.Exact.{DeletesId, DeletesId-delete_volume}
use caa_csi_block_driver.Ibmcloud.{
  IbmCloudProvider, Sdk, new_ibm_cloud_provider, Text, parse_config,
}
use caa_csi_block_driver.Ibmcloud.Volumes.{Session, Volume, info_of, check_owned_volume, named}
use caa_csi_block_driver.Platform.{VolumeRecord}
use caa_csi_block_driver.Controller.{delete_provider_params}
use caa_csi_block_driver.Tests.IbmCloud.{
  by_native_id, page_at, Volumes, made_of, session, packages, config, provider, session-Emits,
}
use caa_csi_block_driver.Result.{GoError, ok, err}
use caa_csi_block_driver.Provider.{VolumeInfo}
use caa_csi_block_driver.Provider.Numbers.{gib}
use caa_csi_block_driver.Ibmcloud.Volumes.Owned.{IsOwned, check_owned_volume_iff}
use caa_csi_block_driver.Ibmcloud.Listing.{list_volumes}
use caa_csi_block_driver.Ibmcloud.Listing.Ends.{Lists, Lists-list_volumes}
use caa_csi_block_driver.Ibmcloud.Lookup.{find_named, lookup_volume}
use caa_csi_block_driver.Ibmcloud.Lookup.Unique.{the_only, with_name, find_named-the_only}
use caa_csi_block_driver.Ibmcloud.Operations.Deletion.{Deletes, Deletes-delete_volume}
use caa_csi_block_driver.Ibmcloud.Operations.Creation.{Holds, create_volume-Holds}
use caa_csi_block_driver.Ibmcloud.Operations.Repeat.{create_volume-again}
use caa_csi_block_driver.Ibmcloud.Recovery.{list_managed_volumes}
use caa_csi_block_driver.Ibmcloud.Recovery.Managed.{AllOf, AllOf-list_managed_volumes}
use caa_csi_block_driver.Ibmcloud.Capacity.{
  normalize_capacity, IsMinimum, IsNormal, normalize_capacity_sound,
}
use caa_csi_block_driver.Ibmcloud.Laws.{IsUsable, parse_config-IsUsable}
use caa_csi_block_driver.Provider.Specification

-- 20 GiB and a byte in a tier profile.
normalize_capacity_sound_example :
    (minimum : ℕ) × IsMinimum "5iops-tier" minimum
    × (((c : ℕ) × (normalize_capacity "5iops-tier" (pos 21474836481) ≡ ok (pos c))
          × IsNormal minimum 21474836481 c)
        ⊎ ((e : GoError) × (normalize_capacity "5iops-tier" (pos 21474836481) ≡ err e)
            × (8589934591 * gib < 21474836481)))
normalize_capacity_sound_example = normalize_capacity_sound "5iops-tier" 21474836481

-- Functions on texts that are numbers in lower case without spaces.
abbrev text : Text
text = record {
  parse_int = λ s. some (pos 3000);
  format_int = λ n. "3000";
  trim_space = λ s. s;
  to_lower = λ s. s;
}

parse_config-IsUsable_example : IsUsable config
unfolding parse_config lookup
parse_config-IsUsable_example =
    parse_config-IsUsable text
      (("region", "eu-de")
        ∷ ("zone", "eu-de-1")
        ∷ ("profile", "custom")
        ∷ ("iops", "3000")
        ∷ ("tags", "team")
        ∷ ("resourceGroup", "group")
        ∷ [])
      config refl

Lists-list_volumes_example :
    (let (r, c') = list_volumes session [] 4 [] in Lists session [] [] "" [] [] r c')
Lists-list_volumes_example =
    Lists-list_volumes session [] ("next" ∷ []) 4 [] (session-Emits []) (omega arith)

-- The volume of a request for 20 GiB, and what the listing returns of it.
abbrev made : Volume
made = made_of (new_volume packages config "pvc-1" (pos 21474836480))

abbrev cloud : Volumes
cloud = some made ∷ []

abbrev found : Volume
found = named "pvc-1" made

check_owned_volume_iff_example :
    check_owned_volume packages config found "pvc-1" ≡ ok tt ↔ IsOwned packages config found "pvc-1"
check_owned_volume_iff_example = check_owned_volume_iff packages config found "pvc-1"

find_named-the_only_example :
    find_named "pvc-1" none (some made ∷ []) ≡ the_only "pvc-1" (with_name "pvc-1" (made ∷ []))
find_named-the_only_example = find_named-the_only "pvc-1" (made ∷ [])

lookup_found : lookup_volume packages 3 provider "pvc-1" cloud ≡ (ok (some found), cloud)
unfolding lookup_volume page_at
lookup_found = refl

Deletes-delete_volume_example :
    (let (r, c1) = lookup_volume packages 3 provider "pvc-1" cloud in
      let (s, c') = delete_volume packages 3 provider "pvc-1" cloud in
      Deletes packages 3 provider "pvc-1" c1 r s c')
Deletes-delete_volume_example = Deletes-delete_volume packages 3 provider "pvc-1" cloud

-- Another call of CreateVolume for it.
create_volume-again_example :
    (info : VolumeInfo) × (create_volume packages 3 provider "pvc-1" (pos 21474836480) cloud
      ≡ (ok info, cloud))
    × (info.volume_id ≡ "pvc-1")
    × (info.path ≡ "r010-1")
    × (info.size_bytes ≡ pos 21474836480)
unfolding normalize_capacity new_volume
create_volume-again_example =
    create_volume-again packages 3 provider "pvc-1" 21474836480 21474836480 found cloud cloud
      (λ e. ground (arith, eq_iff "eu-de-1" "")) (λ e. ground (arith, eq_iff "pvc-1" "")) refl
      lookup_found
      (record {
        same_tags = refl;
        same_zone = refl;
        same_profile = refl;
        same_iops = refl;
        same_bandwidth = refl;
        group_or_none = inl refl;
        key_or_none = inl refl;
      })
      refl refl (λ e. ground (arith, eq_iff "r010-1" "")) refl

abbrev info : VolumeInfo
info = info_of found "pvc-1" (pos 20) "custom"

created : create_volume packages 3 provider "pvc-1" (pos 21474836480) [] ≡ (ok info, cloud)
unfolding create_volume page_at quot scale
created = refl

create_volume-Holds_example : Holds (pos 21474836480) "pvc-1" info
create_volume-Holds_example =
    create_volume-Holds packages 3 provider "pvc-1" (pos 21474836480) info [] cloud refl created

listed : list_managed_volumes packages 3 provider cloud ≡ (ok (info ∷ []), cloud)
unfolding list_managed_volumes page_at new_volume cut_prefix quot
listed = refl

AllOf-list_managed_volumes_example :
    (vs : Volumes) × (list_volumes session
        (("resource_group.id", "group") ∷ ("zone.name", "eu-de-1") ∷ [])
        3
        cloud
      ≡ (ok vs, cloud))
    × AllOf packages config (info ∷ []) vs
AllOf-list_managed_volumes_example =
    AllOf-list_managed_volumes packages 3 provider (info ∷ []) cloud cloud listed

-- An SDK that gives this session.
abbrev sdk : Sdk (Session Volumes)
sdk = record {
  K8sClient = Unit;
  Storage = Unit;
  k8s_client = ok tt;
  new_storage_provider = λ client. ok tt;
  resource_group_id = λ storage. "group";
  provider_session = λ storage. ok session;
}

-- The record of the volume, with its native ID.
abbrev stored : VolumeRecord
stored = record {
  volume_id = "pvc-1";
  provider = "ibmcloud";
  path = "r010-1";
  capacity_bytes = pos 21474836480;
  params = some (
      ("region", "eu-de")
      ∷ ("zone", "eu-de-1")
      ∷ ("profile", "custom")
      ∷ ("iops", "3000")
      ∷ ("tags", "team")
      ∷ []);
}

abbrev by_path : IbmCloudProvider (Session Volumes)
by_path = record provider { config = record config { volume_id = "r010-1" } }

made_by_path : new_ibm_cloud_provider sdk text (delete_provider_params stored) ≡ ok by_path
unfolding new_ibm_cloud_provider parse_config lookup delete_provider_params set clone_params
    copy_into
made_by_path = refl

DeletesId-delete_volume_example :
    (let (r, c') = delete_volume packages 3 by_path "pvc-1" cloud in
      DeletesId session "r010-1" cloud r c')
unfolding by_native_id lookup
DeletesId-delete_volume_example =
    DeletesId-delete_volume sdk text packages 3 stored by_path "pvc-1" made cloud cloud
      (λ e. ground (arith, eq_iff "r010-1" "")) refl made_by_path refl refl

-- A volume is made, expanded and deleted.
abbrev no_volumes : Disks
no_volumes w = none

abbrev after_create : Disks
after_create = (create_volume packages 3 vpc_provider "pvc-1" (pos 21474836480) no_volumes).1

abbrev after_expand : Disks
after_expand = (expand_volume packages 3 vpc_provider "pvc-1" (pos 32212254720) after_create).1

abbrev after_delete : Disks
after_delete = (delete_volume packages 3 vpc_provider "pvc-1" after_create).1

sizes-block_volume_provider_example :
    after_delete "pvc-1"
    ≡ specified_all
        (requested_units "custom")
        expanded_capacity
        (λ v. v)
        (create "pvc-1" (pos 21474836480) ∷ Specification.delete "pvc-1" ∷ [])
        no_volumes
        "pvc-1"
unfolding create_volume delete_volume quot scale lookup to_int64
sizes-block_volume_provider_example =
    sizes-block_volume_provider packages 3 vpc_provider vpc-VpcLaws refl
      (then_op
        (creates {c = no_volumes} {c' = after_create} {v = "pvc-1"} {n = pos 21474836480} refl)
        (then_op (deletes {c = after_create} {c' = after_delete} {v = "pvc-1"} refl) start))
      "pvc-1"
