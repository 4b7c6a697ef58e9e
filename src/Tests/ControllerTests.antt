-- ===== src/Tests/ControllerTests.antt =====
-- The controller's theorems on volumes at concrete inputs.
use caa_csi_block_driver.Controller.Create.{requested_capacity}
use caa_csi_block_driver.Topology.{apply_aws_zone}
use caa_csi_block_driver.Topology.{clone_params}
use caa_csi_block_driver.Controller.{delete_provider_params}
use caa_csi_block_driver.Controller.Create.{requested_params}
use caa_csi_block_driver.Prelude.{pos, ◌≡◌, refl, true, false, none, some, [], ◌∷◌, ◌↔◌, ext}
use caa_csi_block_driver.GoMap.{lookup, set, copy_into}
use caa_csi_block_driver.Result.{GoError, ok, err, done}
use caa_csi_block_driver.Platform.{VolumeRecord}
use caa_csi_block_driver.Provider.{VolumeInfo, new_block_volume_provider}
use caa_csi_block_driver.Server.{World}
use caa_csi_block_driver.Store.{load, save, write_manifest, list_all, read_records}
use caa_csi_block_driver.Topology.{apply_topology_params, topology_value}
use caa_csi_block_driver.Controller.{load_volume_record}
use caa_csi_block_driver.Controller.Capabilities.{single_node_writer, validate_volume_capabilities}
use caa_csi_block_driver.Controller.Capabilities.Laws.{
  AllAccepted, validate_volume_capabilities_iff,
}
use caa_csi_block_driver.Controller.Create.{
  CreateVolumeRequest, Volume, create_volume, created_volume,
}
use caa_csi_block_driver.Controller.Create.Repeat.{SameVolume, create_volume-repeat}
use caa_csi_block_driver.Controller.Delete.{DeleteVolumeRequest, delete_volume}
use caa_csi_block_driver.Controller.Delete.Outcomes.{load-delete_volume}
use caa_csi_block_driver.Controller.Expand.{ControllerExpandVolumeRequest, controller_expand_volume}
use caa_csi_block_driver.Controller.Expand.Outcomes.{load-controller_expand_volume}
use caa_csi_block_driver.Tests.Files.{
  volume_record, memory, memory-IsLawful, memory-Writes, memory-Removes, find, entries_of, apart,
}
use caa_csi_block_driver.Tests.Cloud.{no_env, setup, fresh, new_volume}

-- A request for 2 GiB in a zone of AWS.
abbrev request : CreateVolumeRequest
request = record {
  name = "pvc-1";
  volume_capabilities = record { is_block = false; access_mode = some single_node_writer } ∷ [];
  parameters = some (("cloudProvider", "aws") ∷ []);
  accessibility_requirements = some (record {
    requisite = [];
    preferred = some (("topology.kubernetes.io/zone", "zone-1") ∷ []) ∷ [];
  });
  required_bytes = pos 2147483648;
  volume_content_source = none;
}

abbrev info : VolumeInfo
info = new_volume "pvc-1" (pos 2147483648)

abbrev volume : Volume
volume = created_volume request info

abbrev created : World setup
created = (create_volume setup request fresh).1

create_volume-repeat_example :
    (u : Volume) × (create_volume setup request created ≡ (done u, created)) × SameVolume u volume
unfolding create_volume validate_volume_capabilities lookup requested_params apply_topology_params
    clone_params copy_into topology_value apply_aws_zone load find new_block_volume_provider
    requested_capacity
create_volume-repeat_example =
    create_volume-repeat setup (memory-IsLawful no_env) (memory-Writes no_env) request fresh created
      volume (apart _ _ refl) refl

abbrev expand_request : ControllerExpandVolumeRequest
expand_request = record { volume_id = "pvc-1"; required_bytes = pos 4294967296 }

abbrev rec : VolumeRecord
rec = record {
  volume_id = "pvc-1";
  provider = "aws";
  path = "/dev/pvc-1";
  capacity_bytes = pos 2147483648;
  params = some (("cloudProvider", "aws") ∷ []);
}

-- A world with the volume's record, and its disk.
abbrev stored : World setup
stored = record { files = ("/store/pvc-1.json", volume_record rec) ∷ []; cloud = info ∷ [] }

abbrev expanded : World setup
expanded = (controller_expand_volume setup expand_request stored).1

load-controller_expand_volume_example :
    load (memory no_env) "/store" "pvc-1" expanded.files
    ≡ ok (record rec { capacity_bytes = pos 4294967296 })
unfolding controller_expand_volume load_volume_record load find new_block_volume_provider lookup
    save write_manifest list_all read_records entries_of ext
load-controller_expand_volume_example =
    load-controller_expand_volume setup (memory-IsLawful no_env) expand_request stored expanded
      (pos 4294967296) rec (apart _ _ refl) refl refl refl

abbrev delete_request : DeleteVolumeRequest
delete_request = record { volume_id = "pvc-1"; secrets = none }

abbrev deleted : World setup
deleted = (delete_volume setup delete_request stored).1

load-delete_volume_example :
    (e : GoError) × (load (memory no_env) "/store" "pvc-1" deleted.files ≡ err e)
    × (e.is_not_exist ≡ true)
unfolding delete_volume load_volume_record load find new_block_volume_provider lookup
    delete_provider_params set clone_params copy_into
load-delete_volume_example =
    load-delete_volume setup (memory-IsLawful no_env) (memory-Removes no_env) delete_request stored
      deleted (apart _ _ refl) refl

validate_volume_capabilities_iff_example :
    (validate_volume_capabilities request.volume_capabilities ≡ none)
    ↔ AllAccepted request.volume_capabilities
validate_volume_capabilities_iff_example =
    validate_volume_capabilities_iff request.volume_capabilities
