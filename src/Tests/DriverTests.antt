-- ===== src/Tests/DriverTests.antt =====
-- The start of the driver and the way of a zone, at concrete inputs.
use text.Mathlib.TextLemmas.{cons-append}
use caa_csi_block_driver.Store.Recovery.{recover_volumes, recover_listed, recover_from_cloud}
use caa_csi_block_driver.Provider.{new_block_volume_provider}
use caa_csi_block_driver.Node.Labels.{first_non_empty_label}
use caa_csi_block_driver.GoMap.{lookup, Params, get}
use caa_csi_block_driver.Prelude.{
  ext, cut_prefix, ℕ, String, ◌<>◌, ◌≡◌, ◌≢◌, refl, sym, ap, ◌∙◌, pos, none, some, [], ◌∷◌, arith,
}
use caa_csi_block_driver.Tests.Files.{
  without, find, apart, entries_of, volume_record, memory-IsLawful, find-without_ne,
}
use caa_csi_block_driver.Node.Info.{resolve_node_topology, node_get_info}
use caa_csi_block_driver.Store.{read_records, first_usable, any_params, bootstrap_params, load}
use caa_csi_block_driver.Result.{ok, done}
use caa_csi_block_driver.Platform.{VolumeRecord}
use caa_csi_block_driver.Topology.{
  segments_of, topology_zone_key, ignored_topology_zone, accessible_topology, apply_topology_params,
}
use caa_csi_block_driver.Topology.Laws.{aws}
use caa_csi_block_driver.Node.{kata_root}
use caa_csi_block_driver.Node.Cleanup.{new_node_server}
use caa_csi_block_driver.Node.Info.Zone.{accessible_topology-node_get_info}
use caa_csi_block_driver.Identity.{parse_endpoint, identity_server, get_plugin_info}
use caa_csi_block_driver.Driver.{DriverSetup, DriverWorld, Services, run}
use caa_csi_block_driver.Driver.Restart.{SparesFile, load-run}
use caa_csi_block_driver.Driver.Main.{default_flags, main, serving, version, main_config}
use caa_csi_block_driver.Driver.Main.Serving.{IsNodeId, main-serving}
use caa_csi_block_driver.Tests.Cloud.{machine, booted, in_cluster}
use caa_csi_block_driver.Tests.NodeTests.{AreElements-entries_of, head_code}

abbrev params : Params
params = ("cloudProvider", "aws") ∷ []

abbrev topology : Params
topology = segments_of "zone-1" ""

zone_real : get topology topology_zone_key ≢ ignored_topology_zone
unfolding segments_of lookup
zone_real = apart "zone-1" "default" refl

-- The node's labels have the zone "zone-1".
accessible_topology-node_get_info_example :
    (region : String) × (accessible_topology (
        some (
          apply_topology_params params
            (some (record { requisite = []; preferred = some topology ∷ [] }))))
      ≡ segments_of (get topology topology_zone_key) region ∷ [])
unfolding node_get_info resolve_node_topology find first_non_empty_label lookup
accessible_topology-node_get_info_example =
    accessible_topology-node_get_info machine "node-1" booted topology params [] [] refl refl
      (aws refl refl) zone_real

-- A driver whose volume store is a relative directory.
abbrev driver : DriverSetup
driver = record {
  node = machine;
  dir = "store";
  Listener = Unit;
  listen = λ scheme addr vs. (ok tt, vs);
}

abbrev stored_record : VolumeRecord
stored_record = record {
  volume_id = "pvc-1";
  provider = "aws";
  path = "vol-1";
  capacity_bytes = pos 1;
  params = some params;
}

abbrev restarted : DriverWorld driver
restarted = record { files = ("store/pvc-1.json", volume_record stored_record) ∷ []; cloud = [] }

-- A path below the root starts with a slash, and the store does not.
path-not_stored :
    (name : String)
    → ("/run/kata-containers/shared/direct-volumes" <> ("/" <> name)) <> "/mountInfo.json"
      ≢ "store/pvc-1.json"
unfolding head_code
path-not_stored name h =
    let rest : String = "run/kata-containers/shared/direct-volumes" in
    let e =
      ap (λ (s : String). s <> "/mountInfo.json") (cons-append "/" rest ("/" <> name))
      ∙ cons-append "/" (rest <> ("/" <> name)) "/mountInfo.json" in
    let codes : ◌≡◌ {A = ℕ} 47 115 = ap head_code (sym e ∙ h) in absurd (omega arith)

spares_stored : SparesFile machine "store/pvc-1.json"
unfolding kata_root
spares_stored = record {
  listed = λ f es h.
      (let e : entries_of (kata_root machine) f ≡ es = cc in
        rw (← e) (AreElements-entries_of (kata_root machine) f));
  read-remove_all = λ f name plain. find-without_ne _ _ f (path-not_stored name);
}

-- The socket is not the record.
socket_apart :
    (scheme addr : String)
    → parse_endpoint default_flags.endpoint ≡ ok (scheme, addr)
    → addr ≢ "store/pvc-1.json"
unfolding parse_endpoint cut_prefix
socket_apart scheme addr h e =
    let same : "/csi/csi.sock" ≡ addr = ground arith in
    apart "/csi/csi.sock" "store/pvc-1.json" refl (same ∙ e)

load-run_example :
    load machine.platform "store" "pvc-1"
      (run driver (main_config default_flags "node-1") restarted).1.files
    ≡ ok stored_record
unfolding load find
load-run_example =
    load-run driver (memory-IsLawful in_cluster) "pvc-1" stored_record (apart _ _ refl)
      spares_stored (main_config default_flags "node-1") restarted socket_apart refl

abbrev services : Services driver
services = record {
  listener = tt;
  identity = identity_server (main_config default_flags "host-1");
  node_id = "host-1";
  node = new_node_server machine restarted.files [];
}

served :
    main driver default_flags (ok "host-1") restarted
    ≡ (serving services, record { files = services.node.files; cloud = [] })
unfolding main cut_prefix bootstrap_params any_params first_usable read_records entries_of without
    ext find lookup recover_from_cloud new_block_volume_provider recover_listed recover_volumes
served = refl

main-serving_example :
    IsNodeId "" "" (ok "host-1") services.node_id
    × (services.node_id ≢ "")
    × (get_plugin_info services.identity ≡ done (default_flags.driver_name, version))
    × (services.node.devices ≡ [])
    × (services.node.topo ≡ none)
main-serving_example =
    main-serving driver default_flags (ok "host-1") restarted
      (record { files = services.node.files; cloud = [] }) services served
