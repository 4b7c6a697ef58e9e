-- ===== src/Node/Info.antt =====
-- NodeGetInfo of pkg/driver/nodeserver.go and pkg/driver/topology_node.go: the node's topology, from
-- the environment or the node's labels, kept once it is known.
pub mod Zone
use caa_csi_block_driver.Prelude.{
  String, ◌&&◌, Option, none, some, List, [], ◌∷◌, ◌==◌, if◌then◌else◌,
}
use caa_csi_block_driver.GoMap.{Params, get, entries}
use caa_csi_block_driver.Result.{Result, ok, err, unavailable, done, status}
use caa_csi_block_driver.Topology.{segments_of}
use caa_csi_block_driver.Node.{NodeSetup, NodeHandler}
use caa_csi_block_driver.Node.Labels.{lookup_node_labels}

-- The topology of a region and a zone.
unfoldable pub node_topology : String → String → Option Params
node_topology region zone = if zone == "" then none else some (segments_of zone region)

module _ (S : NodeSetup) where
  -- The topology of what the lookup of the node's labels gave; none if it failed.
  topology_of_labels : Result (String × String) → Option Params
  unfolding node_topology
  topology_of_labels (err _) = none
  topology_of_labels (ok (region, zone)) = node_topology region zone

  unfoldable pub resolve_node_topology :
      S.platform.Files → String → S.Cloud → Option Params × S.Cloud
  unfolding topology_of_labels lookup_node_labels
  resolve_node_topology files node_id cloud =
      let region = S.platform.getenv "CSI_TOPOLOGY_REGION" in
      let zone = S.platform.getenv "CSI_TOPOLOGY_ZONE" in
      let (labels, cloud') = lookup_node_labels S files node_id cloud in
      if region == "" && zone == ""
      then (topology_of_labels labels, cloud')
      else (node_topology region zone, cloud)

  -- What a call that found no cached topology does once it has resolved one, under the mutex: the
  -- first resolved topology is kept, and every call answers with the one that is kept.
  unfoldable pub commit_topology : Option Params → NodeHandler S Params
  commit_topology none w = (status unavailable, w)
  commit_topology (some topo) w = elim w.topo [
    | none ↦ (done topo, record w { topo = some topo })
    | some first ↦ (done first, w)
  ]

  resolve_and_commit : String → NodeHandler S Params
  unfolding commit_topology
  resolve_and_commit node_id w =
      let (resolved, cloud) = resolve_node_topology w.files node_id w.cloud in
      commit_topology resolved (record w { cloud = cloud })

  unfoldable pub node_get_info : String → NodeHandler S Params
  unfolding resolve_and_commit
  node_get_info node_id w = elim w.topo [
    | some topo ↦ (done topo, w)
    | none ↦ resolve_and_commit node_id w
  ]
