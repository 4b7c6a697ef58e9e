-- ===== src/Node/Info/Zone.antt =====
-- The way of a zone from NodeGetInfo in pkg/driver/nodeserver.go through the CO to CreateVolume's
-- topology in pkg/driver/topology.go.
use caa_csi_block_driver.Prelude.{
  String, ◌≡◌, ◌≢◌, inl, inr, Option, none, some, List, [], ◌∷◌, arith, Bool-cases, ◌&&◌, ◌∙◌, ◌==◌,
  eq_iff, ne→==,
}
use caa_csi_block_driver.GoMap.{Params, lookup, get, set}
use caa_csi_block_driver.Result.{Result-cases, done}
use caa_csi_block_driver.Topology.{
  TopologyRequirement, topology_zone_key, topology_zone_keys, ignored_topology_zone, topology_value,
  first_segment, first_value, segments_of, apply_topology_params, accessible_zone,
  accessible_region, accessible_topology,
}
use caa_csi_block_driver.Topology.Laws.{LacksZone, accessible_zone-LacksZone}
use caa_csi_block_driver.Node.{NodeSetup, NodeState}
use caa_csi_block_driver.Node.Labels.{lookup_node_labels}
use caa_csi_block_driver.Node.Info.{
  node_topology, topology_of_labels, resolve_node_topology, resolve_and_commit, commit_topology,
  node_get_info,
}

-- Topology segments with a zone.
abbrev HasZone : Option Params → Type 0
HasZone none = Unit
HasZone (some topo) = get topo topology_zone_key ≢ ""

zone_of-segments : (zone region : String) → get (segments_of zone region) topology_zone_key ≡ zone
unfolding segments_of lookup set
zone_of-segments zone region = ground arith

node_topology-HasZone : (region zone : String) → HasZone (node_topology region zone)
unfolding node_topology
node_topology-HasZone region zone = elim (Bool-cases (zone == "")) [
  | inl empty ↦ rw (empty, node_topology) tt
  | inr set ↦
      rw (set, node_topology) (λ e. ground (arith, zone_of-segments zone region, eq_iff zone ""))
]

-- The zone of a requirement whose first preferred segments have the driver's key.
zone_of-preferred :
    (topo : Params) (requisite rest : List (Option Params))
    → get topo topology_zone_key ≢ ""
    → topology_value
        (some (record { requisite = requisite; preferred = some topo ∷ rest }))
        topology_zone_keys
      ≡ get topo topology_zone_key
unfolding topology_value first_segment first_value
zone_of-preferred topo requisite rest there =
    let set = ne→== (get topo topology_zone_key) "" there in ground arith

module _ (S : NodeSetup) where
  HasZone-resolved :
      (files : S.platform.Files) (node_id : String) (cloud : S.Cloud)
      → HasZone (resolve_node_topology S files node_id cloud).0
  unfolding resolve_node_topology topology_of_labels
  HasZone-resolved files node_id cloud =
      let region = S.platform.getenv "CSI_TOPOLOGY_REGION" in
      let zone = S.platform.getenv "CSI_TOPOLOGY_ZONE" in
      let from_env = node_topology-HasZone region zone in
      elim (Bool-cases (region == "" && zone == "")) [
        | inr set ↦ rw (set, resolve_node_topology) from_env
        | inl unset ↦ elim (Result-cases (lookup_node_labels S files node_id cloud).0) [
          | inl ((r, z), e) ↦ rw (unset, e, resolve_node_topology) (node_topology-HasZone r z)
          | inr (e, bad) ↦ rw (unset, bad, resolve_node_topology) tt
        ]
      ]

  HasZone-committed :
      (resolved : Option Params) (w : NodeState S) (topo : Params)
      → HasZone resolved
      → w.topo ≡ none
      → (commit_topology S resolved w).0 ≡ done topo
      → get topo topology_zone_key ≢ ""
  unfolding commit_topology
  HasZone-committed none w topo zone unknown h = absurd (ground arith)
  HasZone-committed (some t) w topo zone unknown h =
      let same : t ≡ topo = ground arith in rw (← same) zone

  -- On a node server that has not kept a topology yet, NodeGetInfo reports only topologies with a zone.
  pub node_get_info-zone :
      (node_id : String) (w : NodeState S) (topo : Params)
      → w.topo ≡ none
      → (node_get_info S node_id w).0 ≡ done topo
      → get topo topology_zone_key ≢ ""
  unfolding node_get_info resolve_and_commit
  node_get_info-zone node_id w topo unknown h =
      let (resolved, cloud) = resolve_node_topology S w.files node_id w.cloud in
      HasZone-committed resolved (record w { cloud = cloud }) topo
        (HasZone-resolved w.files node_id w.cloud) unknown (rw (unknown, node_get_info) at h)

  -- The zone that a node server reports in its first answered NodeGetInfo goes all the way to the
  -- volume: where these segments come first among the preferred ones of a CreateVolume, for AWS or IBM
  -- Cloud, with no zone in the storage class, and the zone is not "default", the volume's parameters
  -- get that zone, and CreateVolume's topology for them is that zone, with some region.
  pub accessible_topology-node_get_info :
      (node_id : String) (w : NodeState S) (topo params : Params)
      (requisite rest : List (Option Params))
      → w.topo ≡ none
      → (node_get_info S node_id w).0 ≡ done topo
      → LacksZone params
      → get topo topology_zone_key ≢ ignored_topology_zone
      → (region : String) × (accessible_topology (
            some (
              apply_topology_params params
                (some (record { requisite = requisite; preferred = some topo ∷ rest }))))
          ≡ segments_of (get topo topology_zone_key) region ∷ [])
  unfolding accessible_topology
  accessible_topology-node_get_info node_id w topo params requisite rest unknown h lacks real =
      let zone = node_get_info-zone node_id w topo unknown h in
      let req : TopologyRequirement = record {
        requisite = requisite;
        preferred = some topo ∷ rest;
      } in
      let e = zone_of-preferred topo requisite rest zone in
      let m = apply_topology_params params (some req) in
      let kept : accessible_zone m ≡ get topo topology_zone_key =
        accessible_zone-LacksZone params (some req) lacks (rw e zone) (rw e real) ∙ e in
      (accessible_region m, ground (arith, eq_iff (get topo topology_zone_key) ""))
