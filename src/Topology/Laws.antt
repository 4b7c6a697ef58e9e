-- ===== src/Topology/Laws.antt =====
-- What the topology may change in the parameters of a volume.
use caa_csi_block_driver.Prelude.{String, ◌≡◌, ◌≢◌, refl, true, false, ◌==◌, Option, arith, eq_iff}
use caa_csi_block_driver.GoMap.{Params, get, set, lookup-set}
use caa_csi_block_driver.Topology.{
  TopologyRequirement, apply_topology_params, topology_value, topology_zone_keys,
  topology_region_keys, ignored_topology_zone, apply_aws_zone, apply_ibm_zone, apply_ibm_region,
  accessible_zone,
}

set_if_empty-keeps :
    (params : Params) (j v k : String)
    → get params j ≡ ""
    → get params k ≢ ""
    → get (set params j v) k ≡ get params k
set_if_empty-keeps params j v k empty there = ground (arith, lookup-set params j v k, eq_iff j k)

apply_aws_zone-keeps :
    (params : Params) (zone k : String)
    → get params k ≢ ""
    → get (apply_aws_zone params zone) k ≡ get params k
unfolding apply_aws_zone
apply_aws_zone-keeps params zone k there = ground (
  arith,
  eq_iff (get params "awsAvailabilityZone") "",
  set_if_empty-keeps params "awsAvailabilityZone" zone k,
)

apply_ibm_zone-keeps :
    (params : Params) (zone k : String)
    → get params k ≢ ""
    → get (apply_ibm_zone params zone) k ≡ get params k
unfolding apply_ibm_zone
apply_ibm_zone-keeps params zone k there =
    ground (arith, eq_iff (get params "zone") "", set_if_empty-keeps params "zone" zone k)

apply_ibm_region-keeps :
    (params : Params) (region k : String)
    → get params k ≢ ""
    → get (apply_ibm_region params region) k ≡ get params k
unfolding apply_ibm_region
apply_ibm_region-keeps params region k there =
    ground (arith, eq_iff (get params "region") "", set_if_empty-keeps params "region" region k)

-- What the storage class sets is kept: the topology changes no parameter that has a value.
apply_topology_params-keeps :
    (params : Params) (req : Option TopologyRequirement) (k : String)
    → get params k ≢ ""
    → get (apply_topology_params params req) k ≡ get params k
unfolding apply_topology_params
apply_topology_params-keeps params req k there =
    let zone = topology_value req topology_zone_keys in
    let region = topology_value req topology_region_keys in
    ground (
      arith,
      apply_aws_zone-keeps params zone k there,
      apply_ibm_zone-keeps params zone k there,
      apply_ibm_region-keeps (apply_ibm_zone params zone) region k,
    )

-- On AWS, a volume with no zone of its own is put into the zone of the topology, if that has one and
-- it is not "default", and is then said to be accessible from there.
accessible_zone-apply_topology_params :
    (params : Params) (req : Option TopologyRequirement)
    → get params "cloudProvider" ≡ "aws"
    → get params "awsAvailabilityZone" ≡ ""
    → topology_value req topology_zone_keys ≢ ""
    → topology_value req topology_zone_keys ≢ ignored_topology_zone
    → accessible_zone (apply_topology_params params req) ≡ topology_value req topology_zone_keys
unfolding apply_topology_params apply_aws_zone accessible_zone
accessible_zone-apply_topology_params params req aws unset zone real =
    let z = topology_value req topology_zone_keys in
    ground (
      arith,
      eq_iff (get params "cloudProvider") "aws",
      eq_iff (get params "awsAvailabilityZone") "",
      eq_iff z "",
      eq_iff z ignored_topology_zone,
      lookup-set params "awsAvailabilityZone" z "awsAvailabilityZone",
    )

-- Parameters of a provider that takes a zone from the topology, and have none of their own.
pub data LacksZone (params : Params) : Type 0 where
  aws :
      get params "cloudProvider" ≡ "aws" → get params "awsAvailabilityZone" ≡ "" → LacksZone params
  ibmcloud :
      get params "cloudProvider" ≡ "ibmcloud"
      → get params "awsAvailabilityZone" ≡ ""
      → get params "zone" ≡ ""
      → get params "ibmZone" ≡ ""
      → LacksZone params

-- On IBM Cloud, the zone that is applied is the one that the volume is said to be accessible from.
applied_ibm_zone :
    (params : Params) (zone region : String)
    → get params "cloudProvider" ≡ "ibmcloud"
    → get params "awsAvailabilityZone" ≡ ""
    → get params "zone" ≡ ""
    → get params "ibmZone" ≡ ""
    → zone ≢ ""
    → accessible_zone (apply_ibm_region (apply_ibm_zone params zone) region) ≡ zone
unfolding accessible_zone apply_ibm_zone apply_ibm_region
applied_ibm_zone params zone region ibm free unset ibm_unset there =
    let m = set params "zone" zone in
    ground (
      arith,
      eq_iff zone "",
      eq_iff (get params "cloudProvider") "ibmcloud",
      eq_iff (get params "zone") "",
      eq_iff (get params "ibmZone") "",
      eq_iff (get params "awsAvailabilityZone") "",
      lookup-set params "zone" zone "zone",
      lookup-set params "zone" zone "cloudProvider",
      lookup-set params "zone" zone "awsAvailabilityZone",
      lookup-set m "region" region "zone",
      lookup-set m "region" region "cloudProvider",
      lookup-set m "region" region "awsAvailabilityZone",
    )

-- A volume with no zone of its own is put into the zone of the topology, if that has one and it is not
-- "default", and is then said to be accessible from there.
pub accessible_zone-LacksZone :
    (params : Params) (req : Option TopologyRequirement)
    → LacksZone params
    → topology_value req topology_zone_keys ≢ ""
    → topology_value req topology_zone_keys ≢ ignored_topology_zone
    → accessible_zone (apply_topology_params params req) ≡ topology_value req topology_zone_keys
unfolding apply_topology_params
accessible_zone-LacksZone params req (aws provider free) there real =
    accessible_zone-apply_topology_params params req provider free there real
accessible_zone-LacksZone params req (ibmcloud provider free unset ibm_unset) there real =
    let z = topology_value req topology_zone_keys in
    let applied =
      applied_ibm_zone params z (topology_value req topology_region_keys) provider free unset
        ibm_unset there in
    let no_aws : (get params "cloudProvider" == "aws") ≡ false = rw provider refl in
    let is_ibm : (get params "cloudProvider" == "ibmcloud") ≡ true = rw provider refl in
    ground (arith, eq_iff z "", eq_iff z ignored_topology_zone)
