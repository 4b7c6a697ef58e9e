-- ===== src/Topology.antt =====
-- pkg/driver/topology.go: where a volume is to be created, and from where it can be reached. A
-- `Topology` is its segments; a nil one is `none`.
pub mod Laws
use caa_csi_block_driver.Prelude.{
  String, not, ◌&&◌, ◌||◌, Option, none, some, List, [], ◌∷◌, ◌==◌, if◌then◌else◌,
}
use caa_csi_block_driver.GoMap.{Params, get, set, copy_into, entries}

abbrev pub topology_zone_key : String
topology_zone_key = "topology.caa-csi.io/zone"

abbrev pub topology_region_key : String
topology_region_key = "topology.caa-csi.io/region"

abbrev pub topology_zone_keys : List String
topology_zone_keys =
    topology_zone_key ∷ "topology.kubernetes.io/zone" ∷ "failure-domain.beta.kubernetes.io/zone"
    ∷ "ibm-cloud.kubernetes.io/zone" ∷ []

abbrev pub topology_region_keys : List String
topology_region_keys =
    topology_region_key ∷ "topology.kubernetes.io/region"
    ∷ "failure-domain.beta.kubernetes.io/region" ∷ "ibm-cloud.kubernetes.io/region" ∷ []

abbrev pub ignored_topology_zone : String
ignored_topology_zone = "default"

pub record TopologyRequirement : Type 0 where
  pub requisite : List (Option Params)
  pub preferred : List (Option Params)

-- cloneParams: a new map, also of a nil one
unfoldable pub clone_params : Option Params → Params
clone_params source = copy_into [] (entries source)

-- The inner loop of firstSegment: the first key with a value.
unfoldable pub first_value : Params → List String → String
first_value segs [] = ""
first_value segs (key ∷ keys) = if get segs key == "" then first_value segs keys else get segs key

unfoldable pub first_segment : List (Option Params) → List String → String
unfolding first_value
first_segment [] keys = ""
first_segment (none ∷ topos) keys = first_segment topos keys
first_segment (some segs ∷ topos) keys =
    if first_value segs keys == "" then first_segment topos keys else first_value segs keys

unfoldable pub topology_value : Option TopologyRequirement → List String → String
unfolding first_segment
topology_value none keys = ""
topology_value (some req) keys =
    if first_segment req.preferred keys == ""
    then first_segment req.requisite keys
    else first_segment req.preferred keys

unfoldable pub apply_aws_zone : Params → String → Params
apply_aws_zone params zone =
    if get params "awsAvailabilityZone" == "" then set params "awsAvailabilityZone" zone else params

unfoldable pub apply_ibm_zone : Params → String → Params
apply_ibm_zone params zone =
    if get params "zone" == "" && get params "ibmZone" == "" then set params "zone" zone else params

unfoldable pub apply_ibm_region : Params → String → Params
apply_ibm_region params region =
    if get params "region" == "" && get params "ibmRegion" == "" && not (region == "")
    then set params "region" region
    else params

-- applyTopologyParams: the parameters after it
unfoldable pub apply_topology_params : Params → Option TopologyRequirement → Params
apply_topology_params params req =
    let provider = get params "cloudProvider" in
    let zone = topology_value req topology_zone_keys in
    if not (provider == "aws") && not (provider == "ibmcloud")
    then params
    else if zone == "" || zone == ignored_topology_zone
    then params
    else if provider == "aws"
    then apply_aws_zone params zone
    else apply_ibm_region (apply_ibm_zone params zone) (topology_value req topology_region_keys)

either : String → String → String
either v next = if v == "" then next else v

-- The zone and the region of accessibleTopology.
pub accessible_zone : Params → String
unfolding either
accessible_zone params =
    if not (get params "awsAvailabilityZone" == "")
    then get params "awsAvailabilityZone"
    else if get params "cloudProvider" == "ibmcloud"
    then either (get params "zone") (get params "ibmZone")
    else ""

pub accessible_region : Params → String
unfolding either
accessible_region params =
    if not (get params "awsAvailabilityZone" == "")
    then get params "awsRegion"
    else if get params "cloudProvider" == "ibmcloud"
    then either (get params "region") (get params "ibmRegion")
    else ""

-- The segments of a zone and of a region that may be missing.
unfoldable pub segments_of : String → String → Params
segments_of zone region =
    let segments : Params = (topology_zone_key, zone) ∷ [] in
    if region == "" then segments else set segments topology_region_key region

-- accessibleTopology: no topology, or the one that it returns
unfoldable pub accessible_topology : Option Params → List Params
unfolding accessible_zone accessible_region segments_of
accessible_topology params =
    let m = entries params in
    if accessible_zone m == ""
    then []
    else segments_of (accessible_zone m) (accessible_region m) ∷ []
