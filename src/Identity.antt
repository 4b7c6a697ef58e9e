-- ===== src/Identity.antt =====
-- pkg/driver/driver.go and pkg/driver/identityserver.go: the configuration, the endpoint, and what
-- the plugin says of itself, with the capabilities that the controller and the node announce.
pub mod Laws
use caa_csi_block_driver.Prelude.{
  String, ◌<>◌, Option, none, some, List, [], ◌∷◌, ◌==◌, if◌then◌else◌, cut_prefix,
}
use caa_csi_block_driver.Result.{Result, ok, err, error, Code, unavailable, Reply, done, status}

pub record Config : Type 0 where
  pub endpoint : String
  pub driver_name : String
  pub vendor_version : String
  pub node_id : String

-- NewDriver; the driver that it makes has no server yet.
unfoldable pub new_driver : Config → Result Config
new_driver cfg =
    if cfg.driver_name == ""
    then err (error "driver name is required")
    else if cfg.vendor_version == ""
    then err (error "driver version is required")
    else if cfg.node_id == ""
    then err (error "node ID is required")
    else ok cfg

-- parseEndpoint
unfoldable pub parse_endpoint : String → Result (String × String)
parse_endpoint endpoint = elim (cut_prefix endpoint "unix://") [
  | some addr ↦ ok ("unix", addr)
  | none ↦ elim (cut_prefix endpoint "tcp://") [
    | some addr ↦ ok ("tcp", addr)
    | none ↦ err (error ("unsupported endpoint scheme: " <> endpoint))
  ]
]

-- identityServer
pub record IdentityServer : Type 0 where
  pub driver_name : String
  pub vendor_version : String

-- The identity server that Run registers.
abbrev pub identity_server : Config → IdentityServer
identity_server cfg = record { driver_name = cfg.driver_name; vendor_version = cfg.vendor_version }

-- GetPluginInfo: the name and the version
unfoldable pub get_plugin_info : IdentityServer → Reply (String × String)
get_plugin_info ids =
    if ids.driver_name == ""
    then status unavailable
    else if ids.vendor_version == ""
    then status unavailable
    else done (ids.driver_name, ids.vendor_version)

pub data PluginCapability : Type 0 where
  controller_service volume_accessibility_constraints online_expansion : PluginCapability

pub data ControllerCapability : Type 0 where
  create_delete_volume expand_volume create_delete_snapshot : ControllerCapability
  list_snapshots clone_volume : ControllerCapability

pub data NodeCapability : Type 0 where
  stage_unstage_volume node_expand_volume get_volume_stats : NodeCapability

-- GetPluginCapabilities
abbrev pub get_plugin_capabilities : List PluginCapability
get_plugin_capabilities =
    controller_service ∷ volume_accessibility_constraints ∷ online_expansion ∷ []

-- ControllerGetCapabilities
abbrev pub controller_get_capabilities : List ControllerCapability
controller_get_capabilities =
    create_delete_volume ∷ expand_volume ∷ create_delete_snapshot ∷ list_snapshots ∷ clone_volume
    ∷ []

-- NodeGetCapabilities
abbrev pub node_get_capabilities : List NodeCapability
node_get_capabilities = stage_unstage_volume ∷ node_expand_volume ∷ get_volume_stats ∷ []
