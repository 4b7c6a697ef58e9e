-- ===== src/Driver.antt =====
-- Driver.Run of pkg/driver/driver.go: how the services are started on the node's files and the cloud.
-- The network and google.golang.org/grpc are a parameter; the call of Serve, which handles calls until
-- the server is stopped, is where the model ends.
pub mod Restart
pub mod Main
use caa_csi_block_driver.Prelude.{String, ◌<>◌, ◌==◌, if◌then◌else◌}
use caa_csi_block_driver.Result.{Result, ok, err, wrap}
use caa_csi_block_driver.Provider.{Call}
use caa_csi_block_driver.Server.{Setup, World}
use caa_csi_block_driver.Controller.{new_controller_server}
use caa_csi_block_driver.Node.{NodeSetup, NodeState}
use caa_csi_block_driver.Node.Cleanup.{new_node_server}
use caa_csi_block_driver.Identity.{Config, IdentityServer, identity_server, parse_endpoint}

-- What Run calls beyond the packages of the node server: net.Listen. The volume store's directory and
-- the node server's packages are those of the services.
pub record DriverSetup : Type 1 where
  pub node : NodeSetup
  pub dir : String
  pub Listener : Type 0
  pub listen : String → String → Call node.Cloud Listener

-- The controller's part of the setup: the same files, the same cloud and the same providers.
abbrev pub controller_setup : DriverSetup → Setup
controller_setup S = record {
  platform = S.node.platform;
  dir = S.dir;
  Cloud = S.node.Cloud;
  registry = S.node.registry;
}

abbrev pub DriverWorld : DriverSetup → Type 0
DriverWorld S = World (controller_setup S)

-- The services that are registered with the server, which is about to serve a listener. The
-- controller server has no state but the files.
pub record Services (S : DriverSetup) : Type 0 where
  pub listener : S.Listener
  pub identity : IdentityServer
  pub node_id : String
  pub node : NodeState S.node

module _ (S : DriverSetup) where
  -- A socket that an earlier run has left is removed; an error is ignored.
  unfoldable pub remove_socket : String → String → DriverWorld S → DriverWorld S
  remove_socket scheme addr w =
      if scheme == "unix" then record w { files = (S.node.platform.remove w.files addr).1 } else w

  -- newControllerServer and then newNodeServer
  unfoldable pub start_services :
      Config → S.Listener → DriverWorld S → Result (Services S) × DriverWorld S
  unfolding new_controller_server new_node_server
  start_services cfg listener w =
      let w' = new_controller_server (controller_setup S) w in
      let node = new_node_server S.node w'.files w'.cloud in
      let services : Services S = record {
        listener = listener;
        identity = identity_server cfg;
        node_id = cfg.node_id;
        node = node;
      } in
      (ok services, record { files = node.files; cloud = node.cloud })

  unfoldable pub with_listener :
      Config → String → Result S.Listener → DriverWorld S → Result (Services S) × DriverWorld S
  unfolding start_services
  with_listener cfg url (err e) w = (err (wrap ("failed to listen on " <> url) e), w)
  with_listener cfg url (ok listener) w = start_services cfg listener w

  unfoldable pub run_at :
      Config → String → String → DriverWorld S → Result (Services S) × DriverWorld S
  unfolding remove_socket with_listener
  run_at cfg scheme addr w =
      let w' = remove_socket scheme addr w in
      let (r, cloud) = S.listen scheme addr w'.cloud in
      with_listener cfg (scheme <> "://" <> addr) r (record w' { cloud = cloud })

  -- Run
  unfoldable pub run : Config → DriverWorld S → Result (Services S) × DriverWorld S
  unfolding parse_endpoint run_at
  run cfg w = elim (parse_endpoint cfg.endpoint) [
    | err e ↦ (err e, w)
    | ok (scheme, addr) ↦ run_at cfg scheme addr w
  ]
