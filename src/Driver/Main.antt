-- ===== src/Driver/Main.antt =====
-- main of cmd/main.go: the node's ID from the flag, the environment or the host, and then the driver.
-- The flags, the host's name and the registry, which the imported providers fill, are arguments; the
-- goroutine that stops the server on a signal is left out.
pub mod Serving
use caa_csi_block_driver.Prelude.{String, not, Option, none, some, ◌==◌, if◌then◌else◌}
use caa_csi_block_driver.Result.{Result, ok, err}
use caa_csi_block_driver.Identity.{Config, new_driver}
use caa_csi_block_driver.Driver.{DriverSetup, DriverWorld, Services, run}

pub record Flags : Type 0 where
  pub driver_name : String
  pub endpoint : String
  pub node_id : String

abbrev pub default_flags : Flags
default_flags = record {
  driver_name = "caa-csi-block.csi.confidentialcontainers.io";
  endpoint = "unix:///csi/csi.sock";
  node_id = "";
}

abbrev pub version : String
version = "0.2.0"

-- How main ends, or that it serves.
pub data Outcome (S : DriverSetup) : Type 0 where
  fatal : String → Outcome S
  serving : Services S → Outcome S

-- os.Hostname's answer, if it can be used.
hostname_or_none : Result String → Option String
hostname_or_none (err e) = none
hostname_or_none (ok hostname) = if hostname == "" then none else some hostname

-- The flag, the variable or the host's name.
unfoldable pub main_node_id : String → String → Result String → Option String
unfolding hostname_or_none
main_node_id flag variable hostname =
    if not (flag == "")
    then some flag
    else if not (variable == "")
    then some variable
    else hostname_or_none hostname

abbrev pub main_config : Flags → String → Config
main_config flags node_id = record {
  endpoint = flags.endpoint;
  driver_name = flags.driver_name;
  vendor_version = version;
  node_id = node_id;
}

module _ (S : DriverSetup) where
  outcome_of : Result (Services S) × DriverWorld S → Outcome S × DriverWorld S
  outcome_of (err e, w) = (fatal "Driver failed", w)
  outcome_of (ok services, w) = (serving services, w)

  run_new : Result Config → DriverWorld S → Outcome S × DriverWorld S
  unfolding outcome_of run
  run_new (err e) w = (fatal "Failed to create driver", w)
  run_new (ok cfg) w = outcome_of (run S cfg w)

  unfoldable pub main : Flags → Result String → DriverWorld S → Outcome S × DriverWorld S
  unfolding main_node_id new_driver run_new
  main flags hostname w =
      elim (main_node_id flags.node_id (S.node.platform.getenv "KUBE_NODE_NAME") hostname) [
        | none ↦ (fatal "Node ID is required", w)
        | some node_id ↦ run_new (new_driver (main_config flags node_id)) w
      ]
