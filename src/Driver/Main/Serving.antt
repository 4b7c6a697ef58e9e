-- ===== src/Driver/Main/Serving.antt =====
-- What main of cmd/main.go serves.
use caa_csi_block_driver.Prelude.{
  String, ◌<>◌, ◌≡◌, ◌≢◌, ◌==◌, Bool-cases, inl, inr, ◌⊎◌, none, some, [], arith, Option-cases,
  eq_iff,
}
use caa_csi_block_driver.Result.{Result, ok, err, Result-cases, done}
use caa_csi_block_driver.Identity.{
  Config, new_driver, parse_endpoint, identity_server, get_plugin_info,
}
use caa_csi_block_driver.Identity.Laws.{get_plugin_info-new_driver}
use caa_csi_block_driver.Node.Cleanup.{new_node_server}
use caa_csi_block_driver.Driver.{
  DriverSetup, DriverWorld, Services, remove_socket, start_services, with_listener, run_at, run,
}
use caa_csi_block_driver.Driver.Main.{
  Flags, serving, version, main_node_id, main_config, outcome_of, run_new, main,
}

-- The flag, or the variable if the flag is empty, or the host's name if both are.
abbrev pub IsNodeId : String → String → Result String → String → Type 0
IsNodeId flag variable hostname node_id =
    ((flag ≢ "") × (node_id ≡ flag))
    ⊎ ((flag ≡ "") × (variable ≢ "") × (node_id ≡ variable))
    ⊎ ((flag ≡ "") × (variable ≡ "") × (hostname ≡ ok node_id))

IsNodeId-main_node_id :
    (flag variable : String) (hostname : Result String) (node_id : String)
    → main_node_id flag variable hostname ≡ some node_id
    → IsNodeId flag variable hostname node_id
unfolding main_node_id
IsNodeId-main_node_id flag variable hostname node_id h =
    let flag_iff = eq_iff flag "" in
    let variable_iff = eq_iff variable "" in
    elim (Bool-cases (flag == "")) [
      | inr set ↦ inl (λ e. ground (arith, flag_iff), ground arith)
      | inl no_flag ↦ elim (Bool-cases (variable == "")) [
        | inr set ↦
            inr (inl (ground (arith, flag_iff), λ e. ground (arith, variable_iff), ground arith))
        | inl unset ↦ elim (Result-cases hostname) [
          | inl (name, known) ↦
              inr (inr (ground (arith, flag_iff), ground (arith, variable_iff), ground arith))
          | inr (e, unknown) ↦ absurd (ground arith)
        ]
      ]
    ]

module _ (S : DriverSetup) where
  -- The services of a configuration, with a node server that has just started.
  record AreServices (cfg : Config) (s : Services S) : Type 0 where
    identity_of : s.identity ≡ identity_server cfg
    node_id_of : s.node_id ≡ cfg.node_id
    no_devices : s.node.devices ≡ []
    no_topology : s.node.topo ≡ none

  AreServices-with_listener :
      (cfg : Config) (url : String) (r : Result S.Listener) (w w' : DriverWorld S) (s : Services S)
      → with_listener S cfg url r w ≡ (ok s, w')
      → AreServices cfg s
  unfolding with_listener start_services new_node_server
  AreServices-with_listener cfg url (err e) w w' s h = absurd (ground arith)
  AreServices-with_listener cfg url (ok listener) w w' s h = record {
    identity_of = ground arith;
    node_id_of = ground arith;
    no_devices = ground arith;
    no_topology = ground arith;
  }

  AreServices-run :
      (cfg : Config) (w w' : DriverWorld S) (s : Services S)
      → run S cfg w ≡ (ok s, w')
      → AreServices cfg s
  unfolding run run_at
  AreServices-run cfg w w' s h = elim (Result-cases (parse_endpoint cfg.endpoint)) [
    | inr (e, bad) ↦ absurd (ground arith)
    | inl ((scheme, addr), good) ↦
        let u = remove_socket S scheme addr w in
        let (r, cloud) = S.listen scheme addr u.cloud in
        AreServices-with_listener cfg (scheme <> "://" <> addr) r (record u { cloud = cloud }) w' s
          (rw (good, run) at h)
  ]

  AreServices-outcome_of :
      (cfg : Config) (w w' : DriverWorld S) (s : Services S)
      → outcome_of S (run S cfg w) ≡ (serving s, w')
      → AreServices cfg s
  unfolding outcome_of
  AreServices-outcome_of cfg w w' s h = elim (Result-cases (run S cfg w).0) [
    | inr (e, bad) ↦ absurd (ground arith)
    | inl (t, good) ↦ AreServices-run cfg w w' s (ground arith)
  ]

  new_driver_lem : (cfg d : Config) → new_driver cfg ≡ ok d → (d ≡ cfg) × (cfg.node_id ≢ "")
  unfolding new_driver
  new_driver_lem cfg d h = (ground arith, λ e. ground (arith, eq_iff cfg.node_id ""))

  -- A main that serves has an ID of its node that is not empty: the flag, or the variable
  -- KUBE_NODE_NAME where the flag is empty, or the host's name where both are. It tells the name of the flags and the version when it is asked for the
  -- plugin, and has a node server with no devices and no topology.
  pub main-serving :
      (flags : Flags) (hostname : Result String) (w w' : DriverWorld S) (s : Services S)
      → main S flags hostname w ≡ (serving s, w')
      → IsNodeId flags.node_id (S.node.platform.getenv "KUBE_NODE_NAME") hostname s.node_id
        × (s.node_id ≢ "")
        × (get_plugin_info s.identity ≡ done (flags.driver_name, version))
        × (s.node.devices ≡ [])
        × (s.node.topo ≡ none)
  unfolding main run_new
  main-serving flags hostname w w' s h =
      elim (Option-cases
        (main_node_id flags.node_id (S.node.platform.getenv "KUBE_NODE_NAME") hostname)) [
          | inl missing ↦ absurd (ground arith)
          | inr (node_id, known) ↦ elim (Result-cases (new_driver (main_config flags node_id))) [
            | inr (e, bad) ↦ absurd (ground arith)
            | inl (d, good) ↦
                let cfg = main_config flags node_id in
                let (same, set) = new_driver_lem cfg d good in
                let services = AreServices-outcome_of d w w' s (rw (known, good, main) at h) in
                let identity = services.identity_of in
                let of_node = services.node_id_of in
                let info = get_plugin_info-new_driver cfg d good in
                (
                  IsNodeId-main_node_id flags.node_id (S.node.platform.getenv "KUBE_NODE_NAME")
                      hostname s.node_id (ground arith),
                  λ e. ground (arith, set),
                  rw identity info,
                  services.no_devices,
                  services.no_topology,
                )
          ]
        ]
