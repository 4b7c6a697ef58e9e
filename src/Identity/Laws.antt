-- ===== src/Identity/Laws.antt =====
-- The endpoint and the plugin's name.
use caa_csi_block_driver.Prelude.{
  String, ◌<>◌, ◌≡◌, arith, cut_prefix, cut_prefix_sound, Option-cases, inl, inr,
}
use caa_csi_block_driver.Result.{ok, done}
use caa_csi_block_driver.Identity.{
  Config, new_driver, parse_endpoint, identity_server, get_plugin_info,
}

-- An endpoint that is accepted is made of the scheme and the address that it is split into.
parse_endpoint_sound :
    (endpoint scheme addr : String)
    → parse_endpoint endpoint ≡ ok (scheme, addr)
    → (scheme <> "://") <> addr ≡ endpoint
unfolding parse_endpoint
parse_endpoint_sound endpoint scheme addr h = elim (Option-cases (cut_prefix endpoint "unix://")) [
  | inr (a, e) ↦
      let p : scheme ≡ "unix" = ground arith in
      let q : addr ≡ a = ground arith in rw (p, q) (cut_prefix_sound endpoint "unix://" a e)
  | inl n ↦ elim (Option-cases (cut_prefix endpoint "tcp://")) [
    | inr (a, e) ↦
        let p : scheme ≡ "tcp" = ground arith in
        let q : addr ≡ a = ground arith in rw (p, q) (cut_prefix_sound endpoint "tcp://" a e)
    | inl m ↦ absurd (ground arith)
  ]
]

-- The plugin of a configuration that NewDriver accepts tells its name and its version, which are
-- those of the configuration.
pub get_plugin_info-new_driver :
    (cfg driver : Config)
    → new_driver cfg ≡ ok driver
    → get_plugin_info (identity_server driver) ≡ done (cfg.driver_name, cfg.vendor_version)
unfolding new_driver get_plugin_info
get_plugin_info-new_driver cfg driver h = ground arith
