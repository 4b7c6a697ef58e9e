-- ===== src/Store/Bootstrap.antt =====
-- Where the parameters for a recovery come from.
use caa_csi_block_driver.Prelude.{String, ◌≡◌, ◌≢◌, some, arith, eq_iff}
use caa_csi_block_driver.GoMap.{Params, get}
use caa_csi_block_driver.Platform.{Platform}
use caa_csi_block_driver.Store.{
  any_params, load_manifest_params, load_bootstrap_params_file, bootstrap_params,
}
use caa_csi_block_driver.Store.Env.{params_from_env}
use caa_csi_block_driver.Store.Env.Laws.{params_from_env-lookup}
use caa_csi_block_driver.Store.Manifest.{any_params-is_usable}

module _ (P : Platform) (dir : String) where
  load_manifest_params-provider :
      (f : P.Files) (params : Params)
      → load_manifest_params P dir f ≡ some params
      → get params "cloudProvider" ≢ ""
  unfolding load_manifest_params
  load_manifest_params-provider f params h empty =
      ground (arith, eq_iff (get params "cloudProvider") "")

  load_bootstrap_params_file-provider :
      (f : P.Files) (params : Params)
      → load_bootstrap_params_file P dir f ≡ some params
      → get params "cloudProvider" ≢ ""
  unfolding load_bootstrap_params_file
  load_bootstrap_params_file-provider f params h empty =
      ground (arith, eq_iff (get params "cloudProvider") "")

  any_params-provider :
      (f : P.Files) (params : Params)
      → any_params P dir f ≡ some params
      → get params "cloudProvider" ≢ ""
  any_params-provider f params h empty =
      ground (arith, any_params-is_usable P dir f params h, eq_iff (get params "cloudProvider") "")

  from_env :
      (params : Params) → params_from_env P.getenv ≡ some params → get params "cloudProvider" ≢ ""
  from_env params h = (params_from_env-lookup P.getenv params h).1

  -- Parameters for a recovery always name a cloud provider, whichever of the four sources they come
  -- from.
  pub bootstrap_params-provider :
      (f : P.Files) (params : Params)
      → bootstrap_params P dir f ≡ some params
      → get params "cloudProvider" ≢ ""
  unfolding bootstrap_params
  bootstrap_params-provider f params h = ground (
    arith,
    any_params-provider f params,
    load_manifest_params-provider f params,
    load_bootstrap_params_file-provider f params,
    from_env params,
  )
