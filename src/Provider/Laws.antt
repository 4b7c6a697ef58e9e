-- ===== src/Provider/Laws.antt =====
-- The registry picks the factory that was registered last under the name.
use caa_csi_block_driver.Prelude.{
  String, ◌≡◌, ◌≢◌, refl, some, [], ◌∷◌, arith, ◌==◌, eq_iff, if◌then◌else◌,
}
use caa_csi_block_driver.GoMap.{Params, get}
use caa_csi_block_driver.Provider.{
  ProviderFactory, Registry, factory_of, register_provider, new_block_volume_provider,
}

module _ {Cloud : Type 0} where
  factory_of-register_provider :
      (r : Registry Cloud) (name other : String) (factory : ProviderFactory Cloud)
      → factory_of (register_provider r name factory) other
        ≡ (if name == other then some factory else factory_of r other)
  unfolding factory_of register_provider
  factory_of-register_provider [] name other factory = refl
  factory_of-register_provider ((n, old) ∷ r) name other factory = ground (
    arith,
    eq_iff n name,
    eq_iff n other,
    eq_iff name other,
    factory_of-register_provider r name other factory,
  )

  -- Once a factory is registered, parameters that name its provider get it, also when the name was
  -- registered before, and other parameters get what they got before.
  new_block_volume_provider-register_provider :
      (r : Registry Cloud) (name : String) (factory : ProviderFactory Cloud) (params : Params)
      (cloud : Cloud)
      → name ≢ ""
      → new_block_volume_provider (register_provider r name factory) params cloud ≡ (
          if name == get params "cloudProvider"
          then factory params cloud
          else new_block_volume_provider r params cloud)
  unfolding new_block_volume_provider
  new_block_volume_provider-register_provider r name factory params cloud named = ground (
    arith,
    eq_iff (get params "cloudProvider") "",
    eq_iff name (get params "cloudProvider"),
    factory_of-register_provider r name (get params "cloudProvider") factory,
  )
