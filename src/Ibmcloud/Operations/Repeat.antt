-- ===== src/Ibmcloud/Operations/Repeat.antt =====
-- A repeated CreateVolume of pkg/provider/ibmcloud/provider.go recognises the volume of the first one.
use caa_csi_block_driver.Prelude.{
  ℕ, zero, suc, ◌*◌, ◌/◌, ◌≤◌, ℤ, pos, scale, quot, le_int, le_int_refl, String, ◌<>◌, ◌≡◌, ◌≢◌,
  refl, ◌∙◌, ◌⊎◌, inl, inr, true, ◌&&◌, not, Option, none, some, arith, Bool-cases, ◌==◌, eq_iff,
  eq_refl, ne→==,
}
use caa_csi_block_driver.Result.{ok}
use caa_csi_block_driver.Provider.{VolumeInfo}
use caa_csi_block_driver.Provider.Numbers.{gib, some_if_set}
use caa_csi_block_driver.Provider.Calls.{try, ◌>>=◌}
use caa_csi_block_driver.Ibmcloud.{Config, IbmCloudProvider, ownership_tag_prefix}
use caa_csi_block_driver.Ibmcloud.Capacity.{
  normalize_capacity, normalize_capacity_cases, minimum_units,
}
use caa_csi_block_driver.Ibmcloud.Volumes.{
  Volume, Session, Packages, has, check_owned_volume, is_capacity, info_of, config_tag,
}
use caa_csi_block_driver.Ibmcloud.Volumes.Info.{volume_info_found}
use caa_csi_block_driver.Ibmcloud.Volumes.Owned.{check_owned_volume_iff}
use caa_csi_block_driver.Ibmcloud.Lookup.{lookup_volume}
use caa_csi_block_driver.Ibmcloud.Operations.{
  new_volume, encryption_key_of, reuse, create_or_reuse, create_volume,
}

-- What the SDK returns of a volume that was requested: the settings of the request, but for the
-- resource group and the encryption key, which it may leave out.
pub record IsReturned (request v : Volume) : Type 0 where
  pub same_tags : v.tags ≡ request.tags
  pub same_zone : v.az ≡ request.az
  pub same_profile : v.profile ≡ request.profile
  pub same_iops : v.iops ≡ request.iops
  pub same_bandwidth : v.bandwidth ≡ request.bandwidth
  pub group_or_none : (v.resource_group ≡ none) ⊎ (v.resource_group ≡ request.resource_group)
  pub key_or_none : (v.encryption_key ≡ none) ⊎ (v.encryption_key ≡ request.encryption_key)

some_if_set_cases : (s : String) → (some_if_set s ≡ none) ⊎ (some_if_set s ≡ some s)
some_if_set_cases s = elim (Bool-cases (s == "")) [
  | inl empty ↦ inl (rw empty refl)
  | inr set ↦ inr (rw set refl)
]

encryption_key_of_cases :
    (P : Packages) (cfg : Config)
    → (encryption_key_of P cfg ≡ none) ⊎ (encryption_key_of P cfg ≡ some cfg.encryption_key)
encryption_key_of_cases P cfg =
    elim (Bool-cases (P.to_lower cfg.encrypted == "true" && not (cfg.encryption_key == ""))) [
      | inl sealed ↦ inr (rw sealed refl)
      | inr plain ↦ inl (rw plain refl)
    ]

-- A field that is none, or a request's that is none or some value.
through :
    {o request : Option String} {s : String}
    → (o ≡ none) ⊎ (o ≡ request)
    → (request ≡ none) ⊎ (request ≡ some s)
    → (o ≡ none) ⊎ (o ≡ some s)
through (inl e) f = inl e
through (inr e) (inl f) = inl (e ∙ f)
through (inr e) (inr f) = inr (e ∙ f)

-- checkOwnedVolume accepts a volume that CreateVolume requested, whatever the configuration, from what
-- the SDK returns of it, which may lack the resource group and the encryption key.
pub check_owned-IsReturned :
    (P : Packages) (cfg : Config) (volume_id : String) (allocated : ℤ) (v : Volume)
    → IsReturned (new_volume P cfg volume_id allocated) v
    → check_owned_volume P cfg v volume_id ≡ ok tt
unfolding new_volume has
check_owned-IsReturned P cfg volume_id allocated v r =
    (check_owned_volume_iff P cfg v volume_id).1 (record {
      has_owner = rw r.same_tags (ground (arith, eq_refl (ownership_tag_prefix <> volume_id)));
      has_marker = rw r.same_tags (ground (arith, eq_refl (config_tag P cfg)));
      in_zone = r.same_zone;
      has_profile = r.same_profile;
      in_group = through r.group_or_none (some_if_set_cases cfg.resource_group);
      has_key = through r.key_or_none (encryption_key_of_cases P cfg);
      has_iops = elim (Bool-cases (cfg.iops == "")) [
        | inl unset ↦ inl (ground (arith, eq_iff cfg.iops ""))
        | inr set ↦ inr (r.same_iops ∙ rw set refl)
      ];
      has_bandwidth = inr r.same_bandwidth;
    })

is_capacity_within : (n : ℕ) → 1 ≤ n → n ≤ 8589934591 → is_capacity (pos n) ≡ true
unfolding is_capacity
is_capacity_within zero above below = absurd (omega arith)
is_capacity_within (suc n) above below = ground arith

-- A normalized capacity is that of its GiB, which an info can have.
normalized_capacity :
    (profile : String) (n allocated : ℕ)
    → normalize_capacity profile (pos n) ≡ ok (pos allocated)
    → (scale (quot (pos allocated) gib) gib ≡ pos allocated)
      × (is_capacity (quot (pos allocated) gib) ≡ true)
unfolding scale quot
normalized_capacity profile n allocated h = elim (normalize_capacity_cases profile n) [
  | inr (e, bad, _) ↦ absurd (ground arith)
  | inl (c, good, (holds, whole, least, small, _)) ↦
      let same : c ≡ allocated = ground arith in
      let minimum : 1 ≤ minimum_units profile = ground arith in
      let even : allocated / gib * gib ≡ allocated = omega arith in
      (rw even refl, is_capacity_within (allocated / gib) (omega arith) (omega arith))
]

module _ {Cloud : Type 0} (P : Packages) (rounds : ℕ) (p : IbmCloudProvider (Session Cloud)) where
  -- CreateVolume is idempotent: with a zone, a name and a request whose capacity can be normalized, and
  -- where the lookup finds what the SDK returns of the volume that CreateVolume requests, with its
  -- name, its capacity and a native ID, and available, CreateVolume returns the info of that volume
  -- with the normalized capacity, and makes no call but those of the lookup.
  pub create_volume-again :
      (volume_id : String) (n allocated : ℕ) (v : Volume) (c c' : Cloud)
      → p.config.zone ≢ ""
      → volume_id ≢ ""
      → normalize_capacity p.config.profile (pos n) ≡ ok (pos allocated)
      → lookup_volume P rounds p volume_id c ≡ (ok (some v), c')
      → IsReturned (new_volume P p.config volume_id (pos allocated)) v
      → v.name ≡ some volume_id
      → v.capacity ≡ (new_volume P p.config volume_id (pos allocated)).capacity
      → v.volume_id ≢ ""
      → v.status ≡ "available"
      → (info : VolumeInfo) × (create_volume P rounds p volume_id (pos n) c ≡ (ok info, c'))
        × (info.volume_id ≡ volume_id)
        × (info.path ≡ v.volume_id)
        × (info.size_bytes ≡ pos allocated)
  unfolding create_volume create_or_reuse reuse new_volume ◌>>=◌ try
  create_volume-again volume_id n allocated v c c' zone set normal found r name sized native up =
      let units = quot (pos allocated) gib in
      let (exact, fits) = normalized_capacity p.config.profile n allocated normal in
      let owned = check_owned-IsReturned P p.config volume_id (pos allocated) v r in
      let good =
        volume_info_found v volume_id units p.config.profile name set native sized fits
          r.same_profile up in
      let large : le_int (pos allocated) (scale units gib) ≡ true =
        rw exact (le_int_refl (pos allocated)) in
      let reused : reuse P rounds p volume_id (pos allocated) v
          ≡ ok (info_of v volume_id units p.config.profile) =
        rw (owned, good, large, reuse) refl in
      let placed = ne→== p.config.zone "" zone in
      let named = ne→== volume_id "" set in
      (info_of v volume_id units p.config.profile, ground arith, refl, refl, exact)
