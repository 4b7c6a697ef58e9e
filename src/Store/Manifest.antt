-- ===== src/Store/Manifest.antt =====
-- The manifest keeps parameters from which the store can be rebuilt.
use caa_csi_block_driver.Prelude.{
  String, ◌≡◌, ◌≢◌, refl, true, some, List, [], ◌∷◌, arith, inl, inr, ◌∙◌, Option-cases, not, ◌==◌,
}
use caa_csi_block_driver.GoMap.{Params, lookup, erase, get, entries, lookup-erase}
use caa_csi_block_driver.Result.{ok, Result-cases}
use caa_csi_block_driver.Platform.{Platform, IsLawful, VolumeRecord, VolumeManifest}
use caa_csi_block_driver.Store.{
  manifest_path, record_path, store_manifest, empty_manifest, write_manifest_over, write_manifest,
  read_manifest, manifest_params, first_usable, load_manifest_params, bootstrap_params, delete,
  any_params, list_all, existing_params,
}
use caa_csi_block_driver.Store.Env.{is_usable, sanitize_persistable_params}

lookup-cloud_provider_sanitize :
    (params : Params)
    → lookup "cloudProvider" (sanitize_persistable_params params) ≡ lookup "cloudProvider" params
unfolding sanitize_persistable_params
lookup-cloud_provider_sanitize params = ground (
  arith,
  lookup-erase (erase params "awsAccessKeyId") "awsSecretKey" "cloudProvider",
  lookup-erase params "awsAccessKeyId" "cloudProvider",
)

-- A map with a cloud provider has an entry, so that the test is one of the provider alone.
is_usable-eq : (params : Params) → is_usable (some params) ≡ not (get params "cloudProvider" == "")
unfolding lookup
is_usable-eq [] = refl
is_usable-eq (e ∷ params) = refl

pub is_usable-sanitize :
    (params : Params)
    → is_usable (some (sanitize_persistable_params params)) ≡ is_usable (some params)
is_usable-sanitize params =
    rw
      (
        is_usable-eq params,
        is_usable-eq (sanitize_persistable_params params),
        lookup-cloud_provider_sanitize,
      )
      refl

first_usable-is_usable :
    (recs : List VolumeRecord) (params : Params)
    → first_usable recs ≡ some params
    → is_usable (some params) ≡ true
unfolding first_usable
first_usable-is_usable [] params h = cc
first_usable-is_usable (r ∷ recs) params h = grind (arith, first_usable-is_usable recs params)

existing_params-is_usable :
    (m : VolumeManifest)
    → is_usable m.params ≡ true
    → is_usable (some (existing_params (ok m))) ≡ true
existing_params-is_usable m h = rw h (is_usable-sanitize (entries m.params) ∙ h)

manifest_params-is_usable :
    (recs : List VolumeRecord) (m : VolumeManifest)
    → is_usable m.params ≡ true
    → is_usable (some (manifest_params recs (ok m))) ≡ true
unfolding manifest_params
manifest_params-is_usable recs m h = elim (Option-cases (first_usable recs)) [
  | inl e ↦ rw (e, manifest_params) (existing_params-is_usable m h)
  | inr (p, e) ↦ rw (e, manifest_params) (is_usable-sanitize p ∙ first_usable-is_usable recs p e)
]

module _ (P : Platform) (dir : String) where
  pub any_params-is_usable :
      (f : P.Files) (params : Params)
      → any_params P dir f ≡ some params
      → is_usable (some params) ≡ true
  unfolding any_params
  any_params-is_usable f params h = grind (arith, first_usable-is_usable)

module _ (P : Platform) (L : IsLawful P) (dir : String) where
  pub read-store_manifest_self :
      (m : VolumeManifest) (f : P.Files)
      → (store_manifest P dir m f).0 ≡ ok tt
      → read_manifest P dir (store_manifest P dir m f).1 ≡ ok m
  unfolding store_manifest read_manifest
  read-store_manifest_self m f h = grind (arith, L.read-write, L.manifest_roundtrip)

  load_manifest_params-eq :
      (f g : P.Files)
      → P.read_file f (manifest_path P dir) ≡ P.read_file g (manifest_path P dir)
      → load_manifest_params P dir f ≡ load_manifest_params P dir g
  unfolding load_manifest_params read_manifest
  load_manifest_params-eq f g h = ground arith

  -- Usable parameters of a manifest are those of a manifest that can be read.
  usable_manifest :
      (f : P.Files)
      → is_usable (load_manifest_params P dir f) ≡ true
      → (m : VolumeManifest) × (read_manifest P dir f ≡ ok m) × (is_usable m.params ≡ true)
  unfolding load_manifest_params
  usable_manifest f h = elim (Result-cases (read_manifest P dir f)) [
    | inl (m, e) ↦ (m, e, ground arith)
    | inr (c, e) ↦ absurd (ground arith)
  ]

  load_manifest_params-is_usable :
      (f : P.Files) (m : VolumeManifest)
      → read_manifest P dir f ≡ ok m
      → is_usable m.params ≡ true
      → is_usable (load_manifest_params P dir f) ≡ true
  unfolding load_manifest_params
  load_manifest_params-is_usable f m e h = ground arith

  write_manifest_over-is_usable :
      (recs : List VolumeRecord) (f : P.Files) (m : VolumeManifest)
      → read_manifest P dir f ≡ ok m
      → is_usable m.params ≡ true
      → (write_manifest_over P dir recs f).0 ≡ ok tt
      → is_usable (load_manifest_params P dir (write_manifest_over P dir recs f).1) ≡ true
  unfolding write_manifest_over empty_manifest
  write_manifest_over-is_usable [] f m e h written =
      let kept = record m { volume_ids = [] } in
      rw (e, empty_manifest, h)
        (load_manifest_params-is_usable _ kept
          (read-store_manifest_self kept f (rw (e, empty_manifest, h) at written)) h)
  write_manifest_over-is_usable (r ∷ recs) f m e h written =
      load_manifest_params-is_usable _ _ (read-store_manifest_self _ f written)
        (rw e (manifest_params-is_usable (r ∷ recs) m h))

  -- If the manifest has usable parameters, then a manifest that is written has them too, whatever
  -- records there are, also none.
  pub write_manifest-is_usable :
      (f : P.Files)
      → is_usable (load_manifest_params P dir f) ≡ true
      → (write_manifest P dir f).0 ≡ ok tt
      → is_usable (load_manifest_params P dir (write_manifest P dir f).1) ≡ true
  unfolding write_manifest
  write_manifest-is_usable f h written =
      let (m, e, u) = usable_manifest f h in
      elim (Result-cases (list_all P dir f)) [
        | inl (recs, l) ↦
            rw (l, write_manifest)
              (write_manifest_over-is_usable recs f m e u (rw (l, write_manifest) at written))
        | inr (c, l) ↦ rw (l, write_manifest) h
      ]

  bootstrap_params-is_usable_of :
      (f : P.Files)
      → is_usable (load_manifest_params P dir f) ≡ true
      → is_usable (bootstrap_params P dir f) ≡ true
  unfolding bootstrap_params
  bootstrap_params-is_usable_of f h = elim (Option-cases (any_params P dir f)) [
    | inl e ↦ elim (Option-cases (load_manifest_params P dir f)) [
      | inl n ↦ absurd (ground arith)
      | inr (p, n) ↦ rw (e, bootstrap_params, n) (rw n at h)
    ]
    | inr (p, e) ↦ rw (e, bootstrap_params) (any_params-is_usable P dir f p e)
  ]

  -- After a Delete whose manifest was written, the parameters for a recovery are still there if the
  -- manifest had them, also when the last record is gone.
  -- The volume's record is not the manifest's file.
  pub bootstrap_params-delete :
      (volume_id : String) (f : P.Files)
      → record_path P dir volume_id ≢ manifest_path P dir
      → is_usable (load_manifest_params P dir f) ≡ true
      → (write_manifest P dir (P.remove f (record_path P dir volume_id)).1).0 ≡ ok tt
      → is_usable (bootstrap_params P dir (delete P dir volume_id f)) ≡ true
  unfolding delete
  bootstrap_params-delete volume_id f apart h written =
      let removed = (P.remove f (record_path P dir volume_id)).1 in
      let same =
        load_manifest_params-eq removed f
          (L.read-remove_ne f (record_path P dir volume_id) (manifest_path P dir) apart) in
      let before : is_usable (load_manifest_params P dir removed) ≡ true = rw same h in
      bootstrap_params-is_usable_of _ (write_manifest-is_usable removed before written)
