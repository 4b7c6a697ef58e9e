-- ===== src/Store/Secrets.antt =====
-- The credentials of AWS in parameters, and what the store keeps of them.
use mathlib.Core.Path.{subst}
use caa_csi_block_driver.Prelude.{
  Bool-cases, String, ◌≡◌, ◌≢◌, refl, none, List, [], ◌∷◌, arith, eq_iff, Option-cases, inl, inr,
}
use caa_csi_block_driver.GoMap.{Params, lookup, erase, entries, lookup-erase}
use caa_csi_block_driver.Result.{Result, ok, err, Result-cases}
use caa_csi_block_driver.Platform.{Platform, IsLawful, VolumeRecord, VolumeManifest}
use caa_csi_block_driver.Store.{
  manifest_path, store_manifest, empty_manifest, write_manifest_over, write_manifest, read_manifest,
  manifest_params, first_usable, list_all, existing_params,
}
use caa_csi_block_driver.Store.Env.{is_usable, sanitize_persistable_params}
use caa_csi_block_driver.Store.Manifest.{read-store_manifest_self}

-- Parameters without the long-lived credentials of AWS.
abbrev pub IsClean : Params → Type 0
IsClean params = (lookup "awsAccessKeyId" params ≡ none) × (lookup "awsSecretKey" params ≡ none)

pub sanitize-IsClean : (params : Params) → IsClean (sanitize_persistable_params params)
unfolding sanitize_persistable_params
sanitize-IsClean params = (
  ground (
    arith,
    lookup-erase (erase params "awsAccessKeyId") "awsSecretKey" "awsAccessKeyId",
    lookup-erase params "awsAccessKeyId" "awsAccessKeyId",
  ),
  ground (arith, lookup-erase (erase params "awsAccessKeyId") "awsSecretKey" "awsSecretKey"),
)

-- Sanitizing keeps every other key.
pub lookup-sanitize :
    (params : Params) (k : String)
    → k ≢ "awsAccessKeyId"
    → k ≢ "awsSecretKey"
    → lookup k (sanitize_persistable_params params) ≡ lookup k params
unfolding sanitize_persistable_params
lookup-sanitize params k h1 h2 = ground (
  arith,
  lookup-erase (erase params "awsAccessKeyId") "awsSecretKey" k,
  lookup-erase params "awsAccessKeyId" k,
  eq_iff "awsSecretKey" k,
  eq_iff "awsAccessKeyId" k,
)

existing_params-IsClean : (r : Result VolumeManifest) → IsClean (existing_params r)
unfolding lookup
existing_params-IsClean (err e) = (refl, refl)
existing_params-IsClean (ok m) = elim (Bool-cases (is_usable m.params)) [
  | inl u ↦ rw u (sanitize-IsClean (entries m.params))
  | inr u ↦ rw u (refl, refl)
]

manifest_params-IsClean :
    (recs : List VolumeRecord) (r : Result VolumeManifest) → IsClean (manifest_params recs r)
unfolding manifest_params
manifest_params-IsClean recs r = elim (Option-cases (first_usable recs)) [
  | inl e ↦ rw (e, manifest_params) (existing_params-IsClean r)
  | inr (p, e) ↦ rw (e, manifest_params) (sanitize-IsClean p)
]

module _ (P : Platform) (L : IsLawful P) (dir : String) where
  -- The manifest, if there is one that can be read, holds no credentials.
  pub record IsCleanStore (f : P.Files) : Type 0 where
    pub at : (m : VolumeManifest) → read_manifest P dir f ≡ ok m → IsClean (entries m.params)

  store_manifest-IsCleanStore :
      (m : VolumeManifest) (f : P.Files)
      → IsClean (entries m.params)
      → (store_manifest P dir m f).0 ≡ ok tt
      → IsCleanStore (store_manifest P dir m f).1
  store_manifest-IsCleanStore m f c written = record {
    at = λ n read.
        let same : m ≡ n = cc (read-store_manifest_self P L dir m f written) in
        subst (λ (k : VolumeManifest). IsClean (entries k.params)) same c;
  }

  remove-IsCleanStore :
      (f : P.Files) → IsCleanStore f → IsCleanStore (P.remove f (manifest_path P dir)).1
  unfolding read_manifest
  remove-IsCleanStore f c = elim (Result-cases (P.remove f (manifest_path P dir)).0) [
    | inl (_, e) ↦
        let (c', gone, _) = L.read-remove f (manifest_path P dir) e in
        record { at = λ m read. absurd (ground arith) }
    | inr (c', e) ↦ record {
      at = λ m read.
          c.at m (rw (L.read-remove_failed f (manifest_path P dir) c' e, read_manifest) at read);
    }
  ]

  empty_manifest-IsCleanStore :
      (r : Result VolumeManifest) (f : P.Files)
      → read_manifest P dir f ≡ r
      → IsCleanStore f
      → (empty_manifest P dir r f).0 ≡ ok tt
      → IsCleanStore (empty_manifest P dir r f).1
  unfolding empty_manifest
  empty_manifest-IsCleanStore (err e) f same c written = remove-IsCleanStore f c
  empty_manifest-IsCleanStore (ok m) f same c written = elim (Bool-cases (is_usable m.params)) [
    | inl u ↦ rw u (store_manifest-IsCleanStore _ f (c.at m same) (rw u at written))
    | inr u ↦ rw u (remove-IsCleanStore f c)
  ]

  write_manifest_over-IsCleanStore :
      (recs : List VolumeRecord) (f : P.Files)
      → IsCleanStore f
      → (write_manifest_over P dir recs f).0 ≡ ok tt
      → IsCleanStore (write_manifest_over P dir recs f).1
  unfolding write_manifest_over
  write_manifest_over-IsCleanStore [] f c written = empty_manifest-IsCleanStore _ f refl c written
  write_manifest_over-IsCleanStore (r ∷ recs) f c written =
      store_manifest-IsCleanStore _ f (manifest_params-IsClean (r ∷ recs) _) written

  -- A store whose manifest holds no credentials has such a manifest after every write of it that
  -- succeeds.
  pub write_manifest-IsCleanStore :
      (f : P.Files)
      → IsCleanStore f
      → (write_manifest P dir f).0 ≡ ok tt
      → IsCleanStore (write_manifest P dir f).1
  unfolding write_manifest
  write_manifest-IsCleanStore f c written = elim (Result-cases (list_all P dir f)) [
    | inl (recs, l) ↦
        rw (l, write_manifest)
          (write_manifest_over-IsCleanStore recs f c (rw (l, write_manifest) at written))
    | inr (e, l) ↦ rw (l, write_manifest) c
  ]
