-- ===== src/Store/Recovery/Rebuild.antt =====
-- What a recovery does to the store: it leaves every record that can be read, and it makes one for
-- every listed volume that had none.
use caa_csi_block_driver.Prelude.{
  ℕ, String, ◌≡◌, ◌≢◌, refl, true, List, [], ◌∷◌, arith, inl, inr, ◌⊎◌, eq_iff, ◌∙◌,
}
use caa_csi_block_driver.GoMap.{Params}
use caa_csi_block_driver.Result.{GoError, ok, err, Result-cases}
use caa_csi_block_driver.Provider.{VolumeInfo}
use caa_csi_block_driver.Platform.{Platform, IsLawful, VolumeRecord}
use caa_csi_block_driver.Store.{record_path, manifest_path, load, write_manifest, decode_record}
use caa_csi_block_driver.Store.RoundTrip.{read-write_manifest}
use caa_csi_block_driver.Store.Recovery.{
  recovered_record, recover_volume, write_recovered, recover_volumes, recover_listed,
}

module _ (P : Platform) (L : IsLawful P) (dir : String) where
  read-write_recovered :
      (params : Params) (vol : VolumeInfo) (f : P.Files) (p : String)
      → record_path P dir vol.volume_id ≢ p
      → P.read_file (write_recovered P dir params vol f).1 p ≡ P.read_file f p
  unfolding write_recovered
  read-write_recovered params vol f p ne = grind (arith, L.read-write_ne)

  -- A file that can be read is not written.
  read-recover_volume :
      (params : Params) (vol : VolumeInfo) (f : P.Files) (p : String) (b : P.Bytes)
      → P.read_file f p ≡ ok b
      → P.read_file (recover_volume P dir params vol f).1 p ≡ ok b
  unfolding recover_volume
  read-recover_volume params vol f p b h = ground (
    arith,
    eq_iff (record_path P dir vol.volume_id) p,
    read-write_recovered params vol f p,
    L.stat-read f p b h,
  )

  read-recover_volumes :
      (params : Params) (vols : List VolumeInfo) (n : ℕ) (f : P.Files) (p : String) (b : P.Bytes)
      → P.read_file f p ≡ ok b
      → P.read_file (recover_volumes P dir params vols n f).1 p ≡ ok b
  unfolding recover_volumes
  read-recover_volumes params [] n f p b h = h
  read-recover_volumes params (vol ∷ vols) n f p b h =
      read-recover_volumes params vols _ _ p b (read-recover_volume params vol f p b h)

  read-recover_listed :
      (params : Params) (vols : List VolumeInfo) (f : P.Files) (p : String) (b : P.Bytes)
      → manifest_path P dir ≢ p
      → P.read_file f p ≡ ok b
      → P.read_file (recover_listed P dir params vols f) p ≡ ok b
  unfolding recover_listed
  read-recover_listed params vols f p b apart h =
      grind (arith, read-recover_volumes params vols 0 f p b h, read-write_manifest P L dir)

  load-inv :
      (id : String) (f : P.Files) (r : VolumeRecord)
      → load P dir id f ≡ ok r
      → (b : P.Bytes) × (P.read_file f (record_path P dir id) ≡ ok b)
        × (P.unmarshal_record b ≡ ok r)
  unfolding load decode_record
  load-inv id f r h = elim (Result-cases (P.read_file f (record_path P dir id))) [
    | inl (b, e) ↦ (b, e, ground arith)
    | inr (c, e) ↦ absurd (ground arith)
  ]

  load-of_read :
      (id : String) (f : P.Files) (b : P.Bytes) (r : VolumeRecord)
      → P.read_file f (record_path P dir id) ≡ ok b
      → P.unmarshal_record b ≡ ok r
      → load P dir id f ≡ ok r
  unfolding load decode_record
  load-of_read id f b r h u = ground arith

  load-recover_volumes :
      (params : Params) (vols : List VolumeInfo) (n : ℕ) (id : String) (f : P.Files)
      (r : VolumeRecord)
      → load P dir id f ≡ ok r
      → load P dir id (recover_volumes P dir params vols n f).1 ≡ ok r
  load-recover_volumes params vols n id f r h =
      let (b, e, u) = load-inv id f r h in
      load-of_read id _ b r (read-recover_volumes params vols n f _ b e) u

  pub load-write_manifest :
      (id : String) (f : P.Files) (r : VolumeRecord)
      → manifest_path P dir ≢ record_path P dir id
      → load P dir id f ≡ ok r
      → load P dir id (write_manifest P dir f).1 ≡ ok r
  load-write_manifest id f r apart h =
      let (b, e, u) = load-inv id f r h in
      load-of_read id _ b r (read-write_manifest P L dir f _ apart ∙ e) u

  pub load-recover_listed_of :
      (params : Params) (vols : List VolumeInfo) (id : String) (f : P.Files) (r : VolumeRecord)
      → manifest_path P dir ≢ record_path P dir id
      → load P dir id (recover_volumes P dir params vols 0 f).1 ≡ ok r
      → load P dir id (recover_listed P dir params vols f) ≡ ok r
  unfolding recover_listed
  load-recover_listed_of params vols id f r apart h =
      ground (arith, load-write_manifest id (recover_volumes P dir params vols 0 f).1 r apart h)

  -- A record that can be loaded is the same after a recovery.
  pub load-recover_listed :
      (params : Params) (vols : List VolumeInfo) (id : String) (f : P.Files) (r : VolumeRecord)
      → manifest_path P dir ≢ record_path P dir id
      → load P dir id f ≡ ok r
      → load P dir id (recover_listed P dir params vols f) ≡ ok r
  load-recover_listed params vols id f r apart h =
      let (b, e, u) = load-inv id f r h in
      load-of_read id _ b r (read-recover_listed params vols f _ b apart e) u

-- Whether a volume is in a listing.
abbrev pub IsListed : VolumeInfo → List VolumeInfo → Type 0
IsListed vol [] = ⊥
IsListed vol (v ∷ vols) = (v ≡ vol) ⊎ IsListed vol vols

-- No file is at a path.
abbrev pub IsMissing : (P : Platform) → P.Files → String → Type 0
IsMissing P f p = (e : GoError) × (P.stat f p ≡ err e) × (e.is_not_exist ≡ true)

-- A platform on which no write fails.
pub record Writes (P : Platform) : Type 0 where
  pub writes : (f : P.Files) (p : String) (b : P.Bytes) → (P.write_file f p b).0 ≡ ok tt
  pub marshals : (r : VolumeRecord) → (b : P.Bytes) × (P.marshal_record r ≡ ok b)

module _ (P : Platform) (L : IsLawful P) (W : Writes P) (dir : String) (params : Params) where
  recover_missing :
      (v : VolumeInfo) (f : P.Files) (id : String)
      → record_path P dir v.volume_id ≡ record_path P dir id
      → v.volume_id ≢ ""
      → IsMissing P f (record_path P dir id)
      → load P dir id (recover_volume P dir params v f).1 ≡ ok (recovered_record params v)
  unfolding recover_volume write_recovered
  recover_missing v f id same named (e, s, missing) =
      let (b, m) = W.marshals (recovered_record params v) in
      load-of_read P L dir id _ b _
        (rw (← same) (
          ground (
            arith,
            eq_iff v.volume_id "",
            W.writes f (record_path P dir v.volume_id) b,
            L.read-write f (record_path P dir v.volume_id) b,
          )))
        (L.record_roundtrip _ b m)

  stat-write_recovered :
      (v : VolumeInfo) (f : P.Files) (p : String)
      → record_path P dir v.volume_id ≢ p
      → P.stat (write_recovered P dir params v f).1 p ≡ P.stat f p
  unfolding write_recovered
  stat-write_recovered v f p ne = grind (arith, L.stat-write_ne)

  keep-IsMissing :
      (v : VolumeInfo) (f : P.Files) (id : String)
      → (v.volume_id ≡ "") ⊎ (record_path P dir v.volume_id ≢ record_path P dir id)
      → IsMissing P f (record_path P dir id)
      → IsMissing P (recover_volume P dir params v f).1 (record_path P dir id)
  unfolding recover_volume
  keep-IsMissing v f id other (e, s, missing) = (
    e,
    ground (arith, eq_iff v.volume_id "", stat-write_recovered v f (record_path P dir id)),
    missing,
  )

  -- Whether a round of the loop, for a volume with an ID, writes the file of `vol`.
  abbrev pub Makes : VolumeInfo → VolumeInfo → Type 0
  Makes v vol =
      (v.volume_id ≢ "") × (record_path P dir v.volume_id ≡ record_path P dir vol.volume_id)

  abbrev Spares : VolumeInfo → VolumeInfo → Type 0
  Spares v vol =
      (v.volume_id ≡ "") ⊎ (record_path P dir v.volume_id ≢ record_path P dir vol.volume_id)

  Makes-or_Spares : (v vol : VolumeInfo) → Makes v vol ⊎ Spares v vol
  Makes-or_Spares v vol = ground (
    arith,
    eq_iff v.volume_id "",
    eq_iff (record_path P dir v.volume_id) (record_path P dir vol.volume_id),
  )

  IsListed-in_rest :
      (v vol : VolumeInfo) (vols : List VolumeInfo)
      → Spares v vol
      → vol.volume_id ≢ ""
      → IsListed vol (v ∷ vols)
      → IsListed vol vols
  IsListed-in_rest v vol vols (inl e) named (inl same) = absurd (named (rw (← same) e))
  IsListed-in_rest v vol vols (inr ne) named (inl same) = absurd (ne (rw same refl))
  IsListed-in_rest v vol vols spares named (inr rest) = rest

  -- Where a listed volume has no file, a recovery makes there the record of a listed volume with that file.
  pub rebuild_missing :
      (vol : VolumeInfo) (vols : List VolumeInfo) (n : ℕ) (f : P.Files)
      → IsListed vol vols
      → vol.volume_id ≢ ""
      → IsMissing P f (record_path P dir vol.volume_id)
      → (v : VolumeInfo) × IsListed v vols
        × Makes v vol
        × (load P dir vol.volume_id (recover_volumes P dir params vols n f).1
            ≡ ok (recovered_record params v))
  unfolding recover_volumes
  rebuild_missing vol [] n f listed named missing = absurd listed
  rebuild_missing vol (v ∷ vols) n f listed named missing = elim (Makes-or_Spares v vol) [
    | inl (named', same) ↦ (
      v,
      inl refl,
      (named', same),
      load-recover_volumes P L dir params vols _ vol.volume_id _ _
          (recover_missing v f vol.volume_id same named' missing),
    )
    | inr spares ↦
        let (u, found, makes, loaded) =
          rebuild_missing vol vols _ _ (IsListed-in_rest v vol vols spares named listed) named
            (keep-IsMissing v f vol.volume_id spares missing) in
        (u, inr found, makes, loaded)
  ]
