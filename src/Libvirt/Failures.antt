-- ===== src/Libvirt/Failures.antt =====
-- What pkg/provider/libvirt/provider.go leaves of a disk file that it could not make.
use mathlib.Core.Path.{subst}
use caa_csi_block_driver.Prelude.{
  ℤ, String, ◌<>◌, ◌≡◌, ◌∙◌, ap, inl, inr, ◌⊎◌, true, Option, none, some, arith,
}
use caa_csi_block_driver.Result.{GoError, Result, ok, err, wrap, Result-cases}
use caa_csi_block_driver.Provider.{Call, VolumeInfo}
use caa_csi_block_driver.Provider.Calls.{pure, try, wrapping, ◌>>=◌, ◌>>◌, bind_cases, wrapping_err}
use caa_csi_block_driver.Libvirt.{
  Files, LibvirtProvider, volume_path, or_remove, volume_info, make_file, create_volume,
}

-- What the file system and the commands promise, over the sizes of the files that exist: a file that
-- is reported as missing is missing, a file that could not be created and was missing still is, a
-- removal that succeeds leaves no file, and a call that makes or resizes a file leaves it there.
pub record PoolLaws {Machine : Type 0} (files : Files Machine) : Type 0 where
  pub size_at : Machine → String → Option ℤ
  pub stat_missing :
      {path : String} {m m' : Machine} {e : GoError}
      → files.stat path m ≡ (err e, m')
      → e.is_not_exist ≡ true
      → size_at m' path ≡ none
  pub create_failed :
      {path : String} {m m' : Machine} {e : GoError}
      → files.create path m ≡ (err e, m')
      → size_at m path ≡ none
      → size_at m' path ≡ none
  pub truncate_sizes :
      {path : String} {size : ℤ} {m m' : Machine} {u : Unit {0}}
      → files.truncate path size m ≡ (ok u, m')
      → size_at m' path ≡ some size
  pub mkfs_keeps :
      {path : String} {m m' : Machine} {u : Unit {0}}
      → files.mkfs path m ≡ (ok u, m')
      → size_at m' path ≡ size_at m path
  pub remove_removes :
      {path : String} {m m' : Machine} {u : Unit {0}}
      → files.remove path m ≡ (ok u, m')
      → size_at m' path ≡ none

module _ {Machine : Type 0} (p : LibvirtProvider Machine) (L : PoolLaws p.files) where
  open p use {files}
  open L use {size_at}

  -- No file is left, or the last call was a removal of it that failed.
  abbrev pub IsCleared : String → Machine → Type 0
  IsCleared path m' =
      (size_at m' path ≡ none)
      ⊎ ((n : Machine) × (x : GoError) × (files.remove path n ≡ (err x, m')))

  -- What a removal whose error is ignored leaves.
  IsCleared-remove : (path : String) (m : Machine) → IsCleared path (files.remove path m).1
  IsCleared-remove path m = elim (Result-cases (files.remove path m).0) [
    | inl (u, e) ↦ inl (L.remove_removes {path = path} {m = m} {u = u} (ground arith))
    | inr (x, e) ↦ inr (m, x, ground arith)
  ]

  -- What a step or its clean-up leaves.
  or_remove_lem :
      (message path : String) (step : Call Machine (Unit {0})) (m : Machine) (r : Result (Unit {0}))
      (m' : Machine)
      → or_remove p message path step m ≡ (r, m')
      → ((r ≡ ok tt) × (step m ≡ (ok tt, m'))) ⊎ ((e : GoError) × (r ≡ err e) × IsCleared path m')
  unfolding or_remove ◌>>=◌ try
  or_remove_lem message path step m r m' h =
      let gone = IsCleared-remove path (step m).1 in
      elim (Result-cases (step m).0) [
        | inl (u, e) ↦ inl (ground arith, ground arith)
        | inr (x, e) ↦
            inr (wrap message x, ground arith, subst (λ n. IsCleared path n) (ground arith) gone)
      ]

  -- A disk file has its size, or it is cleared.
  abbrev Makes : String → ℤ → Result (Unit {0}) → Machine → Type 0
  Makes path size_bytes r m' =
      ((r ≡ ok tt) × (size_at m' path ≡ some size_bytes))
      ⊎ ((e : GoError) × (r ≡ err e) × IsCleared path m')

  -- The formatting of a file that has its size.
  Makes-formatted :
      (message path : String) (size_bytes : ℤ) (m : Machine) (r : Result (Unit {0})) (m' : Machine)
      → size_at m path ≡ some size_bytes
      → or_remove p message path (files.mkfs path) m ≡ (r, m')
      → Makes path size_bytes r m'
  Makes-formatted message path size_bytes m r m' sized h =
      elim (or_remove_lem message path (files.mkfs path) m r m' h) [
        | inl (good, formatted) ↦ inl (good, L.mkfs_keeps formatted ∙ sized)
        | inr failed ↦ inr failed
      ]

  Makes-make_file :
      (path : String) (size_bytes : ℤ) (m : Machine) (r : Result (Unit {0})) (m' : Machine)
      → size_at m path ≡ none
      → make_file p path size_bytes m ≡ (r, m')
      → Makes path size_bytes r m'
  unfolding make_file
  Makes-make_file path size_bytes m r m' missing h =
      let creation = "failed to create raw disk at " <> path in
      let allocation = "failed to allocate bytes for " <> path in
      let formatting = "failed to format " <> path <> " as ext4" in
      let format = or_remove p formatting path (files.mkfs path) in
      let allocate = or_remove p allocation path (files.truncate path size_bytes) in
      elim (bind_cases (wrapping creation (files.create path))
        (λ (u : Unit {0}). allocate >> format) m h) [
          | inr (e, failed, bad) ↦
              let (x, not_created) = wrapping_err creation (files.create path) m failed in
              inr (e, bad, inl (L.create_failed not_created missing))
          | inl (u, m1, created, rest) ↦
              elim (bind_cases allocate (λ (u : Unit {0}). format) m1 rest) [
                | inr (e, failed, bad) ↦
                    elim (or_remove_lem allocation path (files.truncate path size_bytes) m1 (err e)
                      m' failed) [
                        | inl (good, _) ↦ absurd (ground arith)
                        | inr (x, _, gone) ↦ inr (e, bad, gone)
                      ]
                | inl (v, m2, allocated, last) ↦
                    elim (or_remove_lem allocation path (files.truncate path size_bytes) m1 (ok v)
                      m2 allocated) [
                        | inl (_, truncated) ↦
                            Makes-formatted formatting path size_bytes m2 r m'
                              (L.truncate_sizes truncated) last
                        | inr (x, bad, _) ↦ absurd (ground arith)
                      ]
              ]
        ]

  -- Where the volume's file is reported as missing, a CreateVolume that succeeds leaves a file of the
  -- requested size, and one that fails leaves no file at the volume's path, unless its last call was a
  -- removal of that file that failed.
  pub create_volume-made :
      (volume_id : String) (size_bytes : ℤ) (m : Machine) (e0 : GoError) (m0 : Machine)
      (r : Result VolumeInfo) (m' : Machine)
      → files.stat (volume_path p volume_id) m ≡ (err e0, m0)
      → e0.is_not_exist ≡ true
      → create_volume p volume_id size_bytes m ≡ (r, m')
      → ((r ≡ ok (volume_info volume_id (volume_path p volume_id) size_bytes))
          × (size_at m' (volume_path p volume_id) ≡ some size_bytes))
        ⊎ ((e : GoError) × (r ≡ err e) × IsCleared (volume_path p volume_id) m')
  unfolding create_volume try ◌>>=◌
  create_volume-made volume_id size_bytes m e0 m0 r m' reported missing h =
      let path = volume_path p volume_id in
      let nothing = L.stat_missing reported missing in
      let info = volume_info volume_id path size_bytes in
      let done = λ (u : Unit {0}). pure {Cloud = Machine} info in
      let h' : (make_file p path size_bytes >>= done) m0 ≡ (r, m') = rw (reported, missing) at h in
      elim (bind_cases (make_file p path size_bytes) done m0 h') [
        | inl (u, m1, made, rest) ↦
            elim (Makes-make_file path size_bytes m0 (ok u) m1 nothing made) [
              | inl (_, sized) ↦ inl (ground arith, ap (λ n. size_at n path) (ground arith) ∙ sized)
              | inr (x, bad, _) ↦ absurd (ground arith)
            ]
        | inr (e, failed, bad) ↦
            elim (Makes-make_file path size_bytes m0 (err e) m' nothing failed) [
              | inl (good, _) ↦ absurd (ground arith)
              | inr (x, _, gone) ↦ inr (e, bad, gone)
            ]
      ]
