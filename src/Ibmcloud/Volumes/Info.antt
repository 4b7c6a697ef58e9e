-- ===== src/Ibmcloud/Volumes/Info.antt =====
-- What volumeInfo of pkg/provider/ibmcloud/provider.go tells of a volume.
use caa_csi_block_driver.Prelude.{
  ℤ, scale, String, ◌≡◌, ◌≢◌, refl, inl, inr, true, some, arith, Bool-cases, Option-cases, ◌==◌,
  eq_iff,
}
use caa_csi_block_driver.Result.{ok}
use caa_csi_block_driver.Provider.{VolumeInfo}
use caa_csi_block_driver.Provider.Numbers.{gib}
use caa_csi_block_driver.Ibmcloud.Volumes.{
  Volume, is_capacity, complete, available_info, info_of, volume_info,
}

-- An available volume with a native ID, and its name and its capacity, whose bytes are positive and
-- fit an int64.
pub record IsInfo (v : Volume) (info : VolumeInfo) : Type 0 where
  pub is_available : v.status ≡ "available"
  pub native : v.volume_id ≢ ""
  pub path_of : info.path ≡ v.volume_id
  pub name_of : v.name ≡ some info.volume_id
  pub units : ℤ
  pub capacity_of : v.capacity ≡ some units
  pub fits : is_capacity units ≡ true
  pub size_of : info.size_bytes ≡ scale units gib

abbrev IsComplete : Volume → String → ℤ → String → Type 0
IsComplete v name n profile =
    (v.name ≡ some name) × (v.capacity ≡ some n) × (v.volume_id ≢ "") × (is_capacity n ≡ true)

complete-IsComplete :
    (v : Volume) (name : String) (n : ℤ) (profile : String)
    → complete v ≡ some (name, n, profile)
    → IsComplete v name n profile
unfolding complete
complete-IsComplete v name n profile h = elim (Option-cases v.name) [
  | inl e ↦ absurd (ground arith)
  | inr (name', e) ↦ elim (Option-cases v.capacity) [
    | inl f ↦ absurd (ground arith)
    | inr (n', f) ↦ elim (Option-cases v.profile) [
      | inl g ↦ absurd (ground arith)
      | inr (profile', g) ↦ (
        ground arith,
        ground arith,
        (λ empty. ground (arith, eq_iff v.volume_id "")),
        ground arith,
      )
    ]
  ]
]

-- An info that volumeInfo gives is that of an available volume with a native ID, a name and a
-- capacity whose bytes are positive and fit an int64, and it has that ID, name and capacity.
pub volume_info-IsInfo :
    (v : Volume) (info : VolumeInfo) → volume_info (some v) ≡ ok info → IsInfo v info
unfolding volume_info available_info
volume_info-IsInfo v info h = elim (Option-cases (complete v)) [
  | inl missing ↦ absurd (ground arith)
  | inr ((name, n, profile), fields) ↦ elim (Bool-cases (v.status == "available")) [
    | inr down ↦ absurd (ground arith)
    | inl up ↦
        let (named, sized, native, fits) = complete-IsComplete v name n profile fields in
        let e : info_of v name n profile ≡ info = ground arith in
        rw (← e) (record {
          is_available = ground (arith, eq_iff v.status "available");
          native = native;
          path_of = refl;
          name_of = named;
          units = n;
          capacity_of = sized;
          fits = fits;
          size_of = refl;
        })
  ]
]

-- volumeInfo gives the info of every such volume.
pub volume_info_found :
    (v : Volume) (name : String) (n : ℤ) (profile : String)
    → v.name ≡ some name
    → name ≢ ""
    → v.volume_id ≢ ""
    → v.capacity ≡ some n
    → is_capacity n ≡ true
    → v.profile ≡ some profile
    → v.status ≡ "available"
    → volume_info (some v) ≡ ok (info_of v name n profile)
unfolding volume_info complete available_info
volume_info_found v name n profile e named native f fits g up =
    ground (arith, eq_iff name "", eq_iff v.volume_id "", eq_iff v.status "available")
