-- ===== src/Provider/Specification.antt =====
-- What a provider's CreateVolume, DeleteVolume and ExpandVolume promise, as operations on the sizes
-- in GiB of the disks that exist. A cloud rounds a size when it makes a disk and when it expands
-- one, and knows the disk of a volume by a name.
use caa_csi_block_driver.Prelude.{
  ℤ, le_int, String, ◌≡◌, sym, refl, inl, inr, Option, none, some, List, [], ◌∷◌, Bool-cases, ◌==◌,
  eq_iff, if◌then◌else◌,
}

abbrev pub Disks : Type 0
Disks = String → Option ℤ

-- A size, or no disk, under a name.
abbrev pub put : String → Option ℤ → Disks → Disks
put name size d other = if name == other then size else d other

pub data Op : Type 0 where
  create : String → ℤ → Op
  delete : String → Op
  expand : String → ℤ → Op

-- The larger of two sizes.
abbrev pub enlarged : ℤ → ℤ → ℤ
enlarged n size = if le_int n size then size else n

abbrev pub map_size : (ℤ → ℤ) → Option ℤ → Option ℤ
map_size f none = none
map_size f (some n) = some (f n)

abbrev pub or_else : ℤ → Option ℤ → Option ℤ
or_else n none = some n
or_else n (some m) = some m

module _ (round_new round_grown : ℤ → ℤ) (name : String → String) where
  -- A volume that is there keeps its size when it is created again, and none ever shrinks.
  unfoldable pub specified : Op → Disks → Disks
  specified (create v n) d w = if name v == w then or_else (round_new n) (d w) else d w
  specified (delete v) d w = if name v == w then none else d w
  specified (expand v n) d w =
      if name v == w then map_size (enlarged (round_grown n)) (d w) else d w

  unfoldable pub specified_all : List Op → Disks → Disks
  specified_all [] d = d
  specified_all (op ∷ ops) d = specified_all ops (specified op d)

-- Two operations on one disk that agree on it.
pub agree_at :
    (v w : String) (d : Disks) (f g : Option ℤ → Option ℤ)
    → f (d v) ≡ g (d v)
    → (if v == w then f (d w) else d w) ≡ (if v == w then g (d w) else d w)
agree_at v w d f g e = elim (Bool-cases (v == w)) [
  | inl same ↦ rw same (rw (← (eq_iff v w).0 same) e)
  | inr differ ↦ rw differ refl
]

-- An operation that leaves its disk alone.
pub idle_at :
    (v w : String) (d : Disks) (f : Option ℤ → Option ℤ)
    → f (d v) ≡ d v
    → d w ≡ (if v == w then f (d w) else d w)
idle_at v w d f e = elim (Bool-cases (v == w)) [
  | inl same ↦ rw same (rw (← (eq_iff v w).0 same) (sym e))
  | inr differ ↦ rw differ refl
]
