-- ===== src/Node/Stats/Laws.antt =====
-- The statistics of a volume add up, and those of kata-runtime are passed on only if they say
-- something.
use caa_csi_block_driver.Prelude.{
  ℕ, ◌+◌, ◌-◌, ◌*◌, ◌%◌, ◌^◌, ◌≤◌, ◌<◌, pos, String, ◌≡◌, refl, true, Option, List, [], ◌∷◌, arith,
  ◌↔◌,
}
use caa_csi_block_driver.Result.{ok}
use caa_csi_block_driver.Node.{bytes, inodes, VolumeUsage, Statfs, NodeSetup}
use caa_csi_block_driver.Node.Stats.{
  int64, usage_in_blocks, block_size, local_usage, sub_u64, has_known_unit, parse_kata_volume_stats,
}

-- A file system whose numbers fit an int64 and are consistent.
pub record IsSound (s : Statfs) : Type 0 where
  pub fits : s.blocks * block_size s < 2 ^ 63
  pub blocks_fit : s.blocks < 2 ^ 63
  pub free : s.bfree ≤ s.blocks
  pub available : s.bavail ≤ s.bfree
  pub inode_fits : s.inode_count < 2 ^ 63
  pub inode_free : s.ffree ≤ s.inode_count

int64-small : (n : ℕ) → n < 2 ^ 63 → int64 n ≡ pos n
unfolding int64
int64-small n h = let e : n % 2 ^ 64 ≡ n = omega arith in rw e (ground arith)

sub_u64-le : (a b : ℕ) → b ≤ a → a < 2 ^ 64 → sub_u64 a b ≡ a - b
sub_u64-le a b h k = omega arith

-- A product of two numbers that are at most others.
mul_mono : (a b c : ℕ) → a ≤ b → a * c ≤ b * c
mul_mono a b c h = grind arith

split_product : (a b c : ℕ) → b ≤ a → (a - b) * c + b * c ≡ a * c
split_product a b c h = let d : ℕ = a - b in let e : a ≡ d + b = omega arith in grind arith

sub_of_small : (a b : ℕ) → b ≤ a → a < 2 ^ 63 → sub_u64 a b ≡ a - b
sub_of_small a b h k = sub_u64-le a b h (omega arith)

-- On a sound file system the bytes in use and those that are free make up the total, the available
-- ones are among the free ones, and no value wraps around. So it is with the inodes.
pub local_usage-IsSound :
    (s : Statfs)
    → IsSound s
    → (local_usage s
        ≡ record {
          available = pos (s.bavail * block_size s);
          total = pos (s.blocks * block_size s);
          used = pos ((s.blocks - s.bfree) * block_size s);
          unit = bytes;
        }
          ∷ record {
            available = pos s.ffree;
            total = pos s.inode_count;
            used = pos (s.inode_count - s.ffree);
            unit = inodes;
          }
          ∷ [])
      × ((s.blocks - s.bfree) * block_size s + s.bfree * block_size s ≡ s.blocks * block_size s)
      × (s.bavail * block_size s ≤ s.bfree * block_size s)
      × (s.inode_count - s.ffree + s.ffree ≡ s.inode_count)
unfolding local_usage usage_in_blocks
local_usage-IsSound s h =
    let bs = block_size s in
    let split = split_product s.blocks s.bfree bs h.free in
    let avail = mul_mono s.bavail s.bfree bs h.available in
    let used = sub_of_small s.inode_count s.ffree h.inode_free h.inode_fits in
    let used_bytes = sub_of_small s.blocks s.bfree h.free h.blocks_fit in
    let available_fits : s.bavail * bs < 2 ^ 63 =
      omega (arith, mul_mono s.bavail s.blocks bs (omega arith)) in
    let used_fits : (s.blocks - s.bfree) * bs < 2 ^ 63 = omega arith in
    (
      rw
          (
            int64-small (s.bavail * bs) available_fits,
            int64-small (s.blocks * bs) h.fits,
            used_bytes,
            int64-small ((s.blocks - s.bfree) * bs) used_fits,
            int64-small s.ffree (omega arith),
            int64-small s.inode_count h.inode_fits,
            used,
            int64-small (s.inode_count - s.ffree) (omega arith),
          )
          refl,
      split,
      avail,
      omega arith,
    )

-- Output of kata-runtime is accepted exactly when it parses and one of its entries is in bytes or
-- inodes.
parse_kata_volume_stats_iff :
    (S : NodeSetup) (out : String) (usage : List (Option VolumeUsage))
    → (parse_kata_volume_stats S out ≡ ok usage)
      ↔ ((S.unmarshal_usage out ≡ ok usage) × (has_known_unit usage ≡ true))
unfolding parse_kata_volume_stats has_known_unit
parse_kata_volume_stats_iff S out usage = ground arith
