-- ===== src/Node/Stats.antt =====
-- NodeGetVolumeStats of pkg/driver/nodeserver.go and getVolumeStatsLocal of
-- pkg/driver/stats_linux.go. int64 arithmetic wraps around.
pub mod Laws
pub mod Darwin
use caa_csi_block_driver.Prelude.{
  ℕ, ◌+◌, ◌-◌, ◌*◌, ◌%◌, ◌^◌, ℤ, pos, negsuc, ltb, nat_eq, String, Bool, true, false, ◌||◌, Option,
  none, some, List, [], ◌∷◌, ◌==◌, if◌then◌else◌,
}
use caa_csi_block_driver.Result.{
  Result, ok, err, error, invalid_argument, not_found, internal, unavailable,
}
use caa_csi_block_driver.Action.{pure, fail, reject_if, ◌>>=◌, ◌>>◌, reply_of}
use caa_csi_block_driver.Node.{
  UsageUnit, unknown_unit, bytes, inodes, VolumeUsage, Statfs, NodeSetup, NodeState, NodeHandler,
  reads, try_cloud,
}

-- The int64 with the bits of an unsigned number.
unfoldable pub int64 : ℕ → ℤ
int64 n = let m = n % 2 ^ 64 in if ltb m (2 ^ 63) then pos m else negsuc (2 ^ 64 - m - 1)

-- The bits of int64(a) - int64(b).
abbrev pub sub_u64 : ℕ → ℕ → ℕ
sub_u64 a b = (a + 2 ^ 64 - b) % 2 ^ 64

unfoldable pub block_size : Statfs → ℕ
block_size s = if nat_eq s.frsize 0 then s.bsize else s.frsize

-- The usage of a file system whose counts are in blocks of a size.
unfoldable pub usage_in_blocks : ℕ → Statfs → List VolumeUsage
usage_in_blocks size s =
    record {
      available = int64 (s.bavail * size);
      total = int64 (s.blocks * size);
      used = int64 (sub_u64 s.blocks s.bfree * size);
      unit = bytes;
    }
    ∷ record {
      available = int64 s.ffree;
      total = int64 s.inode_count;
      used = int64 (sub_u64 s.inode_count s.ffree);
      unit = inodes;
    }
    ∷ []

unfoldable pub local_usage : Statfs → List VolumeUsage
unfolding usage_in_blocks
local_usage s = usage_in_blocks (block_size s) s

is_known_unit : UsageUnit → Bool
is_known_unit unknown_unit = false
is_known_unit bytes = true
is_known_unit inodes = true

unfoldable pub has_known_unit : List (Option VolumeUsage) → Bool
unfolding is_known_unit
has_known_unit [] = false
has_known_unit (none ∷ us) = has_known_unit us
has_known_unit (some u ∷ us) = is_known_unit u.unit || has_known_unit us

checked_usage : List (Option VolumeUsage) → Result (List (Option VolumeUsage))
checked_usage [] = err (error "kata-runtime stats response contained no usage entries")
checked_usage (u ∷ us) =
    if has_known_unit (u ∷ us)
    then ok (u ∷ us)
    else err (error "kata-runtime stats response contained no BYTES/INODES usage entries")

pub record NodeGetVolumeStatsRequest : Type 0 where
  pub volume_id : String
  pub volume_path : String

pub some_each : List VolumeUsage → List (Option VolumeUsage)
some_each [] = []
some_each (u ∷ us) = some u ∷ some_each us

-- The answer of getVolumeStatsLocal, with the usage that the platform computes.
pub usage_of : (Statfs → List VolumeUsage) → Result Statfs → Result (List (Option VolumeUsage))
unfolding some_each
usage_of usage (err e) = err e
usage_of usage (ok s) = ok (some_each (usage s))

module _ (S : NodeSetup) where
  -- parseKataVolumeStats
  unfoldable pub parse_kata_volume_stats : String → Result (List (Option VolumeUsage))
  unfolding checked_usage
  parse_kata_volume_stats out = elim (S.unmarshal_usage out) [
    | err e ↦ err e
    | ok usage ↦ checked_usage usage
  ]

  -- getKataRuntimePath
  kata_runtime_path : String
  kata_runtime_path =
      let path = S.platform.getenv "KATA_RUNTIME_PATH" in
      if path == "" then "kata-runtime" else path

  parse_output : Result String → Result (List (Option VolumeUsage))
  parse_output (err e) = err e
  parse_output (ok out) = parse_kata_volume_stats out

  stats_with : Result String → String → S.Cloud → Result (List (Option VolumeUsage)) × S.Cloud
  unfolding parse_output
  stats_with (err e) volume_path cloud = (err e, cloud)
  stats_with (ok runtime) volume_path cloud =
      let (out, cloud') =
        S.run (runtime ∷ "direct-volume" ∷ "stats" ∷ "--volume-path" ∷ volume_path ∷ []) cloud in
      (parse_output out, cloud')

  -- getVolumeStatsViaRuntime
  unfoldable pub stats_via_runtime : String → S.Cloud → Result (List (Option VolumeUsage)) × S.Cloud
  unfolding kata_runtime_path stats_with
  stats_via_runtime volume_path cloud = stats_with (S.look_path kata_runtime_path) volume_path cloud

  -- getVolumeStatsLocal
  unfoldable pub volume_stats_local : String → NodeHandler S (List (Option VolumeUsage))
  unfolding usage_of reply_of
  volume_stats_local volume_path w =
      (reply_of internal (usage_of local_usage (S.statfs volume_path w.cloud)), w)

  stats_or_fallback :
      String → Result (List (Option VolumeUsage)) → NodeHandler S (List (Option VolumeUsage))
  stats_or_fallback volume_path (ok usage) = pure usage
  stats_or_fallback volume_path (err _) =
      if S.platform.getenv "CSI_ALLOW_HOST_STATS_FALLBACK" == ""
      then fail unavailable
      else volume_stats_local volume_path

  check_stat : Result (Unit {0}) → NodeHandler S (Unit {0})
  check_stat (ok _) = pure tt
  check_stat (err e) = fail (if e.is_not_exist then not_found else internal)

  unfoldable pub node_get_volume_stats :
      NodeGetVolumeStatsRequest → NodeHandler S (List (Option VolumeUsage))
  unfolding check_stat stats_or_fallback ◌>>=◌ try_cloud
  node_get_volume_stats req = do
    reject_if (req.volume_id == "") invalid_argument
    reject_if (req.volume_path == "") invalid_argument
    found ← reads S (λ (w : NodeState S). S.platform.stat w.files req.volume_path)
    check_stat found
    usage ← try_cloud S (stats_via_runtime req.volume_path)
    stats_or_fallback req.volume_path usage
