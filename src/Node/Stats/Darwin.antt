-- ===== src/Node/Stats/Darwin.antt =====
-- getVolumeStatsLocal of pkg/driver/stats_darwin.go, where Statfs_t has no Frsize.
use caa_csi_block_driver.Prelude.{String, ◌≡◌, refl, ap, ◌⊎◌, inl, inr, Option, List, arith}
use caa_csi_block_driver.Result.{internal, Result, ok, err}
use caa_csi_block_driver.Action.{reply_of}
use caa_csi_block_driver.Node.{VolumeUsage, Statfs, NodeSetup, NodeState, NodeHandler}
use caa_csi_block_driver.Node.Stats.{
  usage_in_blocks, some_each, usage_of, block_size, local_usage, volume_stats_local,
}

darwin_usage : Statfs → List VolumeUsage
unfolding usage_in_blocks
darwin_usage s = usage_in_blocks s.bsize s

darwin_stats_local : (S : NodeSetup) → String → NodeHandler S (List (Option VolumeUsage))
unfolding usage_of darwin_usage reply_of
darwin_stats_local S volume_path w =
    (reply_of internal (usage_of darwin_usage (S.statfs volume_path w.cloud)), w)

-- The two platforms report the same of a file system whose Frsize is zero or its Bsize.
darwin_usage_lem :
    (s : Statfs) → (s.frsize ≡ 0) ⊎ (s.frsize ≡ s.bsize) → darwin_usage s ≡ local_usage s
unfolding darwin_usage local_usage block_size
darwin_usage_lem s (inl h) = rw h refl
darwin_usage_lem s (inr h) = ground arith

usage_of-darwin_usage :
    (r : Result Statfs)
    → ((s : Statfs) → r ≡ ok s → (s.frsize ≡ 0) ⊎ (s.frsize ≡ s.bsize))
    → usage_of darwin_usage r ≡ usage_of local_usage r
unfolding usage_of
usage_of-darwin_usage (err e) same = refl
usage_of-darwin_usage (ok s) same =
    ap (λ usage. ok (some_each usage)) (darwin_usage_lem s (same s refl))

-- So NodeGetVolumeStats falls back to the same answer on both, where the path is on such a file system
-- or statfs fails.
darwin_stats_local_lem :
    (S : NodeSetup) (volume_path : String) (w : NodeState S)
    → ((s : Statfs) → S.statfs volume_path w.cloud ≡ ok s → (s.frsize ≡ 0) ⊎ (s.frsize ≡ s.bsize))
    → darwin_stats_local S volume_path w ≡ volume_stats_local S volume_path w
unfolding darwin_stats_local volume_stats_local
darwin_stats_local_lem S volume_path w same =
    ap (λ r. (reply_of internal r, w)) (usage_of-darwin_usage (S.statfs volume_path w.cloud) same)
