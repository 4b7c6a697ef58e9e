-- ===== src/Node/History.antt =====
-- A node server over any history of its calls. `NodeGetInfo` gives up the mutex while it resolves the
-- topology, so its last part is a step of its own that may come at any time.
pub mod Staging
use caa_csi_block_driver.Prelude.{
  String, ◌≡◌, ◌≢◌, refl, Option, none, some, arith, eq_iff, Bool, true, false,
}
use caa_csi_block_driver.GoMap.{Params, lookup, get, set, erase, lookup-set, lookup-erase}
use caa_csi_block_driver.Result.{
  Result, Code, Reply, done, status, failed_precondition, invalid_argument,
}
use caa_csi_block_driver.Action.{Action, ◌>>=◌}
use caa_csi_block_driver.Node.{NodeSetup, NodeState, NodeHandler}
use caa_csi_block_driver.Node.Stage.{
  NodeStageVolumeRequest, NodeUnstageVolumeRequest, NodeExpandVolumeRequest, node_stage_volume,
  node_unstage_volume, node_expand_volume,
}
use caa_csi_block_driver.Node.Publish.{
  NodePublishVolumeRequest, node_publish_volume, node_unpublish_volume,
}
use caa_csi_block_driver.Node.Stats.{
  NodeGetVolumeStatsRequest, node_get_volume_stats, volume_stats_local,
}
use caa_csi_block_driver.Node.Info.{commit_topology, node_get_info}

module _ (S : NodeSetup) where
  -- A call of the node service, whole, or the last part of a NodeGetInfo.
  pub data Call : Type 0 where
    stage : NodeStageVolumeRequest → Call
    unstage : NodeUnstageVolumeRequest → Call
    publish : NodePublishVolumeRequest → Call
    unpublish : String → Call
    expand : NodeExpandVolumeRequest → Call
    stats : NodeGetVolumeStatsRequest → Call
    info : String → Call
    commit : Option Params → Call

  unfoldable pub after : Call → NodeState S → NodeState S
  after (stage req) w = (node_stage_volume S req w).1
  after (unstage req) w = (node_unstage_volume S req w).1
  after (publish req) w = (node_publish_volume S req w).1
  after (unpublish path) w = (node_unpublish_volume S path w).1
  after (expand req) w = (node_expand_volume S req w).1
  after (stats req) w = (node_get_volume_stats S req w).1
  after (info node_id) w = (node_get_info S node_id w).1
  after (commit resolved) w = (commit_topology S resolved w).1

  pub data Reach (w : NodeState S) : NodeState S → Type 0 where
    here : Reach w w
    next : {u : NodeState S} → Reach w u → (c : Call) → Reach w (after c u)

  topo-stats :
      (req : NodeGetVolumeStatsRequest) (w : NodeState S) (topo : Params)
      → w.topo ≡ some topo
      → (node_get_volume_stats S req w).1.topo ≡ some topo
  unfolding node_get_volume_stats volume_stats_local
  topo-stats req w topo h = ground arith

  -- No call changes a topology that is known.
  topo-after :
      (c : Call) (w : NodeState S) (topo : Params)
      → w.topo ≡ some topo
      → (after c w).topo ≡ some topo
  unfolding after
  topo-after (stage req) w topo h = unfold node_stage_volume in ground arith
  topo-after (unstage req) w topo h = unfold node_unstage_volume in ground arith
  topo-after (publish req) w topo h = unfold node_publish_volume in ground arith
  topo-after (unpublish path) w topo h = unfold node_unpublish_volume in ground arith
  topo-after (expand req) w topo h = unfold node_expand_volume in ground arith
  topo-after (stats req) w topo h = topo-stats req w topo h
  topo-after (info node_id) w topo h = unfold node_get_info in ground arith
  topo-after (commit none) w topo h = unfold commit_topology in ground arith
  topo-after (commit (some t)) w topo h = unfold commit_topology in ground arith

  topo-Reach :
      (w u : NodeState S) (topo : Params) → w.topo ≡ some topo → Reach w u → u.topo ≡ some topo
  topo-Reach w u topo h here = h
  topo-Reach w u topo h (next {u = v} r c) = topo-after c v topo (topo-Reach w v topo h r)

  node_get_info-known :
      (node_id : String) (w : NodeState S) (topo : Params)
      → (node_get_info S node_id w).0 ≡ done topo
      → (node_get_info S node_id w).1.topo ≡ some topo
  unfolding node_get_info
  node_get_info-known node_id w topo h = ground arith

  node_get_info-of_known :
      (node_id : String) (w : NodeState S) (topo : Params)
      → w.topo ≡ some topo
      → node_get_info S node_id w ≡ (done topo, w)
  unfolding node_get_info
  node_get_info-of_known node_id w topo h = ground arith

  -- After a NodeGetInfo that was answered, every later one gives the same topology, whatever calls
  -- come between, also the late ends of other NodeGetInfo calls.
  pub node_get_info-stable :
      (node_id : String) (w u : NodeState S) (topo : Params)
      → (node_get_info S node_id w).0 ≡ done topo
      → Reach (node_get_info S node_id w).1 u
      → node_get_info S node_id u ≡ (done topo, u)
  node_get_info-stable node_id w u topo h r =
      node_get_info-of_known node_id u topo
        (topo-Reach (node_get_info S node_id w).1 u topo (node_get_info-known node_id w topo h) r)
