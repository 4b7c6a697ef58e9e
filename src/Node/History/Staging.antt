-- ===== src/Node/History/Staging.antt =====
-- What a node server publishes has been staged on it.
use caa_csi_block_driver.Prelude.{
  String, ◌≡◌, ◌≢◌, refl, ap, ◌⊎◌, inl, inr, Option, none, some, [], arith, eq_iff, Bool-cases,
  ◌==◌,
}
use caa_csi_block_driver.GoMap.{Params, lookup, get, lookup-erase, get-set_ne}
use caa_csi_block_driver.Result.{Reply, done, status, panic}
use caa_csi_block_driver.Node.{NodeSetup, NodeState}
use caa_csi_block_driver.Node.Stage.{
  NodeStageVolumeRequest, NodeUnstageVolumeRequest, NodeExpandVolumeRequest, node_stage_volume,
  node_unstage_volume, node_expand_volume,
}
use caa_csi_block_driver.Node.Publish.{
  NodePublishVolumeRequest, node_publish_volume, node_unpublish_volume,
}
use caa_csi_block_driver.Node.Stats.{
  NodeGetVolumeStatsRequest, node_get_volume_stats, volume_stats_local,
}
use caa_csi_block_driver.Node.Info.{commit_topology, node_get_info}
use caa_csi_block_driver.Node.History.{
  Call, Reach, stage, unstage, publish, unpublish, expand, stats, info, commit, here, next, after,
}

is_done_or_not : (r : Reply (Unit {0})) → (r ≡ done tt) ⊎ (¬ (r ≡ done tt))
is_done_or_not (done u) = inl refl
is_done_or_not (status c) = inr (λ e. cc)
is_done_or_not panic = inr (λ e. cc)

module _ (S : NodeSetup) where
  -- Staging changes the device of its own volume only.
  device-stage :
      (req : NodeStageVolumeRequest) (w : NodeState S) (id : String)
      → req.volume_id ≢ id
      → get (node_stage_volume S req w).1.devices id ≡ get w.devices id
  unfolding node_stage_volume
  device-stage req w id ne = grind (arith, get-set_ne w.devices req.volume_id id ne)

  -- A staging that is not accepted changes no device.
  devices-stage_refused :
      (req : NodeStageVolumeRequest) (w : NodeState S)
      → ¬ ((node_stage_volume S req w).0 ≡ done tt)
      → (node_stage_volume S req w).1.devices ≡ w.devices
  unfolding node_stage_volume
  devices-stage_refused req w refused = ground arith

  device-unstage :
      (req : NodeUnstageVolumeRequest) (w : NodeState S) (id : String)
      → get w.devices id ≡ ""
      → get (node_unstage_volume S req w).1.devices id ≡ ""
  unfolding node_unstage_volume
  device-unstage req w id none_before =
      ground (arith, lookup-erase w.devices req.volume_id id, eq_iff req.volume_id id)

  device-unstage_self :
      (req : NodeUnstageVolumeRequest) (w : NodeState S)
      → (node_unstage_volume S req w).0 ≡ done tt
      → get (node_unstage_volume S req w).1.devices req.volume_id ≡ ""
  unfolding node_unstage_volume
  device-unstage_self req w accepted = ground (
    arith,
    lookup-erase w.devices req.volume_id req.volume_id,
    eq_iff req.volume_id req.volume_id,
  )

  devices-publish :
      (req : NodePublishVolumeRequest) (w : NodeState S)
      → (node_publish_volume S req w).1.devices ≡ w.devices
  unfolding node_publish_volume
  devices-publish req w = ground arith

  devices-unpublish :
      (path : String) (w : NodeState S) → (node_unpublish_volume S path w).1.devices ≡ w.devices
  unfolding node_unpublish_volume
  devices-unpublish path w = ground arith

  devices-expand :
      (req : NodeExpandVolumeRequest) (w : NodeState S)
      → (node_expand_volume S req w).1.devices ≡ w.devices
  unfolding node_expand_volume
  devices-expand req w = ground arith

  devices-stats :
      (req : NodeGetVolumeStatsRequest) (w : NodeState S)
      → (node_get_volume_stats S req w).1.devices ≡ w.devices
  unfolding node_get_volume_stats volume_stats_local
  devices-stats req w = ground arith

  devices-info :
      (node_id : String) (w : NodeState S) → (node_get_info S node_id w).1.devices ≡ w.devices
  unfolding node_get_info
  devices-info node_id w = ground arith

  devices-commit :
      (resolved : Option Params) (w : NodeState S)
      → (commit_topology S resolved w).1.devices ≡ w.devices
  unfolding commit_topology
  devices-commit none w = refl
  devices-commit (some t) w = ground arith

  -- A call that stages a volume, and is accepted.
  abbrev pub Stages : String → NodeState S → Call S → Type 0
  Stages id w (stage req) = (req.volume_id ≡ id) × ((node_stage_volume S req w).0 ≡ done tt)
  Stages id w _ = ⊥

  -- A call that unstages a volume, and is accepted.
  abbrev pub Unstages : String → NodeState S → Call S → Type 0
  Unstages id w (unstage req) = (req.volume_id ≡ id) × ((node_unstage_volume S req w).0 ≡ done tt)
  Unstages id w _ = ⊥

  -- Whether a staging of a volume was accepted in a history, and no later unstaging of it was accepted.
  abbrev pub IsStaged : {w u : NodeState S} → String → Reach S w u → Type 0
  IsStaged id here = ⊥
  IsStaged id (next {u = v} r c) = Stages id v c ⊎ ((¬ Unstages id v c) × IsStaged id r)

  -- A device that is known after a call was known before, or the call staged its volume and was accepted.
  abbrev Explained : String → NodeState S → Call S → Type 0
  Explained id w c = Stages id w c ⊎ ((¬ Unstages id w c) × (get w.devices id ≢ ""))

  Explained-by_same :
      (id : String) (w : NodeState S) (devices : Params) (c : Call S)
      → ¬ Unstages id w c
      → devices ≡ w.devices
      → get devices id ≢ ""
      → Explained id w c
  Explained-by_same id w devices c keeps same known = inr (keeps, rw same at known)

  device-after :
      (id : String) (w : NodeState S) (c : Call S)
      → get (after S c w).devices id ≢ ""
      → Explained id w c
  unfolding after
  device-after id w (stage req) known = elim (Bool-cases (req.volume_id == id)) [
    | inl same ↦ elim (is_done_or_not (node_stage_volume S req w).0) [
      | inl accepted ↦ inl ((eq_iff req.volume_id id).0 same, accepted)
      | inr refused ↦
          Explained-by_same id w _ (stage req) (λ no. no) (devices-stage_refused req w refused)
            known
    ]
    | inr differs ↦
        let ne : req.volume_id ≢ id = λ e. cc (differs, (eq_iff req.volume_id id).1 e) in
        inr (λ no. no, rw (device-stage req w id ne) at known)
  ]
  device-after id w (unstage req) known = inr (
    λ (same, accepted). known (rw (← same) (device-unstage_self req w accepted)),
    λ gone. known (device-unstage req w id gone),
  )
  device-after id w (publish req) known =
      Explained-by_same id w _ (publish req) (λ no. no) (devices-publish req w) known
  device-after id w (unpublish path) known =
      Explained-by_same id w _ (unpublish path) (λ no. no) (devices-unpublish path w) known
  device-after id w (expand req) known =
      Explained-by_same id w _ (expand req) (λ no. no) (devices-expand req w) known
  device-after id w (stats req) known =
      Explained-by_same id w _ (stats req) (λ no. no) (devices-stats req w) known
  device-after id w (info node_id) known =
      Explained-by_same id w _ (info node_id) (λ no. no) (devices-info node_id w) known
  device-after id w (commit resolved) known =
      Explained-by_same id w _ (commit resolved) (λ no. no) (devices-commit resolved w) known

  -- A device that is known after a history from none is that of a volume that is staged.
  IsStaged-device :
      (id : String) {w u : NodeState S} (r : Reach S w u)
      → w.devices ≡ []
      → get u.devices id ≢ ""
      → IsStaged id r
  unfolding lookup
  IsStaged-device id here empty known = known (ap (λ (m : Params). get m id) empty)
  IsStaged-device id (next {u = v} r c) empty known = elim (device-after id v c known) [
    | inl staged ↦ inl staged
    | inr (keeps, before) ↦ inr (keeps, IsStaged-device id r empty before)
  ]

  publish-device :
      (req : NodePublishVolumeRequest) (w : NodeState S)
      → (node_publish_volume S req w).0 ≡ done tt
      → get w.devices req.volume_id ≢ ""
  unfolding node_publish_volume
  publish-device req w h = ground (arith, eq_iff (get w.devices req.volume_id) "")

  -- On a node server that started with no devices, a volume is published only if a staging of it was
  -- accepted before, and no later unstaging of it was.
  pub publish-IsStaged :
      (req : NodePublishVolumeRequest) {w u : NodeState S} (r : Reach S w u)
      → w.devices ≡ []
      → (node_publish_volume S req u).0 ≡ done tt
      → IsStaged req.volume_id r
  publish-IsStaged req {u} r empty h =
      IsStaged-device req.volume_id r empty (publish-device req u h)
