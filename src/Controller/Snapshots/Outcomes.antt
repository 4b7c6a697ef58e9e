-- ===== src/Controller/Snapshots/Outcomes.antt =====
-- What CreateSnapshot returns.
use caa_csi_block_driver.Prelude.{◌≡◌, arith, eq_iff}
use caa_csi_block_driver.Result.{done}
use caa_csi_block_driver.Provider.{SnapshotInfo}
use caa_csi_block_driver.Server.{Setup, World}
use caa_csi_block_driver.Controller.Snapshots.{CreateSnapshotRequest, create_snapshot}

module _ (S : Setup) where
  -- A snapshot that CreateSnapshot reports is of the volume that the request names, whether the
  -- snapshot was there or is new.
  create_snapshot-source :
      (req : CreateSnapshotRequest) (w w' : World S) (snap : SnapshotInfo)
      → create_snapshot S req w ≡ (done snap, w')
      → snap.source_volume_id ≡ req.source_volume_id
  unfolding create_snapshot
  create_snapshot-source req w w' snap h = grind (arith, eq_iff)
