-- ===== src/Tests/ServiceTests.antt =====
-- The theorems on the paging of snapshots at concrete inputs.
use caa_csi_block_driver.Prelude.{arith, pos, String, ◌≡◌, refl, true, some, List, [], ◌∷◌}
use caa_csi_block_driver.Provider.{SnapshotInfo}
use caa_csi_block_driver.Controller.Snapshots.{ListSnapshotsRequest}
use caa_csi_block_driver.Tests.Cloud.{setup, fresh}
use caa_csi_block_driver.Controller.Snapshots.Paging.{PrintsIndices, follow_pages, follow_pages_lem}
use caa_csi_block_driver.Tests.Numbers.{parse_int-itoa, itoa-nonempty}

prints : PrintsIndices setup
prints = record { roundtrip = λ i small. parse_int-itoa i; nonempty = itoa-nonempty }

abbrev snapshot_named : String → SnapshotInfo
snapshot_named id = record {
  snapshot_id = id;
  source_volume_id = "pvc-1";
  size_bytes = pos 4096;
  creation_time = pos 0;
  ready_to_use = true;
}

abbrev snapshots : List SnapshotInfo
snapshots = snapshot_named "a" ∷ snapshot_named "b" ∷ snapshot_named "c" ∷ []

abbrev list_request : String → ListSnapshotsRequest
list_request token = record {
  source_volume_id = "pvc-1";
  snapshot_id = "";
  max_entries = pos 2;
  starting_token = token;
}

follow_pages_lem_example : follow_pages setup 4 (list_request "") snapshots fresh ≡ some snapshots
follow_pages_lem_example =
    follow_pages_lem setup prints 1 (list_request "") snapshots fresh refl refl (omega arith)
