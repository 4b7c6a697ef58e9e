-- ===== src/Aws/Snapshots.antt =====
-- The snapshots of pkg/provider/aws/provider.go: CreateSnapshot, lookupEBSSnapshot,
-- findEBSSnapshotID, FindSnapshot, ebsSnapshotToInfo, safeUnix, DeleteSnapshot and ListSnapshots.
use caa_csi_block_driver.Provider.Numbers.{gib}
use caa_csi_block_driver.Prelude.{
  ℕ, ℤ, pos, scale, String, ◌<>◌, Option, none, some, List, [], ◌∷◌, ◌==◌, contains, if◌then◌else◌,
}
use caa_csi_block_driver.Result.{Result, ok, err, error, wrap}
use caa_csi_block_driver.Provider.{Call, SnapshotInfo}
use caa_csi_block_driver.Provider.Calls.{pure, fail, try, wrapping, ◌>>=◌}
use caa_csi_block_driver.Provider.Pages.{list_pages}
use caa_csi_block_driver.Aws.{
  Tag, Filter, EbsSnapshot, AwsProvider, tag, tag_filter, tag_value, volume_tag_key,
  snapshot_tag_key,
}
use caa_csi_block_driver.Aws.Volumes.{find_ebs_volume_id}

-- A time's seconds, and 0 for no time.
abbrev pub safe_unix : Option ℤ → ℤ
safe_unix none = pos 0
safe_unix (some t) = t

-- The size in bytes of a snapshot that may have none.
abbrev pub snapshot_size : Option ℤ → ℤ
snapshot_size none = pos 0
snapshot_size (some n) = scale n gib

-- The tags of a new snapshot.
unfoldable pub snapshot_tags : String → String → List Tag
snapshot_tags volume_id snapshot_id =
    tag "Name" ("csi-snap-" <> snapshot_id)
    ∷ tag snapshot_tag_key snapshot_id
    ∷ tag volume_tag_key volume_id
    ∷ []

-- The info of a snapshot that was just made.
unfoldable pub created_snapshot : String → String → EbsSnapshot → SnapshotInfo
created_snapshot volume_id snapshot_id s = record {
  snapshot_id = snapshot_id;
  source_volume_id = volume_id;
  size_bytes = snapshot_size s.volume_size;
  creation_time = safe_unix s.start_time;
  ready_to_use = s.is_completed;
}

-- ebsSnapshotToInfo, whose one loop looks at both tags
unfoldable pub ebs_snapshot_to_info : EbsSnapshot → SnapshotInfo
ebs_snapshot_to_info s = record {
  snapshot_id = tag_value snapshot_tag_key "" s.tags;
  source_volume_id = tag_value volume_tag_key "" s.tags;
  size_bytes = snapshot_size s.volume_size;
  creation_time = safe_unix s.start_time;
  ready_to_use = s.is_completed;
}

-- The filter of a listing, of one volume's snapshots or of all.
abbrev pub snapshot_filter : String → Filter
snapshot_filter volume_id =
    if volume_id == ""
    then tag_filter "tag-key" snapshot_tag_key
    else tag_filter ("tag:" <> volume_tag_key) volume_id

abbrev listed_snapshot : EbsSnapshot → Option SnapshotInfo
listed_snapshot s = some (ebs_snapshot_to_info s)

module _ {Cloud : Type 0} (p : AwsProvider Cloud) where
  open p use {ec2_client}

  unfoldable pub create_snapshot : String → String → Call Cloud SnapshotInfo
  unfolding find_ebs_volume_id ◌>>=◌ wrapping
  create_snapshot volume_id snapshot_id = do
    ebs_id ← wrapping "cannot find EBS volume for snapshot" (find_ebs_volume_id p volume_id)
    s ←
        wrapping "ec2.CreateSnapshot failed"
          (ec2_client.create_snapshot ebs_id (snapshot_tags volume_id snapshot_id))
    pure (created_snapshot volume_id snapshot_id s)

  only_snapshot : String → List EbsSnapshot → Call Cloud (Option EbsSnapshot)
  only_snapshot snapshot_id [] = pure none
  only_snapshot snapshot_id (s ∷ []) = pure (some s)
  only_snapshot snapshot_id (s ∷ t ∷ ss) =
      fail (error ("ambiguous: found snapshots with tag caa-csi-snapshot-id=" <> snapshot_id))

  unfoldable pub lookup_ebs_snapshot : String → Call Cloud (Option EbsSnapshot)
  unfolding only_snapshot ◌>>=◌ wrapping
  lookup_ebs_snapshot snapshot_id = do
    snaps ←
        wrapping "ec2.DescribeSnapshots failed"
          (ec2_client.describe_snapshots (tag_filter "tag:caa-csi-snapshot-id" snapshot_id))
    only_snapshot snapshot_id snaps

  snapshot_id_of : String → Option EbsSnapshot → Call Cloud String
  snapshot_id_of snapshot_id none =
      fail (error ("snapshot with tag caa-csi-snapshot-id=" <> snapshot_id <> " not found"))
  snapshot_id_of snapshot_id (some s) = pure s.ebs_id

  unfoldable pub find_ebs_snapshot_id : String → Call Cloud String
  unfolding lookup_ebs_snapshot snapshot_id_of ◌>>=◌
  find_ebs_snapshot_id snapshot_id = do
    s ← lookup_ebs_snapshot snapshot_id
    snapshot_id_of snapshot_id s

  found_info : Option EbsSnapshot → Call Cloud (Option SnapshotInfo)
  found_info none = pure none
  found_info (some s) = pure (some (ebs_snapshot_to_info s))

  unfoldable pub find_snapshot : String → Call Cloud (Option SnapshotInfo)
  unfolding lookup_ebs_snapshot found_info ◌>>=◌
  find_snapshot snapshot_id = do s ← lookup_ebs_snapshot snapshot_id; found_info s

  -- A snapshot that EC2 no longer has is deleted.
  after_delete : String → Result (Unit {0}) → Call Cloud (Unit {0})
  after_delete ebs_id (ok _) = pure tt
  after_delete ebs_id (err e) =
      if e.code == "InvalidSnapshot.NotFound"
      then pure tt
      else fail (wrap ("ec2.DeleteSnapshot failed for " <> ebs_id) e)

  -- An error of the search whose text has "not found" counts as a snapshot that is not there.
  delete_looked_up : String → Result String → Call Cloud (Unit {0})
  unfolding after_delete try ◌>>=◌
  delete_looked_up snapshot_id (err e) =
      if contains e.text "not found"
      then pure tt
      else fail (wrap ("failed to look up snapshot " <> snapshot_id <> " for deletion") e)
  delete_looked_up snapshot_id (ok ebs_id) = do
    deleted ← try (ec2_client.delete_snapshot ebs_id)
    after_delete ebs_id deleted

  unfoldable pub delete_snapshot : String → Call Cloud (Unit {0})
  unfolding find_ebs_snapshot_id delete_looked_up try ◌>>=◌
  delete_snapshot snapshot_id = do
    found ← try (find_ebs_snapshot_id snapshot_id)
    delete_looked_up snapshot_id found

  unfoldable pub list_snapshots : ℕ → String → Call Cloud (List SnapshotInfo)
  unfolding wrapping
  list_snapshots pages volume_id = wrapping "ec2.DescribeSnapshots failed" (
      list_pages listed_snapshot pages (ec2_client.snapshot_pages (snapshot_filter volume_id)) none)
