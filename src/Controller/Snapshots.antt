-- ===== src/Controller/Snapshots.antt =====
-- CreateSnapshot, DeleteSnapshot and ListSnapshots of pkg/driver/controllerserver.go. The response
-- message csi.Snapshot has the fields of a SnapshotInfo (its time as a timestamp of that second).
pub mod Outcomes
pub mod Paging
use caa_csi_block_driver.Prelude.{
  ℕ, zero, suc, ◌+◌, ℤ, pos, negsuc, String, Bool, false, not, ◌&&◌, leb, Option, none, some, List,
  [], ◌∷◌, ◌==◌, if◌then◌else◌,
}
use caa_csi_block_driver.GoMap.{Params, entries}
use caa_csi_block_driver.Result.{
  Result, ok, err, panic, invalid_argument, already_exists, failed_precondition, internal,
  unimplemented,
}
use caa_csi_block_driver.Provider.{SnapshotInfo, VolumeSnapshotter, new_block_volume_provider}
use caa_csi_block_driver.Platform.{VolumeRecord}
use caa_csi_block_driver.Action.{pure, fail, reject_if, ◌>>=◌, ◌>>◌}
use caa_csi_block_driver.Server.{Setup, Handler, gets, call}
use caa_csi_block_driver.Store.{bootstrap_params}
use caa_csi_block_driver.Controller.{find_volume, volume_lookup_status, resolve_provider_params}

pub record CreateSnapshotRequest : Type 0 where
  pub source_volume_id : String
  pub name : String

pub record DeleteSnapshotRequest : Type 0 where
  pub snapshot_id : String
  pub secrets : Option Params

pub record ListSnapshotsRequest : Type 0 where
  pub source_volume_id : String
  pub snapshot_id : String
  pub max_entries : ℤ
  pub starting_token : String

pub record ListSnapshotsResponse : Type 0 where
  pub entries : List SnapshotInfo
  pub next_token : String

abbrev pub no_snapshots : ListSnapshotsResponse
no_snapshots = record { entries = []; next_token = "" }

-- len(entries) >= maxEntries, where maxEntries > 0
abbrev pub is_full : ℤ → ℕ → Bool
is_full (pos zero) count = false
is_full (pos (suc n)) count = leb (suc n) count
is_full (negsuc n) count = false

-- snapInfos[i:]
unfoldable pub drop {ℓ} : {A : Type ℓ} → ℕ → List A → List A
drop zero xs = xs
drop (suc n) [] = []
drop (suc n) (x ∷ xs) = drop n xs

abbrev pub Page : Type 0
Page = List SnapshotInfo × Option ℕ

-- The loop of ListSnapshots from index i, over what is left of the list, with the number of entries
-- so far. The second part is the index of the next page, if the loop returned early.
unfoldable pub page_loop : ℤ → ℕ → ℕ → List SnapshotInfo → Page
page_loop max_entries count i [] = ([], none)
page_loop max_entries count i (s ∷ rest) =
    let (es, next) = page_loop max_entries (count + 1) (i + 1) rest in
    if is_full max_entries count then ([], some i) else (s ∷ es, next)

-- The loop from a start index; a negative one is out of range.
unfoldable pub snapshot_page : ℤ → ℤ → List SnapshotInfo → Option Page
unfolding page_loop drop
snapshot_page max_entries (negsuc n) infos = none
snapshot_page max_entries (pos i) infos = some (page_loop max_entries 0 i (drop i infos))

module _ (S : Setup) where
  with_snapshotter :
      {A : Type 0}
      → Option (VolumeSnapshotter S.Cloud)
      → Handler S A
      → (VolumeSnapshotter S.Cloud → Handler S A)
      → Handler S A
  with_snapshotter none missing use_it = missing
  with_snapshotter (some snapshotter) missing use_it = use_it snapshotter

  -- What CreateSnapshot does with the snapshot that already has the name.
  create_unless_found :
      CreateSnapshotRequest
      → VolumeSnapshotter S.Cloud
      → Option SnapshotInfo
      → Handler S SnapshotInfo
  create_unless_found req snapshotter (some existing) = do
    reject_if (not (existing.source_volume_id == req.source_volume_id)) already_exists
    pure existing
  create_unless_found req snapshotter none = do
    info ← call S internal (snapshotter.create_snapshot req.source_volume_id req.name)
    pure (record info { source_volume_id = req.source_volume_id })

  snapshot_found : CreateSnapshotRequest → Result VolumeRecord → Handler S SnapshotInfo
  unfolding with_snapshotter create_unless_found
  snapshot_found req (err e) = fail (volume_lookup_status e)
  snapshot_found req (ok rec) = do
    p ← call S internal (new_block_volume_provider S.registry (entries rec.params))
    with_snapshotter p.snapshotter (fail unimplemented) λ snapshotter. do
      existing ← call S internal (snapshotter.find_snapshot req.name)
      create_unless_found req snapshotter existing

  unfoldable pub create_snapshot : CreateSnapshotRequest → Handler S SnapshotInfo
  unfolding snapshot_found ◌>>=◌ call
  create_snapshot req = do
    reject_if (req.source_volume_id == "") invalid_argument
    reject_if (req.name == "") invalid_argument
    found ← find_volume S req.source_volume_id
    snapshot_found req found

  delete_with : String → Option Params → Handler S (Unit {0})
  unfolding with_snapshotter
  delete_with snapshot_id none = fail failed_precondition
  delete_with snapshot_id (some params) = do
    p ← call S internal (new_block_volume_provider S.registry params)
    with_snapshotter p.snapshotter (fail unimplemented)
        λ snapshotter. call S internal (snapshotter.delete_snapshot snapshot_id)

  unfoldable pub delete_snapshot : DeleteSnapshotRequest → Handler S (Unit {0})
  unfolding delete_with ◌>>=◌ call
  delete_snapshot req = do
    reject_if (req.snapshot_id == "") invalid_argument
    params ← gets S (resolve_provider_params S req.secrets)
    delete_with req.snapshot_id params

  -- A source volume's record may hold no parameters at all.
  params_of_source : Result VolumeRecord → Handler S (Option Params)
  params_of_source (err e) = fail (volume_lookup_status e)
  params_of_source (ok rec) = pure rec.params

  source_params : String → Handler S (Option Params)
  unfolding params_of_source
  source_params source_volume_id =
      if source_volume_id == ""
      then gets S (bootstrap_params S.platform S.dir)
      else (do found ← find_volume S source_volume_id; params_of_source found)

  -- The response to a request for one snapshot.
  only_snapshot : String → Option SnapshotInfo → ListSnapshotsResponse
  only_snapshot source none = no_snapshots
  only_snapshot source (some snap) =
      if not (source == "") && not (snap.source_volume_id == source)
      then no_snapshots
      else record { entries = snap ∷ []; next_token = "" }

  abbrev pub token_of : Option ℕ → String
  token_of none = ""
  token_of (some i) = S.platform.itoa i

  respond_page : Option Page → Handler S ListSnapshotsResponse
  respond_page none w = (panic, w)
  respond_page (some (es, next)) w = pure (record { entries = es; next_token = token_of next }) w

  start_at : Option ℤ → Handler S ℤ
  start_at none = fail invalid_argument
  start_at (some i) = pure i

  -- The page of the listed snapshots that a request asks for.
  unfoldable pub list_page :
      ListSnapshotsRequest → List SnapshotInfo → Handler S ListSnapshotsResponse
  unfolding respond_page start_at
  list_page req infos = do
    start ←
        if req.starting_token == ""
        then pure (pos 0)
        else start_at (S.platform.parse_int req.starting_token)
    respond_page (snapshot_page req.max_entries start infos)

  list_from : ListSnapshotsRequest → VolumeSnapshotter S.Cloud → Handler S ListSnapshotsResponse
  unfolding list_page only_snapshot
  list_from req snapshotter =
      if req.snapshot_id == ""
      then (do
        infos ← call S internal (snapshotter.list_snapshots req.source_volume_id)
        list_page req infos)
      else (do
        found ← call S internal (snapshotter.find_snapshot req.snapshot_id)
        pure (only_snapshot req.source_volume_id found))

  list_with : ListSnapshotsRequest → Option Params → Handler S ListSnapshotsResponse
  unfolding with_snapshotter list_from
  list_with req none = pure no_snapshots
  list_with req (some params) = do
    p ← call S internal (new_block_volume_provider S.registry params)
    with_snapshotter p.snapshotter (pure no_snapshots) (list_from req)

  unfoldable pub list_snapshots : ListSnapshotsRequest → Handler S ListSnapshotsResponse
  unfolding source_params list_with ◌>>=◌ call
  list_snapshots req = do params ← source_params req.source_volume_id; list_with req params
