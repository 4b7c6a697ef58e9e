-- ===== src/Controller/Create/Outcomes.antt =====
-- What CreateVolume returns and leaves behind.
use caa_csi_block_driver.Prelude.{
  ℤ, pos, eq_int, String, ◌≡◌, true, false, not, ◌&&◌, Option, none, some, arith, if◌then◌else◌,
  ◌∙◌, sym, ap, refl,
}
use caa_csi_block_driver.Result.{
  GoError, ok, err, Reply, done, status, invalid_argument, already_exists,
}
use caa_csi_block_driver.Action.{pure, ◌>>=◌, ◌>>◌}
use caa_csi_block_driver.Action.Post.{Ensures, Ensures-bind, Ensures-run}
use caa_csi_block_driver.Provider.{
  VolumeInfo, SnapshotInfo, VolumeCloner, VolumeSnapshotter, BlockVolumeProvider,
  new_block_volume_provider,
}
use caa_csi_block_driver.Platform.{VolumeRecord}
use caa_csi_block_driver.Server.{Setup, World, call, on_files}
use caa_csi_block_driver.Server.Frame.{KeepsFiles, KeepsFiles-call, Ensures-KeepsFiles, frame_rules}
use caa_csi_block_driver.Store.{load, save}
use caa_csi_block_driver.Controller.Create.{
  CreateVolumeRequest, VolumeContentSource, snapshot, volume, unset, Volume, provision,
  from_snapshot, from_found_snapshot, from_cloner_snapshot, from_cloner_volume, create_new,
  create_volume, is_malformed, existing_volume, created_volume, new_record, requested_capacity,
  requested_params,
}

module _ (S : Setup) where
  -- A malformed request is refused, and nothing is touched.
  pub create_volume-malformed :
      (req : CreateVolumeRequest) (w : World S)
      → is_malformed req ≡ true
      → create_volume S req w ≡ (status invalid_argument, w)
  unfolding is_malformed create_volume
  create_volume-malformed req w h = ground arith

  pub create_volume-of_load :
      (req : CreateVolumeRequest) (w : World S) (rec : VolumeRecord)
      → is_malformed req ≡ false
      → load S.platform S.dir req.name w.files ≡ ok rec
      → create_volume S req w ≡ (
          if not (eq_int rec.capacity_bytes (pos 0))
            && not (eq_int rec.capacity_bytes (requested_capacity req))
          then (status already_exists, w)
          else (done (existing_volume req rec), w))
  unfolding is_malformed create_volume
  create_volume-of_load req w rec h e = ground arith

  pub create_volume-of_missing :
      (req : CreateVolumeRequest) (w : World S) (e : GoError)
      → is_malformed req ≡ false
      → load S.platform S.dir req.name w.files ≡ err e
      → create_volume S req w ≡ create_new S req w
  unfolding is_malformed create_volume
  create_volume-of_missing req w e h l = ground arith

  from_cloner_snapshot-KeepsFiles :
      (cloner : Option (VolumeCloner S.Cloud)) (name id : String) (capacity : ℤ)
      → KeepsFiles (from_cloner_snapshot S cloner name id capacity)
  unfolding from_cloner_snapshot
  from_cloner_snapshot-KeepsFiles none name id capacity = search frame_rules
  from_cloner_snapshot-KeepsFiles (some cloner) name id capacity = search frame_rules

  from_found_snapshot-KeepsFiles :
      (found : Option SnapshotInfo) (cloner : Option (VolumeCloner S.Cloud)) (name id : String)
      (capacity : ℤ)
      → KeepsFiles (from_found_snapshot S found cloner name id capacity)
  unfolding from_found_snapshot
  from_found_snapshot-KeepsFiles none cloner name id capacity = search frame_rules
  from_found_snapshot-KeepsFiles (some _) cloner name id capacity =
      from_cloner_snapshot-KeepsFiles cloner name id capacity

  from_snapshot-KeepsFiles :
      (snapshotter : Option (VolumeSnapshotter S.Cloud)) (cloner : Option (VolumeCloner S.Cloud))
      (name id : String) (capacity : ℤ)
      → KeepsFiles (from_snapshot S snapshotter cloner name id capacity)
  unfolding from_snapshot
  from_snapshot-KeepsFiles none cloner name id capacity = search frame_rules
  from_snapshot-KeepsFiles (some snapshotter) cloner name id capacity =
      search (frame_rules, from_found_snapshot-KeepsFiles)

  from_cloner_volume-KeepsFiles :
      (cloner : Option (VolumeCloner S.Cloud)) (name id : String) (capacity : ℤ)
      → KeepsFiles (from_cloner_volume S cloner name id capacity)
  unfolding from_cloner_volume
  from_cloner_volume-KeepsFiles none name id capacity = search frame_rules
  from_cloner_volume-KeepsFiles (some cloner) name id capacity = search frame_rules

  provision-KeepsFiles :
      (p : BlockVolumeProvider S.Cloud) (name : String) (capacity : ℤ)
      (source : Option VolumeContentSource)
      → KeepsFiles (provision S p name capacity source)
  unfolding provision
  provision-KeepsFiles p name capacity none = search frame_rules
  provision-KeepsFiles p name capacity (some unset) = search frame_rules
  provision-KeepsFiles p name capacity (some (snapshot id)) =
      from_snapshot-KeepsFiles p.snapshotter p.cloner name id capacity
  provision-KeepsFiles p name capacity (some (volume id)) =
      search (frame_rules, from_cloner_volume-KeepsFiles)

  -- A volume that CreateVolume made: the provider of the request's parameters could be made, and gave
  -- an info for the request's name, capacity and content source. The response is of that info, the
  -- cloud is as the provider left it, and the files are as Save of the info's record leaves them,
  -- whether that succeeds or fails.
  pub record IsCreated (req : CreateVolumeRequest) (w : World S) (v : Volume) (w' : World S)
      : Type 0 where
    pub provider : BlockVolumeProvider S.Cloud
    pub info : VolumeInfo
    pub started : World S
    pub provisioned : World S
    pub registered :
        call S invalid_argument (new_block_volume_provider S.registry (requested_params req)) w
        ≡ (done provider, started)
    pub provides :
        provision S provider req.name (requested_capacity req) req.volume_content_source started
        ≡ (done info, provisioned)
    pub response : v ≡ created_volume req info
    pub cloud_kept : w'.cloud ≡ provisioned.cloud
    pub kept : w'.files ≡ (save S.platform S.dir (new_record req info) w.files).1

  save-IsCreated-done :
      (req : CreateVolumeRequest) (provider : BlockVolumeProvider S.Cloud) (info : VolumeInfo)
      (w t u w' : World S) (v : Volume)
      → call S invalid_argument (new_block_volume_provider S.registry (requested_params req)) w
        ≡ (done provider, t)
      → provision S provider req.name (requested_capacity req) req.volume_content_source t
        ≡ (done info, u)
      → u.files ≡ w.files
      → (on_files S (save S.platform S.dir (new_record req info)) >> pure (created_volume req info))
          u
        ≡ (done v, w')
      → IsCreated req w v w'
  unfolding on_files ◌>>=◌
  save-IsCreated-done req provider info w t u w' v registered provides same h = record {
    provider = provider;
    info = info;
    started = t;
    provisioned = u;
    registered = registered;
    provides = provides;
    response = ground arith;
    cloud_kept = sym (ap (λ (r : Reply Volume × World S). r.1.cloud) h);
    kept = rw (← same) (sym (ap (λ (r : Reply Volume × World S). r.1.files) h));
  }

  pub create_new-Ensures : (req : CreateVolumeRequest) → Ensures (create_new S req) (IsCreated req)
  unfolding create_new
  create_new-Ensures req =
      Ensures-bind _ _ (Ensures-run _ (Ensures-KeepsFiles _ (KeepsFiles-call _ _)))
        λ p w u (registered, same) w' v rest.
          (Ensures-bind _ _ {Q = λ t v w'. t ≡ u → IsCreated req w v w'}
              (Ensures-run _ (
                Ensures-KeepsFiles _ (
                  provision-KeepsFiles p req.name (requested_capacity req)
                    req.volume_content_source)))
              (λ info t t' (provides, unchanged) w' v rest e.
                save-IsCreated-done req p info w u t' w' v registered (rw (← e) provides)
                  (unchanged ∙ ap (λ (x : World S). x.files) e ∙ same) rest)).at
            u w' v rest refl
