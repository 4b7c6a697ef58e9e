-- ===== src/Driver/Restart.antt =====
-- What a start of the driver, pkg/driver/driver.go, keeps of the state that an earlier run has left.
use caa_csi_block_driver.Prelude.{
  String, ◌<>◌, ◌≡◌, ◌≢◌, refl, ◌∙◌, ap, inl, inr, true, is_element, some, List, [], ◌∷◌,
  Bool-cases, Option-cases, ◌==◌,
}
use caa_csi_block_driver.Result.{Result, ok, err, Result-cases}
use caa_csi_block_driver.Platform.{IsLawful, VolumeRecord, DirEntry}
use caa_csi_block_driver.Store.{record_path, manifest_path, load, bootstrap_params, decode_record}
use caa_csi_block_driver.Store.Recovery.Cloud.{load-recover_from_cloud}
use caa_csi_block_driver.Controller.{new_controller_server}
use caa_csi_block_driver.Node.{NodeSetup, kata_root}
use caa_csi_block_driver.Node.Cleanup.{
  is_stale, clean_entries, clean_stale_mount_info_dirs, new_node_server,
}
use caa_csi_block_driver.Node.Cleanup.Live.{AreElements}
use caa_csi_block_driver.Identity.{Config, parse_endpoint}
use caa_csi_block_driver.Driver.{
  DriverSetup, DriverWorld, controller_setup, remove_socket, start_services, with_listener, run_at,
  run,
}

-- The documented behaviour of os.ReadDir on the directory of mount infos, whose names are no paths,
-- and of os.RemoveAll on a directory in it: the file at a path that is not in there stays.
pub record SparesFile (S : NodeSetup) (path : String) : Type 0 where
  pub listed :
      (f : S.platform.Files) (es : List DirEntry)
      → S.platform.read_dir f (kata_root S) ≡ ok es
      → AreElements S (kata_root S) es
  pub read-remove_all :
      (f : S.platform.Files) (name : String)
      → is_element name ≡ true
      → S.platform.read_file (S.remove_all f (S.platform.join (kata_root S) name)).1 path
        ≡ S.platform.read_file f path

module _ (S : NodeSetup) (path : String) (R : SparesFile S path) where
  read-clean_entries :
      (es : List DirEntry) (f : S.platform.Files)
      → AreElements S (kata_root S) es
      → S.platform.read_file (clean_entries S (kata_root S) es f) path ≡ S.platform.read_file f path
  unfolding clean_entries
  read-clean_entries [] f plain = refl
  read-clean_entries (e ∷ es) f plain = elim (Bool-cases (is_stale S (kata_root S) e f)) [
    | inl stale ↦
        rw (stale, clean_entries)
          (read-clean_entries es (S.remove_all f (S.platform.join (kata_root S) e.name)).1 plain.1
            ∙ R.read-remove_all f e.name plain.0)
    | inr kept ↦ rw (kept, clean_entries) (read-clean_entries es f plain.1)
  ]

  -- The cleanup at the start of a node server leaves such a file.
  read-clean :
      (f : S.platform.Files)
      → S.platform.read_file (clean_stale_mount_info_dirs S (kata_root S) f) path
        ≡ S.platform.read_file f path
  unfolding clean_stale_mount_info_dirs
  read-clean f = elim (Result-cases (S.platform.read_dir f (kata_root S))) [
    | inl (es, e) ↦ rw (e, clean_stale_mount_info_dirs) (read-clean_entries es f (R.listed f es e))
    | inr (x, e) ↦ rw (e, clean_stale_mount_info_dirs) refl
  ]

module _ (S : DriverSetup) (L : IsLawful S.node.platform) (id : String) (rec : VolumeRecord)
    (apart : manifest_path S.node.platform S.dir ≢ record_path S.node.platform S.dir id)
    (R : SparesFile S.node (record_path S.node.platform S.dir id)) where
  -- A world whose store has the record.
  abbrev Stores : DriverWorld S → Type 0
  Stores w = load S.node.platform S.dir id w.files ≡ ok rec

  Stores-new_controller_server :
      (w : DriverWorld S) → Stores w → Stores (new_controller_server (controller_setup S) w)
  unfolding new_controller_server
  Stores-new_controller_server w h =
      elim (Option-cases (bootstrap_params S.node.platform S.dir w.files)) [
        | inl e ↦ rw (e, new_controller_server) h
        | inr (params, e) ↦
            rw (e, new_controller_server)
              (load-recover_from_cloud (controller_setup S) L (some params) w id rec apart h)
      ]

  Stores-with_listener :
      (cfg : Config) (url : String) (r : Result S.Listener) (w : DriverWorld S)
      → Stores w
      → Stores (with_listener S cfg url r w).1
  unfolding with_listener start_services new_node_server load
  Stores-with_listener cfg url (err e) w h = h
  Stores-with_listener cfg url (ok listener) w h =
      let w' = new_controller_server (controller_setup S) w in
      ap (decode_record S.node.platform S.dir)
        (read-clean S.node (record_path S.node.platform S.dir id) R w'.files)
      ∙ Stores-new_controller_server w h

  Stores-remove_socket :
      (cfg : Config) (scheme addr : String) (w : DriverWorld S)
      → parse_endpoint cfg.endpoint ≡ ok (scheme, addr)
      → addr ≢ record_path S.node.platform S.dir id
      → Stores w
      → Stores (remove_socket S scheme addr w)
  unfolding remove_socket load
  Stores-remove_socket cfg scheme addr w e ne h = elim (Bool-cases (scheme == "unix")) [
    | inr tcp ↦ rw (tcp, remove_socket) h
    | inl unix ↦
        rw (unix, remove_socket)
          (ap (decode_record S.node.platform S.dir)
              (L.read-remove_ne w.files addr (record_path S.node.platform S.dir id) ne)
            ∙ h)
  ]

  Stores-run_at :
      (cfg : Config) (scheme addr : String) (w : DriverWorld S)
      → parse_endpoint cfg.endpoint ≡ ok (scheme, addr)
      → addr ≢ record_path S.node.platform S.dir id
      → Stores w
      → Stores (run_at S cfg scheme addr w).1
  unfolding run_at
  Stores-run_at cfg scheme addr w e ne h =
      let w' = remove_socket S scheme addr w in
      let (r, cloud) = S.listen scheme addr w'.cloud in
      Stores-with_listener cfg (scheme <> "://" <> addr) r (record w' { cloud = cloud })
        (Stores-remove_socket cfg scheme addr w e ne h)

  -- A start of the driver, however it ends, keeps every record of a volume that can be loaded: the
  -- socket that it removes, the records that it recovers from the cloud and the mount infos that it
  -- cleans are none of it, where the volume's record is neither the manifest's file nor the socket nor
  -- in the directory of the mount infos.
  pub load-run :
      (cfg : Config) (w : DriverWorld S)
      → ((scheme addr : String)
          → parse_endpoint cfg.endpoint ≡ ok (scheme, addr)
          → addr ≢ record_path S.node.platform S.dir id)
      → load S.node.platform S.dir id w.files ≡ ok rec
      → load S.node.platform S.dir id (run S cfg w).1.files ≡ ok rec
  unfolding run
  load-run cfg w socket h = elim (Result-cases (parse_endpoint cfg.endpoint)) [
    | inr (e, bad) ↦ rw (bad, run) h
    | inl ((scheme, addr), good) ↦
        rw (good, run) (Stores-run_at cfg scheme addr w good (socket scheme addr good) h)
  ]
