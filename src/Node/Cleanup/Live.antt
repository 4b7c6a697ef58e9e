-- ===== src/Node/Cleanup/Live.antt =====
-- The cleanup at the start of a node server spares the mount infos that are in use.
use caa_csi_block_driver.Prelude.{
  String, ◌≡◌, ◌≢◌, ◌∙◌, false, true, is_element, some, List, [], ◌∷◌, arith, Bool-cases, inl, inr,
}
use caa_csi_block_driver.Result.{ok, Result-cases}
use caa_csi_block_driver.Platform.{DirEntry}
use caa_csi_block_driver.Node.{MountInfo, NodeSetup, mount_info_file_name}
use caa_csi_block_driver.Node.Cleanup.{is_stale, clean_entries, clean_stale_mount_info_dirs}

module _ (S : NodeSetup) (root : String) where
  open S.platform use {Files, Bytes}

  -- The mount info below a directory of the root.
  abbrev pub info_path : String → String
  info_path name = S.platform.join (S.platform.join root name) mount_info_file_name

  -- The names of a listing can be those of directory entries.
  abbrev pub AreElements : List DirEntry → Type 0
  AreElements [] = Unit {0}
  AreElements (e ∷ es) = (is_element e.name ≡ true) × AreElements es

  -- The documented behaviour of os.ReadDir, whose names are no paths, and of os.RemoveAll on a
  -- directory of the root: the mount info in another directory stays, and so does a target that is
  -- not below the root.
  pub record RemovesOnly (target : String) : Type 0 where
    pub listed :
        (f : Files) (es : List DirEntry) → S.platform.read_dir f root ≡ ok es → AreElements es
    pub read-remove_all :
        (f : Files) (name other : String)
        → is_element name ≡ true
        → is_element other ≡ true
        → name ≢ other
        → S.platform.read_file (S.remove_all f (S.platform.join root name)).1 (info_path other)
          ≡ S.platform.read_file f (info_path other)
    pub stat-remove_all :
        (f : Files) (name : String)
        → is_element name ≡ true
        → S.platform.stat (S.remove_all f (S.platform.join root name)).1 target
          ≡ S.platform.stat f target

  -- A directory whose mount info can be parsed, and whose target exists.
  pub record IsLive (name target : String) (bytes : Bytes) (info : MountInfo) (f : Files)
      : Type 0 where
    pub element : is_element name ≡ true
    pub decoded : S.decode_name name ≡ some target
    pub read : S.platform.read_file f (info_path name) ≡ ok bytes
    pub parsed : S.unmarshal_mount bytes ≡ ok info
    pub there : S.platform.stat f target ≡ ok tt

  IsLive-spared :
      (name target : String) (bytes : Bytes) (info : MountInfo) (f : Files) (e : DirEntry)
      → IsLive name target bytes info f
      → e.name ≡ name
      → is_stale S root e f ≡ false
  unfolding is_stale
  IsLive-spared name target bytes info f e live same =
      ground (arith, live.decoded, live.read, live.parsed, live.there)

  module _ (target : String) (R : RemovesOnly target) where
    IsLive-round :
        (name : String) (bytes : Bytes) (info : MountInfo) (f : Files) (e : DirEntry)
        → IsLive name target bytes info f
        → is_element e.name ≡ true
        → e.name ≢ name
        → IsLive name target bytes info (S.remove_all f (S.platform.join root e.name)).1
    IsLive-round name bytes info f e live plain ne = record {
      element = live.element;
      decoded = live.decoded;
      read = R.read-remove_all f e.name name plain live.element ne ∙ live.read;
      parsed = live.parsed;
      there = R.stat-remove_all f e.name plain ∙ live.there;
    }

    IsLive-clean_entries :
        (name : String) (bytes : Bytes) (info : MountInfo) (es : List DirEntry) (f : Files)
        → AreElements es
        → IsLive name target bytes info f
        → IsLive name target bytes info (clean_entries S root es f)
    unfolding clean_entries
    IsLive-clean_entries name bytes info [] f plain live = live
    IsLive-clean_entries name bytes info (e ∷ es) f plain live =
        elim (Bool-cases (is_stale S root e f)) [
          | inl stale ↦
              let ne : e.name ≢ name =
                λ same. cc (IsLive-spared name target bytes info f e live same) in
              rw (stale, clean_entries)
                (IsLive-clean_entries name bytes info es _ plain.1
                  (IsLive-round name bytes info f e live plain.0 ne))
          | inr kept ↦
              rw (kept, clean_entries) (IsLive-clean_entries name bytes info es f plain.1 live)
        ]

    -- Where the names of a listing are no paths, and the removal of a directory of the root changes
    -- neither the mount info in another one nor the target, which so is not below the root, the cleanup
    -- spares a mount info that can be parsed and whose target exists.
    pub IsLive-clean_stale_mount_info_dirs :
        (name : String) (bytes : Bytes) (info : MountInfo) (f : Files)
        → IsLive name target bytes info f
        → IsLive name target bytes info (clean_stale_mount_info_dirs S root f)
    unfolding clean_stale_mount_info_dirs
    IsLive-clean_stale_mount_info_dirs name bytes info f live =
        elim (Result-cases (S.platform.read_dir f root)) [
          | inl (es, e) ↦
              rw (e, clean_stale_mount_info_dirs)
                (IsLive-clean_entries name bytes info es f (R.listed f es e) live)
          | inr (c, e) ↦ rw (e, clean_stale_mount_info_dirs) live
        ]
