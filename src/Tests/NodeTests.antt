-- ===== src/Tests/NodeTests.antt =====
-- The node's theorems at concrete inputs.
use text.Mathlib.TextLemmas.{append_cancel_left, append_cancel_right, cons-append}
use Prim.Native.Char.{code}
use caa_csi_block_driver.Prelude.{
  ◌+◌, ◌-◌, ◌*◌, ◌≤◌, pos, ◌≡◌, refl, true, none, some, [], ◌∷◌, arith, is_element, cut_prefix,
  String, ◌<>◌, Option-cases, Bool-cases, inl, inr, ap, ◌≢◌, ℕ, sym, ◌∙◌,
}
use caa_csi_block_driver.Tests.Files.{
  parameters, entries_of, entry_of, find-without_ne, Disk, Content, mount_info, memory-IsLawful,
  find, forget,
}
use caa_csi_block_driver.Node.Labels.{first_non_empty_label}
use caa_csi_block_driver.Node.Info.{node_topology, resolve_node_topology, node_get_info}
use caa_csi_block_driver.GoMap.{Params, lookup, get, set, erase}
use caa_csi_block_driver.Result.{ok, done}
use caa_csi_block_driver.Provider.{new_block_volume_provider}
use caa_csi_block_driver.Topology.{segments_of}
use caa_csi_block_driver.Node.{bytes, inodes, NodeState, MountInfo, volume_dir}
use caa_csi_block_driver.Node.Stage.{
  NodeStageVolumeRequest, NodeUnstageVolumeRequest, node_stage_volume, node_unstage_volume,
}
use caa_csi_block_driver.Node.Publish.{
  NodePublishVolumeRequest, node_publish_volume, published_info,
}
use caa_csi_block_driver.Node.Stats.{block_size, local_usage}
use caa_csi_block_driver.Node.Stats.Laws.{IsSound, local_usage-IsSound}
use caa_csi_block_driver.Node.History.{
  Reach, stage, unstage, here, next, after, node_get_info-stable,
}
use caa_csi_block_driver.Node.History.Staging.{IsStaged, publish-IsStaged}
use caa_csi_block_driver.Node.Publish.Written.{KeepsMounts, Describes, read-node_publish_volume}
use caa_csi_block_driver.Node.Cleanup.{clean_stale_mount_info_dirs}
use caa_csi_block_driver.Node.Cleanup.Live.{
  AreElements, RemovesOnly, IsLive, IsLive-clean_stale_mount_info_dirs,
}
use caa_csi_block_driver.Tests.Cloud.{in_cluster, machine, booted, root_fs, mount_of-ok}

abbrev stage_request : NodeStageVolumeRequest
stage_request = record {
  volume_id = "pvc-1";
  staging_target_path = "/staging";
  has_capability = true;
  volume_context = some (("cloudProvider", "aws") ∷ []);
}

abbrev publish_request : NodePublishVolumeRequest
publish_request = record {
  volume_id = "pvc-1";
  target_path = "/target";
  has_capability = true;
  volume_context = none;
}

abbrev other_unstage : NodeUnstageVolumeRequest
other_unstage = record { volume_id = "pvc-2"; staging_target_path = "/staging" }

-- The volume is staged, and then another one unstaged.
history :
    Reach machine booted
      (after machine (unstage other_unstage) (after machine (stage stage_request) booted))
history = next (next here (stage stage_request)) (unstage other_unstage)

publish-IsStaged_example : IsStaged machine "pvc-1" history
unfolding after node_publish_volume lookup node_unstage_volume erase node_stage_volume
    new_block_volume_provider set
publish-IsStaged_example = publish-IsStaged machine publish_request history refl refl

abbrev topology : Params
topology = segments_of "zone-1" ""

node_get_info-stable_example :
    node_get_info machine "node-1"
      (after machine (stage stage_request) (node_get_info machine "node-1" booted).1)
    ≡ (done topology, after machine (stage stage_request) (node_get_info machine "node-1" booted).1)
unfolding node_get_info resolve_node_topology node_topology first_non_empty_label lookup find
node_get_info-stable_example =
    node_get_info-stable machine "node-1" booted
      (after machine (stage stage_request) (node_get_info machine "node-1" booted).1) topology refl
      (next here (stage stage_request))

root_fs-IsSound : IsSound root_fs
unfolding block_size
root_fs-IsSound = record {
  fits = omega arith;
  blocks_fit = omega arith;
  free = omega arith;
  available = omega arith;
  inode_fits = omega arith;
  inode_free = omega arith;
}

local_usage-IsSound_example :
    (local_usage root_fs
      ≡ record {
        available = pos (300 * block_size root_fs);
        total = pos (1000 * block_size root_fs);
        used = pos ((1000 - 400) * block_size root_fs);
        unit = bytes;
      }
        ∷ record { available = pos 60; total = pos 100; used = pos (100 - 60); unit = inodes }
        ∷ [])
    × ((1000 - 400) * block_size root_fs + 400 * block_size root_fs ≡ 1000 * block_size root_fs)
    × (300 * block_size root_fs ≤ 400 * block_size root_fs)
    × (100 - 60 + 60 ≡ 100)
local_usage-IsSound_example = local_usage-IsSound root_fs root_fs-IsSound

mounts : KeepsMounts machine
mounts = record { read-mkdir_all = λ f d p b h. h; mount_roundtrip = λ m b h. mount_of-ok m b h }

abbrev staged : NodeState machine
staged = (node_stage_volume machine stage_request booted).1

read-node_publish_volume_example :
    (b : Content) × (find "/run/kata-containers/shared/direct-volumes//target/mountInfo.json"
        (node_publish_volume machine publish_request staged).1.files
      ≡ ok b)
    × (info : MountInfo) × (machine.unmarshal_mount b ≡ ok info)
    × (get staged.devices "pvc-1" ≢ "")
    × Describes "pvc-1" (get staged.devices "pvc-1") "" info
unfolding node_publish_volume volume_dir lookup node_stage_volume new_block_volume_provider set
read-node_publish_volume_example =
    read-node_publish_volume machine (memory-IsLawful in_cluster) mounts publish_request staged
      (node_publish_volume machine publish_request staged).1 refl

-- The mount infos of a target that is gone and of one that exists.
abbrev info : MountInfo
info = published_info publish_request "/dev/pvc-1"

abbrev mounted : Disk
mounted =
    ("/root/gone/mountInfo.json", mount_info info)
    ∷ ("/root/t/mountInfo.json", mount_info info)
    ∷ ("t", parameters none)
    ∷ []

pub AreElements-entries_of : (d : String) (f : Disk) → AreElements machine d (entries_of d f)
unfolding entries_of
AreElements-entries_of d [] = tt
AreElements-entries_of d ((q, b) ∷ f) = elim (Option-cases (cut_prefix q (d <> "/"))) [
  | inl e ↦ rw (e, entries_of) (AreElements-entries_of d f)
  | inr (rest, e) ↦ elim (Bool-cases (is_element (entry_of rest).name)) [
    | inl good ↦ rw (e, entries_of, good) (good, AreElements-entries_of d f)
    | inr bad ↦ rw (e, entries_of, bad) (AreElements-entries_of d f)
  ]
]

info_path_apart :
    (name other : String)
    → name ≢ other
    → ("/root" <> ("/" <> name)) <> "/mountInfo.json"
      ≢ ("/root" <> ("/" <> other)) <> "/mountInfo.json"
info_path_apart name other ne same = ne (
    append_cancel_left "/" name other (
      append_cancel_left "/root" ("/" <> name) ("/" <> other) (
        append_cancel_right ("/root" <> ("/" <> name)) ("/root" <> ("/" <> other)) "/mountInfo.json"
          same)))

unfoldable pub head_code : String → ℕ
head_code String.[] = 0
head_code (String.◌∷◌ c s) = code c

-- A path below the root starts with a slash, and the target does not.
path-not_t : (name : String) → ("/root" <> ("/" <> name)) <> "/mountInfo.json" ≢ "t"
unfolding head_code
path-not_t name h =
    let e =
      ap (λ (s : String). s <> "/mountInfo.json") (cons-append "/" "root" ("/" <> name))
      ∙ cons-append "/" ("root" <> ("/" <> name)) "/mountInfo.json" in
    let codes : ◌≡◌ {A = ℕ} 47 116 = ap head_code (sym e ∙ h) in absurd (omega arith)

removes_only : RemovesOnly machine "/root" "t"
removes_only = record {
  listed = λ f es h.
      (let e : entries_of "/root" f ≡ es = cc in rw (← e) (AreElements-entries_of "/root" f));
  read-remove_all =
      λ f name other plain plain' ne. find-without_ne _ _ f (info_path_apart name other ne);
  stat-remove_all = λ f name plain. ap forget (find-without_ne _ "t" f (path-not_t name));
}

mounted-IsLive : IsLive machine "/root" "t" "t" (mount_info info) info mounted
unfolding find forget is_element
mounted-IsLive = record { element = refl; decoded = refl; read = refl; parsed = refl; there = refl }

IsLive-clean_stale_mount_info_dirs_example :
    IsLive machine "/root" "t" "t"
      (mount_info info)
      info
      (clean_stale_mount_info_dirs machine "/root" mounted)
IsLive-clean_stale_mount_info_dirs_example =
    IsLive-clean_stale_mount_info_dirs machine "/root" "t" removes_only "t" (mount_info info) info
      mounted mounted-IsLive
