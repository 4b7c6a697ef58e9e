-- ===== src/Tests/AzureTests.antt =====
-- The Azure provider's theorems at concrete inputs.
use Prim.Native.String.{count}
use caa_csi_block_driver.Prelude.{◌≤◌, pos, String, ◌<>◌, ◌≡◌, ◌↔◌, true, none}
use caa_csi_block_driver.Azure.Cloud.{Sizes}
use caa_csi_block_driver.Azure.Names.{disk_name, disk_name_prefix}
use caa_csi_block_driver.Azure.Names.Laws.{is_clean, AreNames, disk_name_sound}
use caa_csi_block_driver.Azure.Names.Shared.{Alike, disk_name-eq_iff}
use caa_csi_block_driver.Azure.Disks.{create_volume, expand_volume}
use caa_csi_block_driver.Tests.Arm.{azure}
use caa_csi_block_driver.Provider.Specification
use caa_csi_block_driver.Azure.Disks

disk_name_sound_example :
    (count (disk_name "pvc/1") ≤ 80)
    × (is_clean (disk_name "pvc/1") ≡ true)
    × AreNames (disk_name "pvc/1")
    × ((rest : String) × (disk_name "pvc/1" ≡ disk_name_prefix <> rest))
disk_name_sound_example = disk_name_sound "pvc/1"

-- Two IDs of different volumes that share a disk.
disk_name-eq_iff_example : disk_name "pvc/1" ≡ disk_name "pvc-1" ↔ Alike 72 "pvc/1" "pvc-1"
disk_name-eq_iff_example = disk_name-eq_iff "pvc/1" "pvc-1"

abbrev no_disks : Sizes
no_disks w = none

abbrev created : Sizes
created = (create_volume azure "pvc-1" (pos 5368709121) no_disks).1

abbrev expanded : Sizes
expanded = (expand_volume azure "pvc-1" (pos 7516192768) created).1

abbrev removed : Sizes
removed = (Disks.delete_volume azure "pvc-1" expanded).1
