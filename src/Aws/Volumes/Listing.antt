-- ===== src/Aws/Volumes/Listing.antt =====
-- ListManagedVolumes of pkg/provider/aws/provider.go, as RecoverFromCloud uses it.
use caa_csi_block_driver.Prelude.{List, [], ◌∷◌, ◌==◌, if◌then◌else◌}
use caa_csi_block_driver.Provider.{VolumeInfo}
use caa_csi_block_driver.Aws.{EbsVolume, tag_value, volume_tag_key}
use caa_csi_block_driver.Aws.Volumes.{volume_info}

-- The infos that a recovery should get of some volumes: those whose last tag with the driver's key
-- has a value.
unfoldable pub expected_infos : List EbsVolume → List VolumeInfo
expected_infos [] = []
expected_infos (vol ∷ vols) =
    let rest = expected_infos vols in
    let volume_id = tag_value volume_tag_key "" vol.tags in
    if volume_id == "" then rest else volume_info volume_id vol.ebs_id vol ∷ rest
