-- ===== src/Azure/Disks/Refinement.antt =====
-- CreateVolume, DeleteVolume and ExpandVolume of pkg/provider/azure/provider.go implement what a
-- provider promises, over any history and for the disks by their names.
use caa_csi_block_driver.Prelude.{Option, some, List}
use caa_csi_block_driver.Provider.{VolumeExpander}
use caa_csi_block_driver.Provider.Specification.{Op, Disks, specified, specified_all}
use caa_csi_block_driver.Provider.History.{History}
use caa_csi_block_driver.Azure.{AzureProvider}
use caa_csi_block_driver.Azure.Cloud.{ArmLaws}
use caa_csi_block_driver.Azure.Names.{disk_name}
use caa_csi_block_driver.Azure.Disks.{bytes_to_gib, expand_volume}

-- The specification with the provider's rounding and names.
abbrev pub specified_by_name : Op → Disks → Disks
specified_by_name = specified bytes_to_gib bytes_to_gib disk_name

abbrev pub all_specified_by_name : List Op → Disks → Disks
all_specified_by_name = specified_all bytes_to_gib bytes_to_gib disk_name

module _ {Cloud : Type 0} (p : AzureProvider Cloud)
    (L : ArmLaws p.disks_client p.config.resource_group) where
  open L use {sizes}

  abbrev expander : Option (VolumeExpander Cloud)
  expander = some (record { expand_volume = expand_volume p })
