-- ===== src/Controller/Capabilities.antt =====
-- validateVolumeCapabilities and ValidateVolumeCapabilities of pkg/driver/controllerserver.go.
pub mod Laws
use caa_csi_block_driver.Prelude.{
  String, Bool, true, false, Option, none, some, List, [], ◌∷◌, ◌==◌,
}
use caa_csi_block_driver.Result.{Result, ok, err, invalid_argument}
use caa_csi_block_driver.Platform.{VolumeRecord}
use caa_csi_block_driver.Action.{pure, fail, reject_if, ◌>>=◌, ◌>>◌}
use caa_csi_block_driver.Server.{Setup, Handler}
use caa_csi_block_driver.Controller.{find_volume, volume_lookup_status}

pub data AccessMode : Type 0 where
  unknown single_node_writer single_node_reader_only multi_node_reader_only : AccessMode
  multi_node_single_writer multi_node_multi_writer : AccessMode
  single_node_single_writer single_node_multi_writer : AccessMode

pub record VolumeCapability : Type 0 where
  pub is_block : Bool
  pub access_mode : Option AccessMode

-- supportedAccessModes[mode]
abbrev pub is_supported : AccessMode → Bool
is_supported single_node_writer = true
is_supported single_node_reader_only = true
is_supported single_node_single_writer = true
is_supported single_node_multi_writer = true
is_supported _ = false

pub data CapabilityError : Type 0 where
  raw_block mode_missing : CapabilityError
  mode_unsupported : AccessMode → CapabilityError

-- The body of the loop: why it returns at this capability, if it does.
abbrev check_mode : Option AccessMode → Option CapabilityError
check_mode none = some mode_missing
check_mode (some mode) = elim (is_supported mode) [
  | true ↦ none
  | false ↦ some (mode_unsupported mode)
]

abbrev pub check_capability : VolumeCapability → Option CapabilityError
check_capability cap = elim cap.is_block [
  | true ↦ some raw_block
  | false ↦ check_mode cap.access_mode
]

abbrev or_rest : Option CapabilityError → Option CapabilityError → Option CapabilityError
or_rest (some e) rest = some e
or_rest none rest = rest

-- validateVolumeCapabilities: the error that it returns
unfoldable pub validate_volume_capabilities : List VolumeCapability → Option CapabilityError
validate_volume_capabilities [] = none
validate_volume_capabilities (cap ∷ caps) =
    or_rest (check_capability cap) (validate_volume_capabilities caps)

-- len(caps) == 0
abbrev pub is_empty {ℓ} : {A : Type ℓ} → List A → Bool
is_empty [] = true
is_empty (x ∷ xs) = false

-- The request's list of capabilities may be nil.
pub record ValidateVolumeCapabilitiesRequest : Type 0 where
  pub volume_id : String
  pub volume_capabilities : Option (List VolumeCapability)

-- Confirmed, with the capabilities, or a message that says why not.
pub data Validation : Type 0 where
  confirmed : List VolumeCapability → Validation
  refused : CapabilityError → Validation

abbrev validation_of : List VolumeCapability → Option CapabilityError → Validation
validation_of caps none = confirmed caps
validation_of caps (some e) = refused e

module _ (S : Setup) where
  validate_found : List VolumeCapability → Result VolumeRecord → Handler S Validation
  validate_found caps (err e) = fail (volume_lookup_status e)
  validate_found caps (ok rec) = pure (validation_of caps (validate_volume_capabilities caps))

  validate_listed : String → Option (List VolumeCapability) → Handler S Validation
  unfolding validate_found
  validate_listed volume_id none = fail invalid_argument
  validate_listed volume_id (some caps) = do
    found ← find_volume S volume_id
    validate_found caps found

  -- ValidateVolumeCapabilities
  unfoldable pub validate_capabilities : ValidateVolumeCapabilitiesRequest → Handler S Validation
  unfolding validate_listed ◌>>=◌
  validate_capabilities req = do
    reject_if (req.volume_id == "") invalid_argument
    validate_listed req.volume_id req.volume_capabilities
