-- ===== src/Controller/Capabilities/Laws.antt =====
-- Which capabilities are accepted.
use caa_csi_block_driver.Prelude.{
  ◌≡◌, refl, inl, inr, ◌⊎◌, Bool, true, false, Option, none, some, List, [], ◌∷◌, arith, ◌↔◌,
}
use caa_csi_block_driver.Controller.Capabilities.{
  AccessMode, unknown, single_node_writer, single_node_reader_only, multi_node_reader_only,
  multi_node_single_writer, multi_node_multi_writer, single_node_single_writer,
  single_node_multi_writer, VolumeCapability, is_supported, validate_volume_capabilities,
  check_capability,
}

-- A mode for a single node.
abbrev pub IsSingleNode : AccessMode → Type 0
IsSingleNode mode =
    (mode ≡ single_node_writer)
    ⊎ (mode ≡ single_node_reader_only)
    ⊎ (mode ≡ single_node_single_writer)
    ⊎ (mode ≡ single_node_multi_writer)

is_supported_sound : (mode : AccessMode) → is_supported mode ≡ true → IsSingleNode mode
is_supported_sound single_node_writer h = inl refl
is_supported_sound single_node_reader_only h = inr (inl refl)
is_supported_sound single_node_single_writer h = inr (inr (inl refl))
is_supported_sound single_node_multi_writer h = inr (inr (inr refl))
is_supported_sound unknown h = absurd (cc)
is_supported_sound multi_node_reader_only h = absurd (cc)
is_supported_sound multi_node_single_writer h = absurd (cc)
is_supported_sound multi_node_multi_writer h = absurd (cc)

is_supported_complete : (mode : AccessMode) → IsSingleNode mode → is_supported mode ≡ true
is_supported_complete mode (inl e) = rw e refl
is_supported_complete mode (inr (inl e)) = rw e refl
is_supported_complete mode (inr (inr (inl e))) = rw e refl
is_supported_complete mode (inr (inr (inr e))) = rw e refl

-- A mount volume with a mode for a single node.
abbrev pub IsAccepted : VolumeCapability → Type 0
IsAccepted cap =
    (cap.is_block ≡ false) × (mode : AccessMode) × (cap.access_mode ≡ some mode) × IsSingleNode mode

abbrev pub AllAccepted : List VolumeCapability → Type 0
AllAccepted [] = Unit {0}
AllAccepted (cap ∷ caps) = IsAccepted cap × AllAccepted caps

check_sound_mode :
    (mode : Option AccessMode) (is_block : Bool)
    → check_capability (record { is_block = is_block; access_mode = mode }) ≡ none
    → IsAccepted (record { is_block = is_block; access_mode = mode })
check_sound_mode mode true h = absurd (ground arith)
check_sound_mode none false h = absurd (ground arith)
check_sound_mode (some mode) false h = (refl, mode, refl, is_supported_sound mode (ground arith))

check_sound : (cap : VolumeCapability) → check_capability cap ≡ none → IsAccepted cap
check_sound cap h = check_sound_mode cap.access_mode cap.is_block h

check_complete : (cap : VolumeCapability) → IsAccepted cap → check_capability cap ≡ none
check_complete cap (mounted, mode, has, single) = ground (arith, is_supported_complete mode single)

-- A list of capabilities is valid exactly when each is of a mounted volume and has one of
-- the four modes for a single node.
pub validate_volume_capabilities_iff :
    (caps : List VolumeCapability) → (validate_volume_capabilities caps ≡ none) ↔ AllAccepted caps
unfolding validate_volume_capabilities
validate_volume_capabilities_iff [] = (λ h. tt, λ h. refl)
validate_volume_capabilities_iff (cap ∷ caps) = (
  λ h. (check_sound cap (ground arith), (validate_volume_capabilities_iff caps).0 (ground arith)),
  λ (first, rest).
      ground (arith, check_complete cap first, (validate_volume_capabilities_iff caps).1 rest),
)
