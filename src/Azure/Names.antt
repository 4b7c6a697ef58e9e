-- ===== src/Azure/Names.antt =====
-- The names of pkg/provider/azure/provider.go: diskName, snapName, diskResourceID and
-- isValidAzureResourceID. A character that is not allowed becomes one of ASCII, so in a name bytes
-- are characters.
pub mod Laws
pub mod Shared
use Prim.Native.Char.{Char, char, code}
use Prim.Native.String.{count}
use caa_csi_block_driver.Prelude.{
  ℕ, zero, suc, ltb, leb, nat_eq, String, ◌<>◌, Bool, true, false, not, ◌&&◌, ◌||◌, List, [], ◌∷◌,
  ◌==◌, if◌then◌else◌, split,
}
use caa_csi_block_driver.Azure.{Config}

abbrev pub disk_name_prefix : String
disk_name_prefix = "csi-vol-"

abbrev pub snap_name_prefix : String
snap_name_prefix = "csi-snap-"

abbrev pub disk_name_max_len : ℕ
disk_name_max_len = 80

abbrev between : ℕ → ℕ → ℕ → Bool
between low high n = leb low n && leb n high

-- [a-zA-Z0-9_.\-]
unfoldable pub is_name_code : ℕ → Bool
is_name_code n =
    between b'a' b'z' n
    || between b'A' b'Z' n
    || between b'0' b'9' n
    || nat_eq n b'_'
    || nat_eq n b'.'
    || nat_eq n b'-'

abbrev pub dash : Char
dash = char b'-' tt

-- azureDiskNameInvalidChars.ReplaceAllString(s, "-")
unfoldable pub sanitize : String → String
sanitize String.[] = String.[]
sanitize (String.◌∷◌ c s) = String.◌∷◌ (if is_name_code (code c) then c else dash) (sanitize s)

-- s[:n]
unfoldable pub cut : ℕ → String → String
cut zero s = String.[]
cut (suc n) String.[] = String.[]
cut (suc n) (String.◌∷◌ c s) = String.◌∷◌ c (cut n s)

unfoldable pub truncate : String → String
unfolding cut
truncate name = if ltb disk_name_max_len (count name) then cut disk_name_max_len name else name

unfoldable pub disk_name : String → String
unfolding sanitize truncate
disk_name volume_id = truncate (disk_name_prefix <> sanitize volume_id)

unfoldable pub snap_name : String → String
unfolding sanitize truncate
snap_name snapshot_id = truncate (snap_name_prefix <> sanitize snapshot_id)

abbrev compute_path : Config → String
compute_path cfg =
    "/subscriptions/" <> cfg.subscription_id <> "/resourceGroups/" <> cfg.resource_group
    <> "/providers/Microsoft.Compute/"

-- diskResourceID
abbrev pub disk_resource_id : Config → String → String
disk_resource_id cfg name = compute_path cfg <> "disks/" <> name

abbrev pub snap_resource_id : Config → String → String
snap_resource_id cfg name = compute_path cfg <> "snapshots/" <> name

abbrev is_set : String → Bool
is_set s = not (s == "")

-- ^/subscriptions/[^/]+/resourceGroups/[^/]+/providers/[^/]+/[^/]+/[^/]+$
unfoldable pub are_resource_parts : List String → Bool
are_resource_parts (root ∷ s ∷ subscription ∷ r ∷ group ∷ p ∷ namespace ∷ kind ∷ name ∷ []) =
    root == ""
    && s == "subscriptions"
    && is_set subscription
    && r == "resourceGroups"
    && is_set group
    && p == "providers"
    && is_set namespace
    && is_set kind
    && is_set name
are_resource_parts _ = false

-- isValidAzureResourceID
unfoldable pub is_valid_resource_id : String → Bool
unfolding are_resource_parts split
is_valid_resource_id id = are_resource_parts (split b'/' id)
