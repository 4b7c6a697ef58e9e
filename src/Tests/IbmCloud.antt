-- ===== src/Tests/IbmCloud.antt =====
-- A small IBM Cloud for the tests: a list of volumes, made available at once, in two pages.
use caa_csi_block_driver.Prelude.{
  pos, String, ◌≡◌, refl, inl, inr, false, Option, none, some, List, [], ◌∷◌, arith, Bool-cases,
  ◌==◌, if◌then◌else◌,
}
use caa_csi_block_driver.GoMap.{Params}
use caa_csi_block_driver.Result.{ok}
use caa_csi_block_driver.Ibmcloud.{Config, IbmCloudProvider}
use caa_csi_block_driver.Ibmcloud.Volumes.{Volume, VolumePage, Session, Packages, has}
use caa_csi_block_driver.Ibmcloud.Listing.Ends.{Emits}

abbrev pub Volumes : Type 0
Volumes = List (Option Volume)

-- What is made of a request: its name and group are not returned.
abbrev pub made_of : Volume → Volume
made_of v = record v {
  volume_id = "r010-1";
  status = "available";
  name = none;
  resource_group = none;
}

-- The volumes stand on the second page.
unfoldable pub page_at : String → Volumes → VolumePage
page_at start vs =
    if start == "next"
    then record { volumes = vs; next = "" }
    else record { volumes = []; next = "next" }

unfoldable pub by_native_id : String → Volumes → Option Volume
by_native_id id [] = none
by_native_id id (none ∷ vs) = by_native_id id vs
by_native_id id (some v ∷ vs) = if v.volume_id == id then some v else by_native_id id vs

abbrev pub session : Session Volumes
session = record {
  create_volume = λ v vs. (ok (some (made_of v)), some (made_of v) ∷ vs);
  get_volume = λ id vs. (ok (by_native_id id vs), vs);
  delete_volume = λ v vs. (ok tt, []);
  update_volume = λ v vs. (ok tt, vs);
  list_volumes = λ limit start filters vs. (ok (some (page_at start vs)), vs);
}

abbrev pub packages : Packages
packages = record {
  digest = λ cfg. "c0ffee";
  to_lower = λ s. s;
  is_entity_not_found = λ e. false;
  message_rc = λ e. none;
}

abbrev pub config : Config
config = record {
  region = "eu-de";
  zone = "eu-de-1";
  resource_group = "group";
  profile = "custom";
  iops = "3000";
  encrypted = "false";
  encryption_key = "";
  billing_type = "hourly";
  extra_tags = "team" ∷ [];
  fs_type = "ext4";
  throughput = pos 0;
  volume_id = "";
}

abbrev pub provider : IbmCloudProvider (Session Volumes)
provider = record { session = session; config = config }

pub session-Emits : (filters : Params) → Emits session filters ("next" ∷ [])
unfolding page_at has
session-Emits filters start c c' page h =
    let e : page_at start c ≡ page = ground arith in
    elim (Bool-cases (start == "next")) [
      | inl second ↦ rw (← e) (rw (second, page_at) refl)
      | inr first ↦ rw (← e) (rw (first, page_at) refl)
    ]
