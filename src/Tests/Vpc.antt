-- ===== src/Tests/Vpc.antt =====
-- An IBM Cloud account in memory: the sizes of its volumes by name. The ID of a volume is its name.
use caa_csi_block_driver.Prelude.{
  ℤ, pos, le_int, String, ◌≡◌, refl, sym, ap, inl, inr, Option, none, some, [], ◌∷◌, arith,
  if◌then◌else◌,
}
use caa_csi_block_driver.GoMap.{get, lookup}
use caa_csi_block_driver.Result.{ok, err, error}
use caa_csi_block_driver.Provider.{Call}
use caa_csi_block_driver.Provider.Specification.{Disks, put}
use caa_csi_block_driver.Ibmcloud.{IbmCloudProvider}
use caa_csi_block_driver.Ibmcloud.Volumes.{Volume, VolumePage, Session}
use caa_csi_block_driver.Ibmcloud.Operations.{new_volume}
use caa_csi_block_driver.Ibmcloud.Cloud.{VpcLaws, IsAnswer}
use caa_csi_block_driver.Tests.IbmCloud.{packages, config}

-- A volume as the SDK returns it, without its name.
abbrev volume_at : String → ℤ → Volume
volume_at name n = record (new_volume packages config name (pos 0)) {
  volume_id = name;
  capacity = some n;
  status = "available";
  name = none;
}

abbrev page_of : String → Option ℤ → VolumePage
page_of name none = record { volumes = []; next = "" }
page_of name (some n) = record { volumes = some (volume_at name n) ∷ []; next = "" }

abbrev create_of : Option String → Option ℤ → Call Disks (Option Volume)
create_of (some name) (some n) c = (ok (some (volume_at name n)), put name (some n) c)
create_of none size c = (err (error "a name is required"), c)
create_of (some name) none c = (err (error "a capacity is required"), c)

abbrev grow_of : String → Option ℤ → Option ℤ → Call Disks (Unit {0})
grow_of name (some m) (some n) c =
    if le_int m n
    then (ok tt, put name (some n) c)
    else (err (error "a volume cannot be made smaller"), c)
grow_of name none size c = (err (error "no such volume"), c)
grow_of name (some m) none c = (err (error "a capacity is required"), c)

abbrev pub vpc : Session Disks
vpc = record {
  create_volume = λ request. create_of request.name request.capacity;
  get_volume = λ id c. (ok none, c);
  delete_volume = λ request c. (ok tt, put request.volume_id none c);
  update_volume = λ request c. grow_of request.volume_id (c request.volume_id) request.capacity c;
  list_volumes = λ limit start filters c.
      (ok (some (page_of (get filters "name") (c (get filters "name")))), c);
}

abbrev pub vpc_provider : IbmCloudProvider (Session Disks)
vpc_provider = record { session = vpc; config = config }

page_of-IsAnswer :
    (name : String) (size : Option ℤ) (c : Disks)
    → c name ≡ size
    → ((page_of name size).next ≡ "") × IsAnswer c some name (page_of name size).volumes
page_of-IsAnswer name none c e = (refl, inl (refl, e))
page_of-IsAnswer name (some n) c e =
    (refl, inr (volume_at name n, n, refl, inl refl, refl, e, refl))

pub create_of_puts :
    (given : Option String) (size : Option ℤ) (name : String) (n : ℤ) (c c' : Disks)
    (r : Option Volume)
    → create_of given size c ≡ (ok r, c')
    → given ≡ some name
    → size ≡ some n
    → c' ≡ put name (some n) c
create_of_puts given size name n c c' r h e f = sym (ap (λ s. s.1) (rw (e, f) at h))

pub list_answers :
    (name : String) (c c' : Disks) (r : Option VolumePage)
    → vpc.list_volumes 100 "" (("name", name) ∷ []) c ≡ (ok r, c')
    → (page : VolumePage) × (r ≡ some page)
      × (page.next ≡ "")
      × (c' ≡ c)
      × IsAnswer c some name page.volumes
unfolding lookup
list_answers name c c' r h =
    let (last, answer) = page_of-IsAnswer name (c name) c refl in
    (page_of name (c name), ground arith, last, ground arith, answer)

abbrev pub vpc-VpcLaws : VpcLaws vpc
vpc-VpcLaws = record {
  sizes = λ c. c;
  name_of = λ c. some;
  list_foreign = λ {name} {c} {c'} {e} h. absurd (ground arith);
  list_answers = λ {name} {c} {c'} {r}. list_answers name c c' r;
  create_puts = λ {request} {name} {n} {c} {c'} {r}.
      create_of_puts request.name request.capacity name n c c' r;
  get_keeps = λ {id} {c} {c'} {r} h. ground arith;
  delete_removes = λ {request} {name} {c} {c'} {u} h owner.
      (let e : request.volume_id ≡ name = ground arith in rw (← e) (sym (ap (λ s. s.1) h)));
}
