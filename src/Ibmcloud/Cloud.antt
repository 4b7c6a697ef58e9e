-- ===== src/Ibmcloud/Cloud.antt =====
-- What the SDK's session promises of the calls that the provider of pkg/provider/ibmcloud/provider.go
-- makes, over the sizes in GiB of the volumes of an account by their names, which are unique in it. A
-- call may fail at any point. Nothing is said of what UpdateVolume does.
use caa_csi_block_driver.Prelude.{ℤ, String, ◌≡◌, ◌⊎◌, Option, none, some, List, [], ◌∷◌}
use caa_csi_block_driver.Result.{GoError, Result, ok, err, other_error}
use caa_csi_block_driver.Provider.Specification.{Disks, put}
use caa_csi_block_driver.Ibmcloud.Volumes.{Volume, VolumePage, Session}

-- The answer to a search by name: no volume, or the only one of that name, whose name may be left out.
abbrev pub IsAnswer : Disks → (String → Option String) → String → List (Option Volume) → Type 0
IsAnswer sizes name_of name volumes =
    ((volumes ≡ []) × (sizes name ≡ none))
    ⊎ ((v : Volume) × (n : ℤ) × (volumes ≡ some v ∷ [])
        × ((v.name ≡ none) ⊎ (v.name ≡ some name))
        × (v.capacity ≡ some n)
        × (sizes name ≡ some n)
        × (name_of v.volume_id ≡ some name))

pub record VpcLaws {Cloud : Type 0} (session : Session Cloud) : Type 0 where
  pub sizes : Cloud → Disks
  pub name_of : Cloud → String → Option String
  -- The errors of the SDK are none of the driver's.
  pub list_foreign :
      {name : String} {c c' : Cloud} {e : GoError}
      → session.list_volumes 100 "" (("name", name) ∷ []) c ≡ (err e, c')
      → e.sentinel ≡ other_error
  pub list_answers :
      {name : String} {c c' : Cloud} {r : Option VolumePage}
      → session.list_volumes 100 "" (("name", name) ∷ []) c ≡ (ok r, c')
      → (page : VolumePage) × (r ≡ some page)
        × (page.next ≡ "")
        × (sizes c' ≡ sizes c)
        × IsAnswer (sizes c) (name_of c') name page.volumes
  pub create_puts :
      {request : Volume} {name : String} {n : ℤ} {c c' : Cloud} {r : Option Volume}
      → session.create_volume request c ≡ (ok r, c')
      → request.name ≡ some name
      → request.capacity ≡ some n
      → sizes c' ≡ put name (some n) (sizes c)
  pub get_keeps :
      {id : String} {c c' : Cloud} {r : Result (Option Volume)}
      → session.get_volume id c ≡ (r, c')
      → sizes c' ≡ sizes c
  pub delete_removes :
      {request : Volume} {name : String} {c c' : Cloud} {u : Unit {0}}
      → session.delete_volume request c ≡ (ok u, c')
      → name_of c request.volume_id ≡ some name
      → sizes c' ≡ put name none (sizes c)
