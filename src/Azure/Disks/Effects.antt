-- ===== src/Azure/Disks/Effects.antt =====
-- What the volume operations of pkg/provider/azure/provider.go that succeed did to the disks of a
-- resource group with Azure's laws.
use caa_csi_block_driver.Prelude.{
  ℤ, le_int, String, ◌<>◌, ◌≡◌, ◌∙◌, sym, ap, ◌⊎◌, inl, inr, Bool, true, false, Option, none, some,
  [], ◌∷◌, arith, Bool-cases, ◌==◌, if◌then◌else◌,
}
use caa_csi_block_driver.Result.{Result, ok, err}
use caa_csi_block_driver.Provider.{Call, VolumeInfo}
use caa_csi_block_driver.Provider.Calls.{pure, try, wrapping, ◌>>=◌, bind_ok, try_ok, wrapping_ok}
use caa_csi_block_driver.Provider.Specification.{idle_at}
use caa_csi_block_driver.Azure.{
  Disk, NewDisk, Begin, AzureProvider, is_not_found, size_of, volume_tag_key,
}
use caa_csi_block_driver.Azure.Cloud.{ArmLaws, put}
use caa_csi_block_driver.Azure.Names.{disk_name}
use caa_csi_block_driver.Azure.Disks.{
  bytes_to_gib, new_disk, plain_info, finish, id_or_error, get_disk, exists_of, volume_exists,
  get_volume_info, make_disk, create_new, reuse_or, unless_exists, create_volume, finish_delete,
  delete_volume, enlarge, is_large_enough, expand_volume,
}

abbrev pub has_size : Option ℤ → Bool
has_size none = false
has_size (some n) = true

module _ {Cloud A : Type 0} where
  -- Both halves of an operation that succeeded.
  finish_ok :
      (m n : String) (begin : Begin Cloud A) (c : Cloud) {a : A} {c' : Cloud}
      → finish m n begin c ≡ (ok a, c')
      → (poller : Call Cloud A) × (c1 : Cloud) × (begin c ≡ (ok poller, c1))
        × (poller c1 ≡ (ok a, c'))
  unfolding finish
  finish_ok m n begin c h =
      let (poller, c1, e1, e2) =
        bind_ok (wrapping m begin) (λ (poller : Call Cloud A). wrapping n poller) c h in
      (poller, c1, wrapping_ok m begin c e1, wrapping_ok n poller c1 e2)

module _ {Cloud : Type 0} where
  id_or_error_keeps :
      (name : String) (i : Option String) (c : Cloud) {s : String} {c' : Cloud}
      → id_or_error name i c ≡ (ok s, c')
      → c ≡ c'
  unfolding id_or_error
  id_or_error_keeps name none c h = absurd (ground arith)
  id_or_error_keeps name (some i) c h = ground arith

module _ {Cloud : Type 0} (p : AzureProvider Cloud)
    (L : ArmLaws p.disks_client p.config.resource_group) where
  open p use {config}
  open L use {sizes}

  exists_of_lem :
      (name : String) (r : Result Disk) (c c1 : Cloud) {b : Bool} {c' : Cloud}
      → get_disk p name c ≡ (r, c1)
      → exists_of p name r c1 ≡ (ok b, c')
      → (b ≡ has_size (sizes c name)) × (sizes c' ≡ sizes c)
  unfolding exists_of get_disk
  exists_of_lem name (ok d) c c1 got h =
      let (n, known, there) = L.get_finds got in
      let kept = L.get_keeps got in (ground (arith, there), ground (arith, kept))
  exists_of_lem name (err e) c c1 got h = elim (Bool-cases (is_not_found e)) [
    | inl missing ↦
        let nothing = L.get_misses got missing in
        let kept = L.get_keeps got in (ground (arith, nothing), ground (arith, kept))
    | inr other ↦ absurd (ground arith)
  ]

  volume_exists_lem :
      (v : String) (c : Cloud) {b : Bool} {c' : Cloud}
      → volume_exists p v c ≡ (ok b, c')
      → (b ≡ has_size (sizes c (disk_name v))) × (sizes c' ≡ sizes c)
  unfolding volume_exists
  volume_exists_lem v c h =
      let (r, c1, e1, e2) =
        bind_ok (try (get_disk p (disk_name v))) (exists_of p (disk_name v)) c h in
      exists_of_lem (disk_name v) r c c1 (try_ok (get_disk p (disk_name v)) c e1) e2

  -- A disk that is found, with its size.
  found_disk :
      (message name : String) (c : Cloud) {d : Disk} {c' : Cloud}
      → wrapping message (get_disk p name) c ≡ (ok d, c')
      → (n : ℤ) × (d.disk_size_gb ≡ some n) × (sizes c name ≡ some n) × (sizes c' ≡ sizes c)
  unfolding get_disk
  found_disk message name c h =
      let got = wrapping_ok message (p.disks_client.get config.resource_group name) c h in
      let (n, known, there) = L.get_finds got in (n, known, there, L.get_keeps got)

  get_volume_info_keeps :
      (v : String) (c : Cloud) {info : VolumeInfo} {c' : Cloud}
      → get_volume_info p v c ≡ (ok info, c')
      → sizes c' ≡ sizes c
  unfolding get_volume_info
  get_volume_info_keeps v c h =
      let name = disk_name v in
      let find = wrapping ("failed to get disk " <> name) (get_disk p name) in
      let info_of =
        λ (d : Disk) (i : String). pure {Cloud = Cloud} (plain_info v (size_of d.disk_size_gb) i) in
      let (d, c1, e1, e2) =
        bind_ok find (λ (d : Disk). id_or_error name d.resource_id >>= info_of d) c h in
      let (i, c2, e3, e4) = bind_ok (id_or_error name d.resource_id) (info_of d) c1 e2 in
      let same = id_or_error_keeps name d.resource_id c1 e3 in
      let (n, known, there, kept) = found_disk ("failed to get disk " <> name) name c e1 in
      ground (arith, same, kept, e4)

  make_disk_lem :
      (m n name : String) (disk : NewDisk) (c : Cloud) {i : String} {c' : Cloud}
      → make_disk p m n name disk c ≡ (ok i, c')
      → sizes c' ≡ put name (some disk.disk_size_gb) (sizes c)
  unfolding make_disk
  make_disk_lem m n name disk c h =
      let begin = p.disks_client.begin_create_or_update config.resource_group name disk in
      let (d, c1, e1, e2) =
        bind_ok (finish m n begin) (λ (d : Disk). id_or_error name d.resource_id) c h in
      let (poller, c2, begun, done) = finish_ok m n begin c e1 in
      ap sizes (sym (id_or_error_keeps name d.resource_id c1 e2)) ∙ L.create_puts begun done

  create_new_lem :
      (v : String) (n : ℤ) (c : Cloud) {info : VolumeInfo} {c' : Cloud}
      → create_new p v n c ≡ (ok info, c')
      → sizes c' ≡ put (disk_name v) (some (bytes_to_gib n)) (sizes c)
  unfolding create_new new_disk
  create_new_lem v n c h =
      let name = disk_name v in
      let disk = new_disk config none n ((volume_tag_key, v) ∷ []) in
      let made =
        make_disk p ("failed to begin creating disk " <> name) ("failed to create disk " <> name)
          name disk in
      let (i, c1, e1, e2) = bind_ok made (λ (i : String). pure (plain_info v n i)) c h in
      let added = make_disk_lem _ _ name disk c e1 in ground (arith, added, e2)

  -- CreateVolume found a disk under the volume's name, or made one.
  pub create_volume_lem :
      (v : String) (n : ℤ) (c : Cloud) {info : VolumeInfo} {c' : Cloud}
      → create_volume p v n c ≡ (ok info, c')
      → ((has_size (sizes c (disk_name v)) ≡ true) × (sizes c' ≡ sizes c))
        ⊎ ((has_size (sizes c (disk_name v)) ≡ false)
            × (sizes c' ≡ put (disk_name v) (some (bytes_to_gib n)) (sizes c)))
  unfolding create_volume unless_exists
  create_volume_lem v n c {info} {c'} h = elim (Bool-cases (config.location == "")) [
    | inl unset ↦ absurd (ground arith)
    | inr located ↦
        let h' : (volume_exists p v >>= reuse_or p v (create_new p v n)) c ≡ (ok info, c') =
          ground arith in
        let (b, c1, e1, e2) = bind_ok (volume_exists p v) (reuse_or p v (create_new p v n)) c h' in
        let (found, kept) = volume_exists_lem v c e1 in
        elim (Bool-cases b) [
          | inl there ↦ inl (
            ground arith,
            get_volume_info_keeps v c1 {info = info} {c' = c'} (ground arith) ∙ kept,
          )
          | inr not_there ↦ inr (
            ground arith,
            create_new_lem v n c1 {info = info} {c' = c'} (ground arith)
                ∙ ap (put (disk_name v) (some (bytes_to_gib n))) kept,
          )
        ]
  ]

  finish_delete_lem :
      (name : String) (r : Result (Call Cloud (Unit {0}))) (c c1 : Cloud) {c' : Cloud}
      {u : Unit {0}}
      → p.disks_client.begin_delete config.resource_group name c ≡ (r, c1)
      → finish_delete p name r c1 ≡ (ok u, c')
      → (w : String) → sizes c' w ≡ put name none (sizes c) w
  unfolding finish_delete
  finish_delete_lem name (ok poller) c c1 begun h w =
      let gone =
        L.delete_removes begun (wrapping_ok ("failed to delete disk " <> name) poller c1 h) in
      ap (λ d. d w) gone
  finish_delete_lem name (err e) c c1 {c'} begun h w = elim (Bool-cases (is_not_found e)) [
    | inl missing ↦
        let (nothing, kept) = L.delete_misses begun missing in
        let same : sizes c' ≡ sizes c1 = ground arith in
        ap (λ d. d w) (same ∙ kept) ∙ idle_at name w (sizes c) (λ _. none) (sym nothing)
    | inr other ↦ absurd (ground arith)
  ]

  -- After a DeleteVolume that succeeded there is no disk under the volume's name.
  pub delete_volume_lem :
      (v : String) (c : Cloud) {c' : Cloud} {u : Unit {0}}
      → delete_volume p v c ≡ (ok u, c')
      → (w : String) → sizes c' w ≡ put (disk_name v) none (sizes c) w
  unfolding delete_volume
  delete_volume_lem v c h =
      let begin = p.disks_client.begin_delete config.resource_group (disk_name v) in
      let (r, c1, e1, e2) = bind_ok (try begin) (finish_delete p (disk_name v)) c h in
      finish_delete_lem (disk_name v) r c c1 (try_ok begin c e1) e2

  enlarge_lem :
      (name : String) (size : ℤ) (big : Bool) (c : Cloud) {c' : Cloud} {u : Unit {0}}
      → enlarge p name size big c ≡ (ok u, c')
      → sizes c' ≡ (if big then sizes c else put name (some size) (sizes c))
  unfolding enlarge
  enlarge_lem name size true c h = ground arith
  enlarge_lem name size false c h =
      let (poller, c1, begun, done) =
        finish_ok _ _ (p.disks_client.begin_update config.resource_group name size) c h in
      L.update_puts begun done

  -- ExpandVolume found a disk, and resized it unless it was large enough.
  pub expand_volume_lem :
      (v : String) (n : ℤ) (c : Cloud) {c' : Cloud} {u : Unit {0}}
      → expand_volume p v n c ≡ (ok u, c')
      → (m : ℤ) × (sizes c (disk_name v) ≡ some m)
        × (sizes c' ≡ (
            if le_int (bytes_to_gib n) m
            then sizes c
            else put (disk_name v) (some (bytes_to_gib n)) (sizes c)))
  unfolding expand_volume
  expand_volume_lem v n c h =
      let name = disk_name v in
      let size = bytes_to_gib n in
      let find = wrapping ("failed to get disk " <> name) (get_disk p name) in
      let act = λ (d : Disk). enlarge p name size (is_large_enough size d.disk_size_gb) in
      let (d, c1, e1, e2) = bind_ok find act c h in
      let (m, known, there, kept) = found_disk ("failed to get disk " <> name) name c e1 in
      let done = enlarge_lem name size (is_large_enough size d.disk_size_gb) c1 e2 in
      (m, there, rw (known, kept) at done)
