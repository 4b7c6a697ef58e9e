-- ===== src/Tests/Files.antt =====
-- A file system in memory, which keeps the laws of a platform.
use Prim.Native.Char.{code}
use caa_csi_block_driver.Prelude.{
  String, ◌<>◌, nat_eq, ◌≡◌, ◌≢◌, refl, true, false, Option, none, some, List, [], ◌∷◌, arith, ◌==◌,
  eq_iff, if◌then◌else◌, ne→==, cut_prefix, is_element, not, ap, inl, inr,
}
use caa_csi_block_driver.GoMap.{Params}
use caa_csi_block_driver.Result.{GoError, Result, ok, err, error, Result-cases}
use caa_csi_block_driver.Platform.{Platform, IsLawful, VolumeRecord, VolumeManifest, DirEntry}
use caa_csi_block_driver.Node.{MountInfo}
use caa_csi_block_driver.Store.Recovery.Rebuild.{Writes}
use caa_csi_block_driver.Controller.Delete.Outcomes.{Removes}
use caa_csi_block_driver.Tests.Numbers.{itoa, parse_int}

-- What a file holds, before it is printed as JSON.
pub data Content : Type 0 where
  volume_record : VolumeRecord → Content
  volume_manifest : VolumeManifest → Content
  mount_info : MountInfo → Content
  parameters : Option Params → Content

abbrev pub Disk : Type 0
Disk = List (String × Content)

abbrev pub not_exist : GoError
not_exist = record (error "file does not exist") { is_not_exist = true }

unfoldable pub find : String → Disk → Result Content
find p [] = err not_exist
find p ((q, b) ∷ f) = if q == p then ok b else find p f

unfoldable pub without : String → Disk → Disk
without p [] = []
without p ((q, b) ∷ f) = let rest = without p f in if q == p then rest else (q, b) ∷ rest

unfoldable pub forget : Result Content → Result (Unit {0})
forget (ok b) = ok tt
forget (err e) = err e

-- A text up to its first slash.
unfoldable pub first_part : String → String
first_part String.[] = ""
first_part (String.◌∷◌ c s) =
    let rest = first_part s in if nat_eq (code c) b'/' then "" else String.◌∷◌ c rest

-- What a listing shows of the rest of a path below the directory.
unfoldable pub entry_of : String → DirEntry
entry_of rest = record { name = first_part rest; is_dir = not (first_part rest == rest) }

unfoldable pub entries_of : String → Disk → List DirEntry
unfolding cut_prefix entry_of is_element first_part
entries_of d [] = []
entries_of d ((q, b) ∷ f) =
    let rest = entries_of d f in
    elim (cut_prefix q (d <> "/")) [
      | none ↦ rest
      | some name ↦ if is_element (entry_of name).name then entry_of name ∷ rest else rest
    ]

abbrev pub wrong_type : GoError
wrong_type = error "wrong type"

abbrev record_of : Content → Result VolumeRecord
record_of (volume_record r) = ok r
record_of _ = err wrong_type

abbrev manifest_of : Content → Result VolumeManifest
manifest_of (volume_manifest m) = ok m
manifest_of _ = err wrong_type

abbrev params_of : Content → Result (Option Params)
params_of (parameters p) = ok p
params_of _ = err wrong_type

-- A platform with some environment.
abbrev pub memory : (String → String) → Platform
memory getenv = record {
  Files = Disk;
  Bytes = Content;
  getenv = getenv;
  join = λ d name. d <> "/" <> name;
  itoa = itoa;
  parse_int = parse_int;
  read_file = λ f p. find p f;
  stat = λ f p. forget (find p f);
  read_dir = λ f d. ok (entries_of d f);
  write_file = λ f p b. (ok tt, (p, b) ∷ without p f);
  remove = λ f p. (forget (find p f), without p f);
  marshal_record = λ r. ok (volume_record r);
  unmarshal_record = record_of;
  marshal_manifest = λ m. ok (volume_manifest m);
  unmarshal_manifest = manifest_of;
  unmarshal_params = params_of;
}

find-without :
    (p q : String) (f : Disk) → find q (without p f) ≡ (if p == q then err not_exist else find q f)
unfolding find without
find-without p q [] = ground arith
find-without p q ((r, b) ∷ f) =
    ground (arith, eq_iff r p, eq_iff r q, eq_iff p q, find-without p q f)

pub find-without_ne : (p q : String) (f : Disk) → p ≢ q → find q (without p f) ≡ find q f
find-without_ne p q f ne = rw (find-without p q f, ne→== p q ne) refl

without_self : (p : String) (f : Disk) → find p (without p f) ≡ err not_exist
without_self p f = ground (arith, find-without p p f, eq_iff p p)

find-missing : (p : String) (f : Disk) (e : GoError) → find p f ≡ err e → e ≡ not_exist
unfolding find
find-missing p [] e h = cc
find-missing p ((q, b) ∷ f) e h = ground (arith, find-missing p f e)

write-find_ne :
    (p q : String) (b : Content) (f : Disk)
    → p ≢ q
    → (if p == q then ok b else find q (without p f)) ≡ find q f
write-find_ne p q b f ne = rw (ne→== p q ne) (find-without_ne p q f ne)

forget-found : (p : String) (b : Content) (f : Disk) → find p f ≡ ok b → forget (find p f) ≡ ok tt
unfolding forget
forget-found p b f h = rw h refl

removed_missing :
    (p : String) (f : Disk) (e : GoError)
    → forget (find p f) ≡ err e
    → find p (without p f) ≡ find p f
unfolding forget
removed_missing p f e h = elim (Result-cases (find p f)) [
  | inl (b, found) ↦ absurd (ground arith)
  | inr (c, missing) ↦ rw (missing, find-missing p f c missing) (without_self p f)
]

record_of-ok :
    (r : VolumeRecord) (b : Content)
    → ◌≡◌ {A = Result Content} (ok (volume_record r)) (ok b)
    → record_of b ≡ ok r
record_of-ok r b h = let e : volume_record r ≡ b = cc in rw (← e) refl

manifest_of-ok :
    (m : VolumeManifest) (b : Content)
    → ◌≡◌ {A = Result Content} (ok (volume_manifest m)) (ok b)
    → manifest_of b ≡ ok m
manifest_of-ok m b h = let e : volume_manifest m ≡ b = cc in rw (← e) refl

pub memory-IsLawful : (getenv : String → String) → IsLawful (memory getenv)
unfolding find
memory-IsLawful getenv = record {
  read-write = λ f p b h. ground (arith, eq_iff p p);
  read-write_ne = λ f p q b ne. write-find_ne p q b f ne;
  stat-write_ne = λ f p q b ne. ap forget (write-find_ne p q b f ne);
  stat-read = λ f p b h. forget-found p b f h;
  read-remove = λ f p h. (not_exist, without_self p f, refl);
  read-remove_failed = λ f p e h. removed_missing p f e h;
  read-remove_ne = λ f p q ne. find-without_ne p q f ne;
  record_roundtrip = λ r b h. record_of-ok r b h;
  manifest_roundtrip = λ m b h. manifest_of-ok m b h;
}

pub memory-Writes : (getenv : String → String) → Writes (memory getenv)
memory-Writes getenv = record { writes = λ f p b. refl; marshals = λ r. (volume_record r, refl) }

pub memory-Removes : (getenv : String → String) → Removes (memory getenv)
memory-Removes getenv = record { removes = λ f p. (not_exist, without_self p f, refl) }

-- Texts that a test tells apart.
pub apart : (s t : String) → (s == t) ≡ false → s ≢ t
apart s t h same = ground (arith, eq_iff s t)
