-- ===== src/Azure/Names/Laws.antt =====
-- The names that pkg/provider/azure/provider.go gives to disks: their form.
use Prim.Native.Char.{code}
use Prim.Native.String.{count}
use text.Mathlib.TextLemmas.{length-nil, length-cons, length-append, cons-append, nil-append}
use caa_csi_block_driver.Prelude.{
  ℕ, zero, suc, ◌+◌, ◌≤◌, ltb, String, ◌<>◌, ◌≡◌, refl, ◌∙◌, sym, ap, Bool, true, ◌&&◌, arith,
  Bool-cases, inl, inr, ◌⊎◌,
}
use caa_csi_block_driver.Azure.Names.{
  is_name_code, dash, sanitize, cut, truncate, disk_name, disk_name_prefix,
}

-- A text of the characters that Azure allows.
unfoldable pub is_clean : String → Bool
is_clean String.[] = true
is_clean (String.◌∷◌ c s) = is_name_code (code c) && is_clean s

is_name_code-dash : is_name_code (code dash) ≡ true
unfolding is_name_code
is_name_code-dash = refl

sanitize-is_clean : (s : String) → is_clean (sanitize s) ≡ true
unfolding is_clean sanitize
sanitize-is_clean String.[] = refl
sanitize-is_clean (String.◌∷◌ c s) = elim (Bool-cases (is_name_code (code c))) [
  | inl e ↦ rw (e, e, sanitize-is_clean s) refl
  | inr e ↦ rw (e, is_name_code-dash, sanitize-is_clean s) refl
]

is_clean-append : (s t : String) → is_clean (s <> t) ≡ (is_clean s && is_clean t)
unfolding is_clean
is_clean-append String.[] t = rw (nil-append t) refl
is_clean-append (String.◌∷◌ c s) t = rw (cons-append c s t, is_clean-append s t) (ground arith)

prefix-is_clean : (is_clean disk_name_prefix && true) ≡ true
unfolding is_clean is_name_code
prefix-is_clean = refl

cut-is_clean : (n : ℕ) (s : String) → is_clean s ≡ true → is_clean (cut n s) ≡ true
unfolding is_clean cut
cut-is_clean zero s h = refl
cut-is_clean (suc n) String.[] h = refl
cut-is_clean (suc n) (String.◌∷◌ c s) h = ground (arith, cut-is_clean n s)

cut-count : (n : ℕ) (s : String) → count (cut n s) ≤ n
unfolding cut
cut-count zero s = rw length-nil (omega arith)
cut-count (suc n) String.[] = rw length-nil (omega arith)
cut-count (suc n) (String.◌∷◌ c s) = rw (length-cons c (cut n s)) (omega (arith, cut-count n s))

cut_all : (n : ℕ) (s : String) → count s ≤ n → cut n s ≡ s
unfolding cut
cut_all zero String.[] h = refl
cut_all zero (String.◌∷◌ c s) h = absurd (omega (arith, length-cons c s))
cut_all (suc n) String.[] h = refl
cut_all (suc n) (String.◌∷◌ c s) h =
    ap (λ (t : String). String.◌∷◌ c t) (cut_all n s (omega (arith, length-cons c s)))

cut-append : (k n : ℕ) (s t : String) → k ≡ count s + n → cut k (s <> t) ≡ s <> cut n t
unfolding cut
cut-append k n String.[] t h =
    let e : k ≡ n = omega (arith, length-nil) in
    rw (nil-append t, nil-append (cut n t)) (ap (λ m. cut m t) e)
cut-append zero n (String.◌∷◌ c s) t h = absurd (omega (arith, length-cons c s))
cut-append (suc k) n (String.◌∷◌ c s) t h =
    rw (cons-append c s t, cons-append c s (cut n t))
      (ap (λ (u : String). String.◌∷◌ c u) (cut-append k n s t (omega (arith, length-cons c s))))

truncate_lem : (name : String) → truncate name ≡ cut 80 name
unfolding truncate
truncate_lem name = elim (Bool-cases (ltb 80 (count name))) [
  | inl e ↦ rw e refl
  | inr e ↦ rw e (sym (cut_all 80 name (ground arith)))
]

-- A disk's name is the prefix and the first 72 characters of the volume's ID, each that Azure does
-- not allow replaced.
pub disk_name_lem : (v : String) → disk_name v ≡ disk_name_prefix <> cut 72 (sanitize v)
unfolding disk_name
disk_name_lem v = truncate_lem _ ∙ cut-append 80 72 disk_name_prefix (sanitize v) refl

-- The number of a letter or a digit of ASCII, a dash, a dot or an underscore.
abbrev pub IsName : ℕ → Type 0
IsName n =
    (n ≡ 45)
    ⊎ (n ≡ 46)
    ⊎ ((48 ≤ n) × (n ≤ 57))
    ⊎ ((65 ≤ n) × (n ≤ 90))
    ⊎ (n ≡ 95)
    ⊎ ((97 ≤ n) × (n ≤ 122))

unfoldable pub AreNames : String → Type 0
AreNames String.[] = Unit {0}
AreNames (String.◌∷◌ c s) = IsName (code c) × AreNames s

IsName-is_name_code : (n : ℕ) → is_name_code n ≡ true → IsName n
unfolding is_name_code
IsName-is_name_code n h = ground arith

AreNames-is_clean : (s : String) → is_clean s ≡ true → AreNames s
unfolding is_clean AreNames
AreNames-is_clean String.[] h = tt
AreNames-is_clean (String.◌∷◌ c s) h =
    (IsName-is_name_code (code c) (ground arith), AreNames-is_clean s (ground arith))

disk_name-is_clean : (v : String) → is_clean (disk_name v) ≡ true
disk_name-is_clean v =
    rw
      (
        disk_name_lem v,
        is_clean-append disk_name_prefix (cut 72 (sanitize v)),
        cut-is_clean 72 (sanitize v) (sanitize-is_clean v),
      )
      prefix-is_clean

-- The name of a volume's disk has at most 80 characters, all of them letters or digits of ASCII,
-- dashes, dots or underscores, and starts with the driver's prefix.
pub disk_name_sound :
    (v : String)
    → (count (disk_name v) ≤ 80)
      × (is_clean (disk_name v) ≡ true)
      × AreNames (disk_name v)
      × ((rest : String) × (disk_name v ≡ disk_name_prefix <> rest))
disk_name_sound v = (
  rw (disk_name_lem v, length-append disk_name_prefix (cut 72 (sanitize v)))
      (omega (arith, cut-count 72 (sanitize v))),
  disk_name-is_clean v,
  AreNames-is_clean (disk_name v) (disk_name-is_clean v),
  (cut 72 (sanitize v), disk_name_lem v),
)
