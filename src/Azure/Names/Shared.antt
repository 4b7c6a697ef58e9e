-- ===== src/Azure/Names/Shared.antt =====
-- Which CSI volumes get the same name of a disk in pkg/provider/azure/provider.go.
use Prim.Native.Char.{Char, code}
use text.Mathlib.TextEquality.{Char-path}
use text.Mathlib.TextLemmas.{append_cancel_left}
use caa_csi_block_driver.Prelude.{
  ℕ, zero, suc, ◌≤◌, String, ◌<>◌, ◌≡◌, ◌↔◌, refl, ◌∙◌, sym, ap, true, false, ◌⊎◌, arith,
  Bool-cases, inl, inr, if◌then◌else◌,
}
use caa_csi_block_driver.Azure.Names.{
  is_name_code, dash, sanitize, cut, disk_name, disk_name_prefix,
}
use caa_csi_block_driver.Azure.Names.Laws.{disk_name_lem}

-- The numbers of a dash and of all characters but letters and digits of ASCII, a dot and an
-- underscore.
abbrev pub IsReplaced : ℕ → Type 0
IsReplaced n =
    (n ≤ 45) ⊎ (n ≡ 47) ⊎ ((58 ≤ n) × (n ≤ 64)) ⊎ ((91 ≤ n) × (n ≤ 94)) ⊎ (n ≡ 96) ⊎ (123 ≤ n)

-- The same character, or two that a name has a dash for.
abbrev pub IsAlike : Char → Char → Type 0
IsAlike c d = (c ≡ d) ⊎ (IsReplaced (code c) × IsReplaced (code d))

-- Whether two texts are alike in their first characters, or are alike and shorter.
unfoldable pub Alike : ℕ → String → String → Type 0
Alike zero s t = Unit {0}
Alike (suc n) String.[] String.[] = Unit {0}
Alike (suc n) String.[] (String.◌∷◌ d t) = ⊥
Alike (suc n) (String.◌∷◌ c s) String.[] = ⊥
Alike (suc n) (String.◌∷◌ c s) (String.◌∷◌ d t) = IsAlike c d × Alike n s t

IsReplaced-of_other : (n : ℕ) → is_name_code n ≡ false → IsReplaced n
unfolding is_name_code
IsReplaced-of_other n h = ground arith

name-replaced : (n : ℕ) → is_name_code n ≡ true → IsReplaced n → n ≡ 45
unfolding is_name_code
name-replaced n h r = ground arith

-- What a name has for a character.
abbrev mask : Char → Char
mask c = if is_name_code (code c) then c else dash

mask-IsReplaced : (c : Char) → IsReplaced (code c) → mask c ≡ dash
mask-IsReplaced c r = elim (Bool-cases (is_name_code (code c))) [
  | inl name ↦ rw name (Char-path c dash (name-replaced (code c) name r))
  | inr not_name ↦ rw not_name refl
]

IsReplaced-dash : (c : Char) → c ≡ dash → IsReplaced (code c)
IsReplaced-dash c e = let n : code c ≡ 45 = ap (λ (d : Char). code d) e in inl (omega arith)

mask_eq_iff : (c d : Char) → mask c ≡ mask d ↔ IsAlike c d
mask_eq_iff c d = (mask_alike, alike_mask)
  where
    mask_alike : mask c ≡ mask d → IsAlike c d
    mask_alike h = elim (Bool-cases (is_name_code (code c))) [
      | inl name ↦ elim (Bool-cases (is_name_code (code d))) [
        | inl name' ↦ inl (rw (name, name') at h)
        | inr other ↦
            inr (IsReplaced-dash c (rw (name, other) at h), IsReplaced-of_other (code d) other)
      ]
      | inr other ↦ elim (Bool-cases (is_name_code (code d))) [
        | inl name' ↦
            inr
              (IsReplaced-of_other (code c) other, IsReplaced-dash d (sym (rw (other, name') at h)))
        | inr other' ↦ inr (IsReplaced-of_other (code c) other, IsReplaced-of_other (code d) other')
      ]
    ]

    alike_mask : IsAlike c d → mask c ≡ mask d
    alike_mask (inl same) = ap (λ (b : Char). mask b) same
    alike_mask (inr (r, r')) = mask-IsReplaced c r ∙ sym (mask-IsReplaced d r')

unfoldable head_or_dash : String → Char
head_or_dash String.[] = dash
head_or_dash (String.◌∷◌ c s) = c

unfoldable tail : String → String
tail String.[] = String.[]
tail (String.◌∷◌ c s) = s

unfoldable is_nil : String → ℕ
is_nil String.[] = 0
is_nil (String.◌∷◌ c s) = 1

cut-sanitize_eq_iff : (n : ℕ) (s t : String) → cut n (sanitize s) ≡ cut n (sanitize t) ↔ Alike n s t
unfolding cut sanitize Alike head_or_dash tail is_nil
cut-sanitize_eq_iff zero s t = (λ e. tt, λ a. refl)
cut-sanitize_eq_iff (suc n) String.[] String.[] = (λ e. tt, λ a. refl)
cut-sanitize_eq_iff (suc n) String.[] (String.◌∷◌ d t) =
    (λ e. let lengths : ◌≡◌ {A = ℕ} 0 1 = ap is_nil e in absurd (omega arith), λ a. absurd a)
cut-sanitize_eq_iff (suc n) (String.◌∷◌ c s) String.[] =
    (λ e. let lengths : ◌≡◌ {A = ℕ} 1 0 = ap is_nil e in absurd (omega arith), λ a. absurd a)
cut-sanitize_eq_iff (suc n) (String.◌∷◌ c s) (String.◌∷◌ d t) = (
  λ e. ((mask_eq_iff c d).0 (ap head_or_dash e), (cut-sanitize_eq_iff n s t).0 (ap tail e)),
  λ (first, rest).
      ap (λ (b : Char). String.◌∷◌ b (cut n (sanitize s))) ((mask_eq_iff c d).1 first)
      ∙ ap (λ (u : String). String.◌∷◌ (mask d) u) ((cut-sanitize_eq_iff n s t).1 rest),
)

-- Two volumes get the same name of a disk exactly if their IDs are alike in their first 72
-- characters: at each position they have the same character, or each has a dash or a character that
-- is no letter or digit of ASCII, no dot and no underscore, and both end there or neither does.
pub disk_name-eq_iff : (v w : String) → disk_name v ≡ disk_name w ↔ Alike 72 v w
disk_name-eq_iff v w = (
  λ e. (cut-sanitize_eq_iff 72 v w).0 (
      append_cancel_left disk_name_prefix (cut 72 (sanitize v)) (cut 72 (sanitize w))
        (sym (disk_name_lem v) ∙ e ∙ disk_name_lem w)),
  λ a.
      disk_name_lem v
      ∙ ap (λ (t : String). disk_name_prefix <> t) ((cut-sanitize_eq_iff 72 v w).1 a)
      ∙ sym (disk_name_lem w),
)
