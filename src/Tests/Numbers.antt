-- ===== src/Tests/Numbers.antt =====
-- Indices in unary, as a stand-in for strconv.Itoa and strconv.Atoi.
use Prim.Native.Char.{code}
use text.Mathlib.TextLemmas.{cons≢nil}
use caa_csi_block_driver.Prelude.{
  ℕ, zero, suc, ℤ, pos, negsuc, nat_eq, String, ◌≡◌, ◌≢◌, refl, Option, none, some, if◌then◌else◌,
}

-- Zero is "0", and 3 is "1110".
unfoldable pub itoa : ℕ → String
itoa zero = "0"
itoa (suc n) = String.◌∷◌ "1" (itoa n)

succ : Option ℕ → Option ℕ
succ none = none
succ (some n) = some (suc n)

unfoldable pub parse_index : String → Option ℕ
unfolding succ
parse_index String.[] = none
parse_index (String.◌∷◌ c s) =
    let rest = parse_index s in if nat_eq (code c) b'1' then succ rest else some 0

signed : Option ℕ → Option ℤ
signed none = none
signed (some n) = some (pos n)

negated : Option ℕ → Option ℤ
negated none = none
negated (some zero) = some (pos 0)
negated (some (suc n)) = some (negsuc n)

unfoldable pub parse_int : String → Option ℤ
unfolding signed negated parse_index
parse_int String.[] = none
parse_int (String.◌∷◌ c s) =
    if nat_eq (code c) b'-' then negated (parse_index s) else signed (parse_index (String.◌∷◌ c s))

parse_index-itoa : (n : ℕ) → parse_index (itoa n) ≡ some n
unfolding parse_index itoa
parse_index-itoa zero = refl
parse_index-itoa (suc n) = rw (parse_index-itoa n) refl

pub parse_int-itoa : (n : ℕ) → parse_int (itoa n) ≡ some (pos n)
unfolding parse_int itoa
parse_int-itoa zero = refl
parse_int-itoa (suc n) = rw (parse_index-itoa n) refl

pub itoa-nonempty : (n : ℕ) → itoa n ≢ ""
unfolding itoa
itoa-nonempty zero h = cons≢nil h
itoa-nonempty (suc n) h = cons≢nil h
