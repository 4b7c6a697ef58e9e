-- ===== src/GoMap.antt =====
-- Go's `map[string]string`. A map that may be nil is an `Option`; reading a nil map gives "".
-- Go iterates over a map in an unspecified order: a loop over one is a fold from the right.
use caa_csi_block_driver.Prelude.{
  String, ◌≡◌, ◌≢◌, refl, Bool, true, false, Option, none, some, List, [], ◌∷◌, arith, ◌==◌, eq_iff,
  if◌then◌else◌,
}

abbrev pub Params : Type 0
Params = List (String × String)

unfoldable pub lookup : String → Params → Option String
lookup k [] = none
lookup k ((j, v) ∷ m) = if j == k then some v else lookup k m

-- The zero value of a missing key.
abbrev pub or_empty : Option String → String
or_empty none = ""
or_empty (some v) = v

-- m[k]
abbrev pub get : Params → String → String
get m k = or_empty (lookup k m)

-- m[k] = v
unfoldable pub set : Params → String → String → Params
set [] k v = (k, v) ∷ []
set ((j, w) ∷ m) k v = if j == k then (k, v) ∷ m else (j, w) ∷ set m k v

-- delete(m, k)
unfoldable pub erase : Params → String → Params
erase [] k = []
erase ((j, w) ∷ m) k = let rest = erase m k in if j == k then rest else (j, w) ∷ rest

-- for k, v := range m { out[k] = v }
unfoldable pub copy_into : Params → Params → Params
unfolding set
copy_into out [] = out
copy_into out ((k, v) ∷ m) = set (copy_into out m) k v

-- The entries of a map that may be nil, for code that only reads it.
abbrev pub entries : Option Params → Params
entries none = []
entries (some m) = m

-- len(m) > 0
abbrev pub has_entries : Params → Bool
has_entries [] = false
has_entries (e ∷ m) = true

pub lookup-set :
    (m : Params) (k v j : String) → lookup j (set m k v) ≡ (if k == j then some v else lookup j m)
unfolding lookup set
lookup-set [] k v j = refl
lookup-set ((i, w) ∷ m) k v j =
    ground (arith, eq_iff k j, eq_iff i k, eq_iff i j, lookup-set m k v j)

pub lookup-erase :
    (m : Params) (k j : String) → lookup j (erase m k) ≡ (if k == j then none else lookup j m)
unfolding lookup erase
lookup-erase [] k j = ground arith
lookup-erase ((i, w) ∷ m) k j =
    ground (arith, eq_iff k j, eq_iff i k, eq_iff i j, lookup-erase m k j)

-- The value of a key in a copy: the source's if it has one, or what was there before.
abbrev pub or_else : Option String → Option String → Option String
or_else none old = old
or_else (some v) old = some v

pub lookup-copy_into :
    (out m : Params) (j : String) → lookup j (copy_into out m) ≡ or_else (lookup j m) (lookup j out)
unfolding lookup copy_into
lookup-copy_into out [] j = refl
lookup-copy_into out ((k, v) ∷ m) j =
    ground (arith, lookup-set (copy_into out m) k v j, lookup-copy_into out m j)

-- A write leaves the values of other keys.
pub get-set_ne : (m : Params) (k j : String) → k ≢ j → (v : String) → get (set m k v) j ≡ get m j
get-set_ne m k j ne v = ground (arith, lookup-set m k v j, eq_iff k j)

pub ruleset map_laws = (lookup-set, lookup-erase, lookup-copy_into)
