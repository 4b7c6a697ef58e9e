-- ===== src/Prelude/Text.antt =====
-- Go's filepath.Ext, strings.Contains, strings.Split and strings.CutPrefix.
use Prim.Native.Nat.{ℕ}
use Prim.Native.Char.{Char, code}
use Prim.Native.String.{String}
use mathlib.Core.Bool.{Bool, true, false, not, ◌&&◌, ◌||◌}
use mathlib.Core.List.{List, [], ◌∷◌}
use mathlib.Core.Option.{Option, none, some}
use mathlib.Core.Path.{◌≡◌, ap, ◌∙◌}
use native.Mathlib.Omega.{arith}
use text.Mathlib.TextEquality.{Char-path}
use text.Mathlib.TextLemmas.{nil-append, cons-append}
use Prim.Native.String.{◌++◌ as ◌<>◌}
use text.Mathlib.Text.{◌==◌, find?}
use caa_csi_block_driver.Prelude.Tests.{nat_eq, if◌then◌else◌}

has_slash : String → Bool
has_slash String.[] = false
has_slash (String.◌∷◌ c s) = nat_eq (code c) b'/' || has_slash s

-- Whether a text can be the name of a directory entry.
unfoldable pub is_element : String → Bool
unfolding has_slash
is_element name = not (has_slash name || name == "." || name == "..")

-- The suffix from the last dot of the last path element, or "".
unfoldable pub ext : String → String
unfolding has_slash
ext String.[] = ""
ext (String.◌∷◌ c s) =
    let rest = ext s in
    if not (rest == "")
    then rest
    else if nat_eq (code c) b'.' && not (has_slash s)
    then String.◌∷◌ c s
    else ""

-- strings.Contains(s, part)
unfoldable pub contains : String → String → Bool
contains s part = elim (find? s part) [ none ↦ false | some _ ↦ true ]

abbrev prepend : Char → List String → List String
prepend c [] = []
prepend c (part ∷ parts) = String.◌∷◌ c part ∷ parts

-- strings.Split(s, sep), for a separator of one character
unfoldable pub split : ℕ → String → List String
split sep String.[] = String.[] ∷ []
split sep (String.◌∷◌ c s) =
    let parts = split sep s in if nat_eq (code c) sep then String.[] ∷ parts else prepend c parts

-- strings.CutPrefix: what is left of a text after a prefix that it has, as HasPrefix and TrimPrefix
-- give it.
unfoldable pub cut_prefix : String → String → Option String
cut_prefix s String.[] = some s
cut_prefix String.[] (String.◌∷◌ c prefix) = none
cut_prefix (String.◌∷◌ d s) (String.◌∷◌ c prefix) =
    let rest = cut_prefix s prefix in if nat_eq (code c) (code d) then rest else none

pub cut_prefix_sound :
    (s prefix rest : String) → cut_prefix s prefix ≡ some rest → prefix <> rest ≡ s
unfolding cut_prefix
cut_prefix_sound s String.[] rest h = nil-append rest ∙ (ground arith)
cut_prefix_sound String.[] (String.◌∷◌ c prefix) rest h = absurd (ground arith)
cut_prefix_sound (String.◌∷◌ d s) (String.◌∷◌ c prefix) rest h =
    let same : code c ≡ code d = ground arith in
    let e : c ≡ d = Char-path c d same in
    let ih = cut_prefix_sound s prefix rest (ground arith) in
    cons-append c prefix rest
    ∙ ap (λ (t : String). String.◌∷◌ c t) ih
    ∙ ap (λ ch. String.◌∷◌ ch s) e
