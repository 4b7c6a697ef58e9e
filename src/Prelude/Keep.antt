-- ===== src/Prelude/Keep.antt =====
-- Lists without the elements that fail a test.
use mathlib.Core.Path.{◌≡◌, refl}
use mathlib.Core.Bool.{Bool, true}
use mathlib.Core.List.{List, [], ◌∷◌, ◌++◌, map}
use native.Mathlib.Omega.{arith}
use caa_csi_block_driver.Prelude.Tests.{if◌then◌else◌}

module _ {A : Type 0} where
  unfoldable pub keep : (A → Bool) → List A → List A
  keep p [] = []
  keep p (x ∷ xs) = let rest = keep p xs in if p x then x ∷ rest else rest

  -- A list of no element, or of one.
  abbrev pub IsSingle : List A → Type 0
  IsSingle [] = Unit {0}
  IsSingle (x ∷ []) = Unit {0}
  IsSingle (x ∷ y ∷ xs) = ⊥

  pub keep-append : (p : A → Bool) (xs ys : List A) → keep p (xs ++ ys) ≡ keep p xs ++ keep p ys
  unfolding keep
  keep-append p [] ys = refl
  keep-append p (x ∷ xs) ys = ground (arith, keep-append p xs ys)

  pub keep-keep : (p q : A → Bool) (xs : List A) → keep p (keep q xs) ≡ keep q (keep p xs)
  unfolding keep
  keep-keep p q [] = refl
  keep-keep p q (x ∷ xs) = ground (arith, keep-keep p q xs)

  -- A map that the test does not notice.
  pub keep-map :
      (p : A → Bool) (f : A → A) (xs : List A)
      → ((x : A) → p (f x) ≡ p x)
      → keep p (map f xs) ≡ map f (keep p xs)
  unfolding keep
  keep-map p f [] h = refl
  keep-map p f (x ∷ xs) h = ground (arith, keep-map p f xs h, h x)

  -- What is kept passes the test.
  pub keep-true :
      (p : A → Bool) (xs : List A) (y : A) (ys : List A) → keep p xs ≡ y ∷ ys → p y ≡ true
  unfolding keep
  keep-true p [] y ys h = absurd (ground arith)
  keep-true p (x ∷ xs) y ys h = ground (arith, keep-true p xs y ys)
