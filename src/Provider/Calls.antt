-- ===== src/Provider/Calls.antt =====
-- How a provider's methods are put together from calls of its cloud: a Go function that returns
-- early with the error of a call.
use caa_csi_block_driver.Prelude.{String, Bool, true, false, ◌≡◌, refl, ◌⊎◌, inl, inr, arith}
use caa_csi_block_driver.Result.{GoError, Result, ok, err, wrap}
use caa_csi_block_driver.Provider.{Call}

module _ {A : Type 0} where
  abbrev wrapped : String → Result A → Result A
  wrapped prefix (ok a) = ok a
  wrapped prefix (err e) = err (wrap prefix e)

module _ {Cloud A : Type 0} where
  abbrev pub pure : A → Call Cloud A
  pure a c = (ok a, c)

  abbrev pub fail : GoError → Call Cloud A
  fail e c = (err e, c)

  -- The result of a function that makes no call.
  abbrev pub returning : Result A → Call Cloud A
  returning r c = (r, c)

  -- fmt.Errorf("…: %w", err) around the error of a call
  unfoldable pub wrapping : String → Call Cloud A → Call Cloud A
  wrapping prefix m c = let (r, c') = m c in (wrapped prefix r, c')

  -- A call whose error the caller inspects, or only logs.
  unfoldable pub try : Call Cloud A → Call Cloud (Result A)
  try m c = let (r, c') = m c in (ok r, c')

module _ {Cloud : Type 0} where
  -- if bad { return nil, err }
  abbrev pub reject_if : Bool → GoError → Call Cloud (Unit {0})
  reject_if true e c = (err e, c)
  reject_if false e c = (ok tt, c)

module _ {Cloud A B : Type 0} where
  abbrev continue : Result A → (A → Call Cloud B) → Call Cloud B
  continue (ok a) f c = f a c
  continue (err e) f c = (err e, c)

  infixl 10 ◌>>=◌ ◌>>◌
  unfoldable pub ◌>>=◌ : Call Cloud A → (A → Call Cloud B) → Call Cloud B
  ◌>>=◌ m f c = let (r, c') = m c in continue r f c'

  abbrev pub ◌>>◌ : Call Cloud A → Call Cloud B → Call Cloud B
  m >> n = m >>= λ _. n

-- What a call that succeeds did on the way.
module _ {Cloud A : Type 0} where
  pub wrapping_ok :
      (prefix : String) (m : Call Cloud A) (c : Cloud) {a : A} {c' : Cloud}
      → wrapping prefix m c ≡ (ok a, c')
      → m c ≡ (ok a, c')
  unfolding wrapping
  wrapping_ok prefix m c h = ground arith

  pub try_ok :
      (m : Call Cloud A) (c : Cloud) {r : Result A} {c' : Cloud}
      → try m c ≡ (ok r, c')
      → m c ≡ (r, c')
  unfolding try
  try_ok m c h = ground arith

module _ {Cloud A B : Type 0} where
  -- A first call that succeeded, and what came after it.
  continue_ok :
      (f : A → Call Cloud B) (s : Result A × Cloud) {b : B} {c' : Cloud}
      → (let (r, c1) = s in continue r f c1) ≡ (ok b, c')
      → (a : A) × (c1 : Cloud) × (s ≡ (ok a, c1)) × (f a c1 ≡ (ok b, c'))
  continue_ok f (ok a, c1) h = (a, c1, refl, h)
  continue_ok f (err e, c1) h = absurd (ground arith)

  pub bind_ok :
      (m : Call Cloud A) (f : A → Call Cloud B) (c : Cloud) {b : B} {c' : Cloud}
      → (m >>= f) c ≡ (ok b, c')
      → (a : A) × (c1 : Cloud) × (m c ≡ (ok a, c1)) × (f a c1 ≡ (ok b, c'))
  unfolding ◌>>=◌
  bind_ok m f c h = continue_ok f (m c) h

  continue_cases :
      (f : A → Call Cloud B) (s : Result A × Cloud) {r : Result B} {c' : Cloud}
      → (let (t, c1) = s in continue t f c1) ≡ (r, c')
      → ((a : A) × (c1 : Cloud) × (s ≡ (ok a, c1)) × (f a c1 ≡ (r, c')))
        ⊎ ((e : GoError) × (s ≡ (err e, c')) × (r ≡ err e))
  continue_cases f (ok a, c1) h = inl (a, c1, refl, h)
  continue_cases f (err e, c1) h = inr (e, ground arith, ground arith)

  -- A first call that succeeded, and what came after it, or one whose error was returned.
  pub bind_cases :
      (m : Call Cloud A) (f : A → Call Cloud B) (c : Cloud) {r : Result B} {c' : Cloud}
      → (m >>= f) c ≡ (r, c')
      → ((a : A) × (c1 : Cloud) × (m c ≡ (ok a, c1)) × (f a c1 ≡ (r, c')))
        ⊎ ((e : GoError) × (m c ≡ (err e, c')) × (r ≡ err e))
  unfolding ◌>>=◌
  bind_cases m f c h = continue_cases f (m c) h

module _ {Cloud A : Type 0} where
  wrapped_err :
      (prefix : String) (s : Result A × Cloud) {e : GoError} {c' : Cloud}
      → ◌≡◌ {A = Result A × Cloud} (let (r, c1) = s in (wrapped prefix r, c1)) (err e, c')
      → (x : GoError) × (s ≡ (err x, c'))
  wrapped_err prefix (ok a, c1) h = absurd (ground arith)
  wrapped_err prefix (err x, c1) h = (x, ground arith)

  pub wrapping_err :
      (prefix : String) (m : Call Cloud A) (c : Cloud) {e : GoError} {c' : Cloud}
      → wrapping prefix m c ≡ (err e, c')
      → (x : GoError) × (m c ≡ (err x, c'))
  unfolding wrapping
  wrapping_err prefix m c h = wrapped_err prefix (m c) h
