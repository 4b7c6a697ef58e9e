-- ===== src/Action/Post.antt =====
-- What a handler guarantees when it returns a response: a relation between the state before, the
-- response and the state after, with a rule for each way to build a handler.
use caa_csi_block_driver.Prelude.{◌≡◌, refl, ap, arith}
use caa_csi_block_driver.Result.{Code, Reply, done, status, panic}
use caa_csi_block_driver.Action.{Action, fail, ◌>>=◌, continue}

pub record Ensures {W A : Type 0} (m : Action W A) (Q : W → A → W → Type 0) : Type 0 where
  pub at : (w w' : W) (a : A) → m w ≡ (done a, w') → Q w a w'

module _ {W A : Type 0} where
  pub Ensures-fail : (c : Code) (Q : W → A → W → Type 0) → Ensures (fail c) Q
  Ensures-fail c Q = record { at = λ w w' a h. absurd (ground arith) }

module _ {W A : Type 0} {R : W → A → W → Type 0} where
  -- What is guaranteed, and the run that gave it.
  pub Ensures-run :
      (m : Action W A) → Ensures m R → Ensures m (λ w a u. (m w ≡ (done a, u)) × R w a u)
  Ensures-run m em = record { at = λ w w' a h. (h, em.at w w' a h) }

module _ {W A B : Type 0} where
  continue-done :
      (r : Reply A) (f : A → Action W B) (u w' : W) (b : B)
      → continue r f u ≡ (done b, w')
      → (a : A) × (r ≡ done a) × (f a u ≡ (done b, w'))
  continue-done (done a) f u w' b h = (a, refl, h)
  continue-done (status c) f u w' b h = absurd (ground arith)
  continue-done panic f u w' b h = absurd (ground arith)

  pub Ensures-bind :
      (m : Action W A) (f : A → Action W B) {R : W → A → W → Type 0} {Q : W → B → W → Type 0}
      → Ensures m R
      → ((a : A) (w u : W) → R w a u → (w' : W) (b : B) → f a u ≡ (done b, w') → Q w b w')
      → Ensures (m >>= f) Q
  unfolding ◌>>=◌
  Ensures-bind m f em ef = record {
    at = λ w w' b h.
        let (a, returned, rest) = continue-done (m w).0 f (m w).1 w' b h in
        ef a w (m w).1 (em.at w (m w).1 a (ap (λ (r : Reply A). (r, (m w).1)) returned)) w' b rest;
  }
