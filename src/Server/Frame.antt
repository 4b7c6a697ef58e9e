-- ===== src/Server/Frame.antt =====
-- Handlers that leave the node's files alone, one rule for each way to build one.
use caa_csi_block_driver.Action.Post.{Ensures}
use caa_csi_block_driver.Prelude.{sym, ap, ◌≡◌, refl, ◌∙◌, Bool, true, false}
use caa_csi_block_driver.Result.{Code, Reply, done, status, panic}
use caa_csi_block_driver.Action.{pure, fail, reject_if, ◌>>=◌, continue}
use caa_csi_block_driver.Provider.{Call}
use caa_csi_block_driver.Server.{Setup, World, Handler, call, attempt}

pub record KeepsFiles {S : Setup} {A : Type 0} (m : Handler S A) : Type 0 where
  pub at : (w : World S) → (m w).1.files ≡ w.files

module _ {S : Setup} {A : Type 0} where
  pub KeepsFiles-pure : (a : A) → KeepsFiles {S = S} (pure a)
  KeepsFiles-pure a = record { at = λ w. refl }

  pub KeepsFiles-fail : (c : Code) → KeepsFiles {S = S} {A = A} (fail c)
  KeepsFiles-fail c = record { at = λ w. refl }

  pub KeepsFiles-call : (c : Code) (m : Call S.Cloud A) → KeepsFiles (call S c m)
  unfolding call
  KeepsFiles-call c m = record { at = λ w. refl }

  pub KeepsFiles-attempt : (m : Call S.Cloud A) → KeepsFiles (attempt S m)
  unfolding attempt
  KeepsFiles-attempt m = record { at = λ w. refl }

module _ {S : Setup} where
  pub KeepsFiles-reject_if : (b : Bool) (c : Code) → KeepsFiles {S = S} (reject_if b c)
  KeepsFiles-reject_if true c = record { at = λ w. refl }
  KeepsFiles-reject_if false c = record { at = λ w. refl }

module _ {S : Setup} {A B : Type 0} where
  continue-files :
      (r : Reply A) (f : A → Handler S B) (w : World S)
      → ((a : A) → KeepsFiles (f a))
      → (continue r f w).1.files ≡ w.files
  continue-files (done a) f w kf = (kf a).at w
  continue-files (status c) f w kf = refl
  continue-files panic f w kf = refl

  pub KeepsFiles-bind :
      (m : Handler S A) (f : A → Handler S B)
      → KeepsFiles m
      → ((a : A) → KeepsFiles (f a))
      → KeepsFiles (m >>= f)
  unfolding ◌>>=◌
  KeepsFiles-bind m f km kf = record { at = λ w. continue-files (m w).0 f (m w).1 kf ∙ km.at w }

pub ruleset frame_rules = (
  KeepsFiles-pure, KeepsFiles-fail, KeepsFiles-call, KeepsFiles-attempt, KeepsFiles-reject_if,
  KeepsFiles-bind,
)

module _ {S : Setup} {A : Type 0} where
  -- The same as a guarantee.
  pub Ensures-KeepsFiles : (m : Handler S A) → KeepsFiles m → Ensures m (λ w a u. u.files ≡ w.files)
  Ensures-KeepsFiles m k = record {
    at = λ w w' a h. sym (ap (λ (r : Reply A × World S). r.1.files) h) ∙ k.at w;
  }
