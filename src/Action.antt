-- ===== src/Action.antt =====
-- The body of an RPC handler: an action on some state that returns a reply beside the state that it
-- leaves, on every path, errors included.
pub mod Post
use caa_csi_block_driver.Prelude.{Bool, true, false}
use caa_csi_block_driver.Result.{Result, ok, err, Code, Reply, done, status, panic}

abbrev pub Action : Type 0 → Type 0 → Type 0
Action W A = W → Reply A × W

unfoldable pub reply_of : {A : Type 0} → Code → Result A → Reply A
reply_of code (ok a) = done a
reply_of code (err e) = status code

module _ {W A : Type 0} where
  abbrev pub pure : A → Action W A
  pure a w = (done a, w)

  -- return nil, status.Error(code, …)
  abbrev pub fail : Code → Action W A
  fail code w = (status code, w)

module _ {W : Type 0} where
  -- if bad { return nil, status.Error(code, …) }
  abbrev pub reject_if : Bool → Code → Action W (Unit {0})
  reject_if true code w = (status code, w)
  reject_if false code w = (done tt, w)

module _ {W A B : Type 0} where
  abbrev pub continue : Reply A → (A → Action W B) → Action W B
  continue (done a) f w = f a w
  continue (status code) f w = (status code, w)
  continue panic f w = (panic, w)

  infixl 10 ◌>>=◌ ◌>>◌
  unfoldable pub ◌>>=◌ : Action W A → (A → Action W B) → Action W B
  ◌>>=◌ m f w = let (r, w') = m w in continue r f w'

  abbrev pub ◌>>◌ : Action W A → Action W B → Action W B
  m >> n = m >>= λ _. n
