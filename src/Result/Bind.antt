-- ===== src/Result/Bind.antt =====
-- Go code that returns early with an error, where there is no state.
use caa_csi_block_driver.Prelude.{String, ◌==◌, if◌then◌else◌}
use caa_csi_block_driver.Result.{Result, ok, err, error}

infixl 10 ◌>>=◌ ◌>>◌
abbrev pub ◌>>=◌ : {A B : Type 0} → Result A → (A → Result B) → Result B
ok a >>= f = f a
err e >>= f = err e

abbrev pub ◌>>◌ : {B : Type 0} → Result (Unit {0}) → Result B → Result B
m >> n = m >>= λ _. n

-- A text that must be set.
abbrev pub require : String → String → Result (Unit {0})
require value message = if value == "" then err (error message) else ok tt
