-- ===== src/Result.antt =====
-- Go's `(value, error)` results, and the gRPC replies of the CSI services (google.golang.org/grpc
-- status codes). An error keeps what the program looks at: whether `errors.Is(err, os.ErrNotExist)`
-- holds, which of the provider package's sentinels it wraps, its text, and the code of a cloud's API
-- error that `errors.As` finds in it, an AWS error code or an HTTP status, or "". A gRPC status keeps
-- its code; its message is not modelled.
pub mod Bind
use caa_csi_block_driver.Prelude.{String, ◌<>◌, Bool, true, false, ◌≡◌, refl, ◌⊎◌, inl, inr}

-- The errors of pkg/provider/interface.go that `errors.Is` looks for.
pub data Sentinel : Type 0 where
  other_error err_invalid_parameters err_volume_not_found err_volume_already_exists : Sentinel

pub record GoError : Type 0 where
  pub is_not_exist : Bool
  pub sentinel : Sentinel
  pub text : String
  pub code : String

pub data Result {ℓ} (A : Type ℓ) : Type ℓ where
  ok : A → Result A
  err : GoError → Result A

pub data Code : Type 0 where
  invalid_argument not_found already_exists failed_precondition : Code
  internal unimplemented unavailable : Code

-- What a handler returns: a response, a status, or a panic of the Go runtime.
pub data Reply {ℓ} (A : Type ℓ) : Type ℓ where
  done : A → Reply A
  status : Code → Reply A
  panic : Reply A

abbrev pub is_ok {ℓ} : {A : Type ℓ} → Result A → Bool
is_ok (ok a) = true
is_ok (err e) = false

-- `fmt.Errorf` with or without `%w` around an error that nothing looks for.
abbrev pub error : String → GoError
error text = record { is_not_exist = false; sentinel = other_error; text = text; code = "" }

abbrev sentinel_text : Sentinel → String
sentinel_text other_error = ""
sentinel_text err_invalid_parameters = "invalid provider parameters"
sentinel_text err_volume_not_found = "volume not found"
sentinel_text err_volume_already_exists = "volume exists with incompatible properties"

-- `fmt.Errorf("%w: …", ErrVolumeNotFound)`, and so for the others
abbrev pub sentinel_error : Sentinel → String → GoError
sentinel_error sentinel text = record (error (sentinel_text sentinel <> ": " <> text)) {
  sentinel = sentinel;
}

-- errors.Is(err, ErrVolumeNotFound)
abbrev pub is_volume_not_found : GoError → Bool
is_volume_not_found e = elim e.sentinel [
  | err_volume_not_found ↦ true
  | other_error ↦ false
  | err_invalid_parameters ↦ false
  | err_volume_already_exists ↦ false
]

-- `fmt.Errorf("…: %w", err)`: a new text around the error, which `errors.Is` still sees.
abbrev pub wrap : String → GoError → GoError
wrap prefix e = record e { text = prefix <> ": " <> e.text }

-- To split on a computed result and keep the equation.
pub Result-cases {ℓ} :
    {A : Type ℓ} (r : Result A) → ((a : A) × (r ≡ ok a)) ⊎ ((e : GoError) × (r ≡ err e))
Result-cases (ok a) = inl (a, refl)
Result-cases (err e) = inr (e, refl)

pub done_inj {ℓ} : {A : Type ℓ} {a b : A} → ◌≡◌ {A = Reply A} (done a) (done b) → a ≡ b
done_inj h = cc
