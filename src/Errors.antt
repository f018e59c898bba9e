-- ===== src/Errors.antt =====
-- src/errors/AppError.js, and what else the code throws: failures of the services that it calls.
use potens_intern_backend_sh.Common.{ℕ, ◌≡◌, refl, ◌⊎◌, inl, inr, Bool, true, false, Text}

pub record AppError : Type 0 where
  pub message : Text
  pub status_code : ℕ
  pub code : Text
  pub is_operational : Bool

-- `new AppError(message, statusCode, code)`: the last argument is true by default.
abbrev pub new_app_error : Text → ℕ → Text → AppError
new_app_error message status_code code = record {
  message = message;
  status_code = status_code;
  code = code;
  is_operational = true;
}

-- `reading_undefined` is the TypeError of `x.latestHash` where `x` is undefined; `database` and
-- `body_parser` are thrown by Prisma and by express.json, with the status that the latter sets.
pub data Thrown : Type 0 where
  app_error : AppError → Thrown
  reading_undefined : Thrown
  database : Thrown
  body_parser : ℕ → Thrown

unfoldable pub is_app_error : Thrown → Bool
is_app_error (app_error e) = true
is_app_error _ = false

-- The outcome of a function that may throw.
pub data Result {ℓ} (A : Type ℓ) : Type ℓ where
  ok : A → Result A
  err : Thrown → Result A

pub Result-cases {ℓ} :
    {A : Type ℓ} (r : Result A) → ((a : A) × (r ≡ ok a)) ⊎ ((e : Thrown) × (r ≡ err e))
Result-cases (ok a) = inl (a, refl)
Result-cases (err e) = inr (e, refl)
