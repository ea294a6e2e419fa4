-- ===== src/AppErrors.antt =====
-- server/internal/apperrors/errors.go: the application error, its constructors and its test.
use gaggle.Prelude.{ℕ, Bool, String, ◌==◌, ◌≡◌, refl, ◌⊎◌, inl, inr}

-- The string constants of the error codes.
pub data Code : Type 0 where
  bad_request unauthorized forbidden not_found already_exists validation : Code
  internal_server invalid_token session_expired username_exists email_exists : Code
  too_many_requests : Code

abbrev pub code_index : Code → ℕ
code_index bad_request = 0
code_index unauthorized = 1
code_index forbidden = 2
code_index not_found = 3
code_index already_exists = 4
code_index validation = 5
code_index internal_server = 6
code_index invalid_token = 7
code_index session_expired = 8
code_index username_exists = 9
code_index email_exists = 10
code_index too_many_requests = 11

-- What `Err` wraps, as far as a caller asks for it: `errors.Is(err, jwt.ErrTokenExpired)`.
pub data Cause : Type 0 where
  no_cause : Cause
  token_expired : Cause
  other_cause : Cause

pub record AppError : Type 0 where
  pub code : Code
  pub message : String
  pub status : ℕ
  pub err : Cause

abbrev pub bad_request_error : String → Cause → AppError
bad_request_error m e = record { code = bad_request; message = m; status = 400; err = e }

abbrev pub unauthorized_error : String → Cause → AppError
unauthorized_error m e = record { code = unauthorized; message = m; status = 401; err = e }

abbrev pub forbidden_error : String → Cause → AppError
forbidden_error m e = record { code = forbidden; message = m; status = 403; err = e }

abbrev pub not_found_error : String → Cause → AppError
not_found_error m e = record { code = not_found; message = m; status = 404; err = e }

abbrev pub already_exists_error : String → Cause → AppError
already_exists_error m e = record { code = already_exists; message = m; status = 409; err = e }

abbrev pub internal_server_error : Cause → AppError
internal_server_error e = record {
  code = internal_server;
  message = "internal server error";
  status = 500;
  err = e;
}

abbrev pub invalid_token_error : String → Cause → AppError
invalid_token_error m e = record { code = invalid_token; message = m; status = 401; err = e }

abbrev pub session_expired_error : String → Cause → AppError
session_expired_error m e = record { code = session_expired; message = m; status = 401; err = e }

abbrev pub too_many_requests_error : AppError
too_many_requests_error = record {
  code = too_many_requests;
  message = "rate limit exceeded, please try again later";
  status = 429;
  err = no_cause;
}

-- `Is`: does the error carry this code?
abbrev pub is : AppError → Code → Bool
is e c = code_index e.code == code_index c

pub data Result {ℓ} (A : Type ℓ) : Type ℓ where
  ok : A → Result A
  err : AppError → Result A

pub Result-cases {ℓ} :
    {A : Type ℓ} (r : Result A) → ((a : A) × (r ≡ ok a)) ⊎ ((e : AppError) × (r ≡ err e))
Result-cases (ok a) = inl (a, refl)
Result-cases (err e) = inr (e, refl)
