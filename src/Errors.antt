-- ===== src/Errors.antt =====
-- src/shared/errors: application errors as values. A message text for people is left out; the kind,
-- the machine-readable code and the per-field details stay.
use nest_kit.Base.{ℕ, String, List, [], ◌∷◌, ◌++◌, Bool, ◌=ₛ◌}

pub data ErrorKind : Type 0 where
  not_found conflict invalid unauthorized forbidden payload_too_large rate_limited internal :
      ErrorKind

-- `ERROR_KIND_STATUS`
unfoldable pub status_of : ErrorKind → ℕ
status_of not_found = 404
status_of conflict = 409
status_of invalid = 400
status_of unauthorized = 401
status_of forbidden = 403
status_of payload_too_large = 413
status_of rate_limited = 429
status_of internal = 500

pub record ErrorItem : Type 0 where
  pub field : String
  pub code : String

pub record AppError : Type 0 where
  pub kind : ErrorKind
  pub code : String
  pub details : List ErrorItem

abbrev pub app_error : ErrorKind → String → AppError
app_error kind code = record { kind = kind; code = code; details = [] }

-- `withField` with its default `code = this.code`
abbrev pub with_field : AppError → String → AppError
with_field e field = record e {
  details = e.details ++ record { field = field; code = e.code } ∷ [];
}

-- `AppError.validation` with its default code
abbrev pub validation : String → AppError
validation field = record {
  kind = invalid;
  code = "VALIDATION_FAILED";
  details = record { field = field; code = "VALIDATION_FAILED" } ∷ [];
}

-- `AppError.is` on a value known to be an AppError
abbrev pub is_code : AppError → String → Bool
is_code e code = e.code =ₛ code
