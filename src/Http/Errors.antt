-- ===== src/Http/Errors.antt =====
-- src/platform/http/filters/app-error.filter.ts: the answer to an error.
use nest_kit.Base.{ℕ, String, List, map, ltb, ◌==◌, if◌then◌else◌}
use nest_kit.Errors.{
  AppError, ErrorItem, ErrorKind, not_found, conflict, invalid, unauthorized, forbidden,
  payload_too_large, rate_limited, internal, status_of, app_error,
}

-- What a handler may throw: an `AppError`, an `HttpException` with its status and the messages of
-- its body if these are a list, or anything else
pub data Exception : Type 0 where
  application : AppError → Exception
  http : (status : ℕ) (messages : List String) → Exception
  other : Exception

-- `kindForStatus`
unfoldable pub kind_for_status : ℕ → ErrorKind
kind_for_status status =
    if status == 400
    then invalid
    else if status == 401
    then unauthorized
    else if status == 403
    then forbidden
    else if status == 404
    then not_found
    else if status == 409
    then conflict
    else if status == 413
    then payload_too_large
    else if status == 429
    then rate_limited
    else if ltb status 500
    then invalid
    else internal

-- `ErrorKind` as a text, which is also the code of a framework error
unfoldable pub kind_text : ErrorKind → String
kind_text not_found = "NOT_FOUND"
kind_text conflict = "CONFLICT"
kind_text invalid = "INVALID"
kind_text unauthorized = "UNAUTHORIZED"
kind_text forbidden = "FORBIDDEN"
kind_text payload_too_large = "PAYLOAD_TOO_LARGE"
kind_text rate_limited = "RATE_LIMITED"
kind_text internal = "INTERNAL"

abbrev item : String → ErrorItem
item message = record { field = ""; code = "VALIDATION_FAILED" }

-- `toAppError`, with `codeForStatus` and `detailsOf`
unfoldable pub to_app_error : Exception → AppError
to_app_error (application e) = e
to_app_error (http status messages) = record {
  kind = kind_for_status status;
  code = kind_text (kind_for_status status);
  details = map item messages;
}
to_app_error other = app_error internal "INTERNAL_ERROR"

-- The envelope that `catch` sends
pub record Answer : Type 0 where
  pub status : ℕ
  pub code : String
  pub details : List ErrorItem

unfoldable pub answer_of : Exception → Answer
answer_of exception =
    let e = to_app_error exception in
    record { status = status_of e.kind; code = e.code; details = e.details }
