-- ===== src/Upstream/Request.antt =====
-- src/shared/application/ports/http-client.port.ts: requests, responses and the errors of a call.
use nest_kit.Base.{ℕ, String, Bool, true, false, Option, none, some, List}
use nest_kit.Errors.{AppError, internal, app_error}

pub data HttpMethod : Type 0 where
  get head post put patch delete : HttpMethod

pub record UpstreamRequest : Type 0 where
  pub method : HttpMethod
  pub url : String
  pub headers : List (String × String)
  pub body : Option String
  pub timeout_ms : Option ℕ
  pub idempotent : Option Bool

pub record UpstreamResponse : Type 0 where
  pub status : ℕ
  pub headers : List (String × String)
  pub body : String

-- `NATURALLY_IDEMPOTENT`
abbrev pub naturally_idempotent : HttpMethod → Bool
naturally_idempotent get = true
naturally_idempotent head = true
naturally_idempotent put = true
naturally_idempotent delete = true
naturally_idempotent _ = false

abbrev or_default : Option Bool → Bool → Bool
or_default none d = d
or_default (some b) d = b

unfoldable pub is_retryable : UpstreamRequest → Bool
is_retryable request = or_default request.idempotent (naturally_idempotent request.method)

abbrev pub upstream_timeout : AppError
upstream_timeout = app_error internal "UPSTREAM_TIMEOUT"

abbrev pub upstream_unreachable : AppError
upstream_unreachable = app_error internal "UPSTREAM_UNREACHABLE"

abbrev pub upstream_circuit_open : AppError
upstream_circuit_open = app_error internal "UPSTREAM_CIRCUIT_OPEN"
