-- ===== src/Upstream/Client.antt =====
-- src/platform/upstream/fetch-http-client.ts: one call of `send`, from its first statement to its
-- last. What the network and the platform do is an argument: the outcome of each fetch, the clock
-- and the random fractions, and the parser of absolute URLs.
pub mod Retries
pub mod Calls
use nest_kit.Base.{
  ℕ, zero, suc, ◌+◌, ◌-◌, ◌*◌, ◌/◌, ◌%◌, ◌^◌, ◌≤◌, ◌<◌, min, max, String, ◌≡◌, refl, sym, ap, ◌∙◌,
  subst, ◌≡⟨◌⟩◌, ◌∎, ◌≢◌, ◌↔◌, ◌⊎◌, inl, inr, Bool, true, false, not, ◌&&◌, ◌||◌, Option, none,
  some, List, [], ◌∷◌, ◌++◌, map, append_assoc, append-nil, arith, eq_iff, eq_refl, dec_lt,
  ℕ_discrete, ◌=ₛ◌, ltb, leb, ◌==◌, if◌then◌else◌, ltb→lt, lt→ltb, leb→le, le→leb, ==_iff, tests,
  Bool-cases, Option-cases, length, take, all, any, length-append, length-take-le, length-map, All,
  All-append, ne_of_test, some_inj, and_left, and_right, or_true, or_false,
}
use nest_kit.Errors.{AppError, invalid, app_error, is_code}
use nest_kit.Effects.{Result, ok, err, Outcome, returned, threw, Exec, ◌>>=◌, or_throw}
use nest_kit.Upstream.Breaker.{CircuitBreaker, new, allow, succeeded, failed}
use nest_kit.Upstream.Backoff.{backoff_delay_ms}
use nest_kit.Upstream.Request.{
  UpstreamRequest, UpstreamResponse, is_retryable, upstream_timeout, upstream_unreachable,
  upstream_circuit_open,
}

pub data Label : Type 0 where
  is_ok client_error server_error timeout unreachable circuit_open : Label

pub record UpstreamConfig : Type 0 where
  pub max_attempts : ℕ
  pub retry_base_ms : ℕ
  pub retry_max_ms : ℕ
  pub breaker_threshold : ℕ
  pub breaker_reset_ms : ℕ

-- `fetchImpl` with the reading of the body: a response, or a rejection, after which `timedOut` says
-- whether the timer had fired.
pub data Fetched : Type 0 where
  response : UpstreamResponse → Fetched
  rejected : (timed_out : Bool) → Fetched

-- The clock at the four places that read it.
pub record Times : Type 0 where
  pub asked : ℕ
  pub started : ℕ
  pub reported : ℕ
  pub finished : ℕ

pub record Surroundings : Type 0 where
  pub host_of : String → Option String
  pub fetch : ℕ → Fetched
  pub random : ℕ → ℕ × ℕ
  pub times : Times

-- `fetches` counts the calls of `fetchImpl`, `pauses` holds the delays slept, and `reports` what the
-- breakers were told, in order: the host, and whether it was a success.
pub record Client : Type 0 where
  pub breakers : List (String × CircuitBreaker)
  pub metrics : List (String × Label × ℕ)
  pub fetches : ℕ
  pub pauses : List ℕ
  pub reports : List (String × Bool)

unfoldable pub once : Fetched → Result UpstreamResponse
once (response r) = ok r
once (rejected true) = err upstream_timeout
once (rejected false) = err upstream_unreachable

unfoldable pub find_breaker : String → List (String × CircuitBreaker) → Option CircuitBreaker
find_breaker host [] = none
find_breaker host ((h, b) ∷ bs) = if h =ₛ host then some b else find_breaker host bs

unfoldable pub set_breaker :
    String → CircuitBreaker → List (String × CircuitBreaker) → List (String × CircuitBreaker)
set_breaker host b [] = (host, b) ∷ []
set_breaker host b ((h, c) ∷ bs) = if h =ₛ host then (h, b) ∷ bs else (h, c) ∷ set_breaker host b bs

abbrev or_new : UpstreamConfig → Option CircuitBreaker → CircuitBreaker
or_new config none = new config.breaker_threshold config.breaker_reset_ms
or_new config (some b) = b

-- A method call on the shared breaker object stores the object's new state under its host.
unfoldable pub breaker_for : UpstreamConfig → String → Client → CircuitBreaker
unfolding find_breaker
breaker_for config host c = or_new config (find_breaker host c.breakers)

abbrev pub store : String → CircuitBreaker → Client → Client
store host b c = record c { breakers = set_breaker host b c.breakers }

abbrev pub record_metric : String → Label → ℕ → Client → Client
record_metric host label ms c = record c { metrics = c.metrics ++ (host, label, ms) ∷ [] }

abbrev pub reported : String → Bool → Client → Client
reported host good c = record c { reports = c.reports ++ (host, good) ∷ [] }

abbrev pub error_label : Option AppError → Label
error_label none = unreachable
error_label (some e) = if is_code e "UPSTREAM_TIMEOUT" then timeout else unreachable

abbrev pub error_or : Option AppError → AppError
error_or none = upstream_unreachable
error_or (some e) = e

abbrev pub count_fetch : Client → Client
count_fetch c = record c { fetches = c.fetches + 1 }

module _ (config : UpstreamConfig) (env : Surroundings) (host : String) where
  open env use {times}

  abbrev pub finish : Label → Client → Client
  finish label c = record_metric host label (times.finished - times.started) c

  abbrev pub pause : ℕ → Client → Client
  pause attempt c = record c {
    pauses =
        c.pauses
        ++ backoff_delay_ms attempt config.retry_base_ms config.retry_max_ms (env.random attempt).0
            (env.random attempt).1
          ∷ [];
  }

  abbrev pub report_failed : Client → Client
  report_failed c =
      reported host false (store host (failed times.reported (breaker_for config host c)) c)

  abbrev pub report_succeeded : Client → Client
  report_succeeded c = reported host true (store host (succeeded (breaker_for config host c)) c)

  -- What follows the loop.
  abbrev pub give_up : Option AppError → Client → Outcome Client UpstreamResponse
  give_up last_error c =
      threw (error_or last_error) (finish (error_label last_error) (report_failed c))

  abbrev pub answer : UpstreamResponse → Client → Outcome Client UpstreamResponse
  answer r c =
      returned r (finish (if leb 400 r.status then client_error else is_ok) (report_succeeded c))

  -- The body of the loop after `once`. `again` is the next round: `continue` after a pause, with
  -- the last error; without a next round a thrown error falls out of the loop.
  abbrev pub settle :
      Bool
      → Option AppError
      → (Option AppError → Client → Outcome Client UpstreamResponse)
      → ℕ
      → Result UpstreamResponse
      → Client
      → Outcome Client UpstreamResponse
  settle more last_error again attempt (ok r) c =
      if leb 500 r.status
      then (if more
          then again last_error (pause attempt c)
          else returned r (finish server_error (report_failed c)))
      else answer r c
  settle more last_error again attempt (err e) c =
      if more then again (some e) (pause attempt c) else give_up (some e) c

  -- The loop; its first argument is the number of rounds that `attempt <= attempts` still allows.
  unfoldable pub rounds :
      ℕ → (attempts attempt : ℕ) → Option AppError → Client → Outcome Client UpstreamResponse
  unfolding once
  rounds zero attempts attempt last_error c = give_up last_error c
  rounds (suc left) attempts attempt last_error c =
      settle (ltb attempt attempts) last_error (rounds left attempts (attempt + 1)) attempt
        (once (env.fetch attempt)) (count_fetch c)

abbrev pub attempts_for : UpstreamConfig → UpstreamRequest → ℕ
attempts_for config request = if is_retryable request then config.max_attempts else 1

-- `send` for a host that is known.
unfoldable pub send_to :
    UpstreamConfig → Surroundings → UpstreamRequest → String → Exec Client UpstreamResponse
unfolding rounds
send_to config env request host c =
    let (b, allowed) = allow env.times.asked (breaker_for config host c) in
    let asked = store host b c in
    if allowed
    then rounds config env host (attempts_for config request) (attempts_for config request) 1 none
        asked
    else threw upstream_circuit_open (record_metric host circuit_open 0 asked)

unfoldable pub send : UpstreamConfig → Surroundings → UpstreamRequest → Exec Client UpstreamResponse
unfolding send_to
send config env request = do
  host ← or_throw (app_error invalid "INVALID_UPSTREAM_URL") (env.host_of request.url)
  send_to config env request host
