-- ===== src/Upstream/Tests.antt =====
-- Runs of the breaker and of the client (src/platform/upstream) on small inputs.
use nest_kit.Base.{
  ℕ, ◌+◌, ◌≤◌, ◌≡◌, refl, true, false, none, some, List, [], ◌∷◌, map, arith, leb, if◌then◌else◌,
  All,
}
use nest_kit.Effects.{ok, state_of, result_of}
use nest_kit.Upstream.Breaker.{CircuitBreaker, new, state, allow, succeeded, failed}
use nest_kit.Upstream.Breaker.History.{Call, asks, succeeds, fails, step}
use nest_kit.Upstream.Breaker.Phase.{counting, phase_answers, answers, answers-phase_answers}
use nest_kit.Upstream.Breaker.Probe.{IsRefusal, allow-single_probe}
use nest_kit.Upstream.Request.{get, UpstreamRequest, UpstreamResponse, is_retryable}
use nest_kit.Upstream.Client.{
  UpstreamConfig, Fetched, response, rejected, Surroundings, Client, once, breaker_for, send,
}
use nest_kit.Upstream.Client.Calls.{send-fetches_le, send_first_good, send_all_bad}

abbrev outage : List Call
outage =
    fails 10
    ∷ asks 15
    ∷ fails 20
    ∷ asks 60
    ∷ asks 70
    ∷ fails 75
    ∷ asks 80
    ∷ asks 130
    ∷ succeeds
    ∷ []

outage-answers : answers (new 2 50) outage ≡ true ∷ false ∷ true ∷ false ∷ true ∷ []
unfolding answers step new allow succeeded failed
outage-answers = refl

answers-phase_answers_example : answers (new 2 50) outage ≡ phase_answers 2 50 (counting 0) outage
answers-phase_answers_example = answers-phase_answers 2 50 outage (omega arith)

abbrev opened : CircuitBreaker
opened = record {
  failure_threshold = 2;
  reset_after_ms = 50;
  failures = 2;
  opened_at_ms = some 20;
  probing = false;
}

allow-single_probe_example : All IsRefusal (answers (allow 70 opened).0 (map asks (71 ∷ 500 ∷ [])))
unfolding state allow
allow-single_probe_example = allow-single_probe opened 70 (71 ∷ 500 ∷ []) refl refl

abbrev config : UpstreamConfig
config = record {
  max_attempts = 3;
  retry_base_ms = 100;
  retry_max_ms = 2000;
  breaker_threshold = 2;
  breaker_reset_ms = 50;
}

abbrev request : UpstreamRequest
request = record {
  method = get;
  url = "https://api.test/cars";
  headers = [];
  body = none;
  timeout_ms = none;
  idempotent = none;
}

abbrev fine : UpstreamResponse
fine = record { status = 200; headers = []; body = "[]" }

abbrev env_of : (ℕ → Fetched) → Surroundings
env_of fetch = record {
  host_of = λ url. some "api.test";
  fetch = fetch;
  random = λ i. (1, 2);
  times = record { asked = 30; started = 30; reported = 40; finished = 40 };
}

-- The first attempt times out, and every later one succeeds.
abbrev recovers : ℕ → Fetched
recovers n = if leb n 1 then rejected true else response fine

abbrev never : ℕ → Fetched
never n = rejected false

abbrev idle : Client
idle = record { breakers = []; metrics = []; fetches = 0; pauses = []; reports = [] }

abbrev tripped : Client
tripped = record {
  breakers = ("api.test", opened) ∷ [];
  metrics = [];
  fetches = 0;
  pauses = [];
  reports = [];
}

send-fetches_le_example :
    (state_of (send config (env_of never) request idle)).fetches
    ≤ 0 + (if is_retryable request then 3 else 1)
send-fetches_le_example = send-fetches_le config (env_of never) request "api.test" idle refl

send_first_good_example :
    (result_of (send config (env_of recovers) request idle) ≡ ok fine)
    × ((state_of (send config (env_of recovers) request idle)).fetches ≡ 0 + 1 + 1)
    × (breaker_for config "api.test" (state_of (send config (env_of recovers) request idle))
        ≡ succeeded (allow 30 (breaker_for config "api.test" idle)).0)
    × ((state_of (send config (env_of recovers) request idle)).reports ≡ ("api.test", true) ∷ [])
unfolding allow breaker_for new is_retryable
send_first_good_example =
    send_first_good config (env_of recovers) request "api.test" idle 1 fine refl refl (omega arith)
      (λ i h. ground arith) refl (omega arith)

send_all_bad_example :
    (result_of (send config (env_of never) request idle) ≡ once (never 3))
    × ((state_of (send config (env_of never) request idle)).fetches ≡ 0 + 3)
    × (breaker_for config "api.test" (state_of (send config (env_of never) request idle))
        ≡ failed 40 (allow 30 (breaker_for config "api.test" idle)).0)
    × ((state_of (send config (env_of never) request idle)).reports ≡ ("api.test", false) ∷ [])
unfolding allow breaker_for new is_retryable
send_all_bad_example =
    send_all_bad config (env_of never) request "api.test" idle refl refl (omega arith) (λ i h. refl)
