-- ===== src/Upstream/Breaker/History.antt =====
-- Histories of calls on one circuit breaker (src/platform/upstream/circuit-breaker.ts), in any
-- order and at any times, and what stays true of the breaker along them.
use nest_kit.Base.{ℕ, ◌≤◌, ◌<◌, ◌≡◌, ◌≢◌, List, [], ◌∷◌, true, none, arith}
use nest_kit.Upstream.Breaker.{CircuitBreaker, new, allow, succeeded, failed}

-- One call of a method, with the time that `nowMs()` returns.
pub data Call : Type 0 where
  asks : ℕ → Call
  succeeds : Call
  fails : ℕ → Call

unfoldable pub step : CircuitBreaker → Call → CircuitBreaker
step b (asks now) = (allow now b).0
step b succeeds = succeeded b
step b (fails now) = failed now b

unfoldable pub run : CircuitBreaker → List Call → CircuitBreaker
run b [] = b
run b (c ∷ cs) = run (step b c) cs

pub record IsValid (b : CircuitBreaker) : Type 0 where
  pub probing_open : b.probing ≡ true → b.opened_at_ms ≢ none
  pub closed_below : b.opened_at_ms ≡ none → b.failures < b.failure_threshold
  pub open_reached : b.opened_at_ms ≢ none → b.failure_threshold ≤ b.failures
  pub threshold_pos : 0 < b.failure_threshold

pub new-IsValid : (threshold reset : ℕ) → 0 < threshold → IsValid (new threshold reset)
unfolding new
new-IsValid threshold reset h = ground arith

pub step-IsValid : (b : CircuitBreaker) (c : Call) → IsValid b → IsValid (step b c)
unfolding step allow succeeded failed
step-IsValid b (asks now) v = ground arith
step-IsValid b succeeds v = ground arith
step-IsValid b (fails now) v = ground arith

pub run-IsValid : (b : CircuitBreaker) (cs : List Call) → IsValid b → IsValid (run b cs)
unfolding run
run-IsValid b [] v = v
run-IsValid b (c ∷ cs) v = run-IsValid (step b c) cs (step-IsValid b c v)
