-- ===== src/Upstream/Breaker/Probe.antt =====
-- How a breaker opens, and the single probe that it lets through
-- (src/platform/upstream/circuit-breaker.ts).
use nest_kit.Base.{
  ℕ, ◌+◌, ◌<◌, ◌≡◌, refl, Bool, true, false, some, List, [], ◌∷◌, map, arith, leb, if◌then◌else◌,
  length, All,
}
use nest_kit.Upstream.Breaker.{
  CircuitBreaker, closed, open_circuit, half_open, state, allow, failed,
}
use nest_kit.Upstream.Breaker.History.{asks, fails, step, run, IsValid, run-IsValid}
use nest_kit.Upstream.Breaker.Phase.{answers}

abbrev pub IsRefusal : Bool → Type 0
IsRefusal answer = answer ≡ false

refuses_while_probing :
    (b : CircuitBreaker) (later : List ℕ)
    → state b ≡ half_open
    → All IsRefusal (answers b (map asks later))
unfolding answers
refuses_while_probing b [] h = tt
refuses_while_probing b (now ∷ later) h = (
  unfold allow state in ground arith,
  refuses_while_probing (step b (asks now)) later (unfold allow state step in ground arith),
)

-- Once an open breaker has let a call through, it refuses every further call, at whatever times,
-- until it is told how that call went.
pub allow-single_probe :
    (b : CircuitBreaker) (now : ℕ) (later : List ℕ)
    → state b ≡ open_circuit
    → (allow now b).1 ≡ true
    → All IsRefusal (answers (allow now b).0 (map asks later))
unfolding allow state
allow-single_probe b now later open_now let_through =
    refuses_while_probing (allow now b).0 later (ground arith)

refuses_before :
    (b : CircuitBreaker) (since reset : ℕ) (times : List ℕ)
    → b.reset_after_ms ≡ reset
    → b.opened_at_ms ≡ some since
    → b.probing ≡ false
    → All (λ t. t < since + reset) times
    → All IsRefusal (answers b (map asks times))
unfolding answers
refuses_before b since reset [] r e p h = tt
refuses_before b since reset (now ∷ times) r e p (early, h) = (
  unfold allow in ground arith,
  refuses_before (step b (asks now)) since reset times (unfold step allow in ground arith)
      (unfold step allow in ground arith) (unfold step allow in ground arith) h,
)

-- When a failure leaves the breaker open, every call before the reset window has passed is refused.
failed-refuses_window :
    (b : CircuitBreaker) (now : ℕ) (times : List ℕ)
    → state (failed now b) ≡ open_circuit
    → IsValid b
    → All (λ t. t < now + b.reset_after_ms) times
    → All IsRefusal (answers (failed now b) (map asks times))
unfolding failed state
failed-refuses_window b now times e v h =
    refuses_before (failed now b) now b.reset_after_ms times (ground arith) (ground arith)
      (ground arith) h

failed_run_counts :
    (b : CircuitBreaker) (times : List ℕ)
    → b.probing ≡ false
    → let c = run b (map fails times) in
      (c.probing ≡ false)
      × (c.failures ≡ b.failures + length times)
      × (c.failure_threshold ≡ b.failure_threshold)
unfolding run step failed
failed_run_counts b [] p = (p, omega arith, refl)
failed_run_counts b (now ∷ times) p = ground (arith, failed_run_counts (failed now b) times)

state_unprobed :
    (b : CircuitBreaker)
    → IsValid b
    → b.probing ≡ false
    → state b ≡ (if leb b.failure_threshold b.failures then open_circuit else closed)
unfolding state
state_unprobed b v p = ground arith

-- Failures alone, at any times, open a breaker that is not probing exactly when the failures
-- counted before and those added reach the threshold.
failed-opens_at_threshold :
    (b : CircuitBreaker) (times : List ℕ)
    → IsValid b
    → b.probing ≡ false
    → state (run b (map fails times))
      ≡ (if leb b.failure_threshold (b.failures + length times) then open_circuit else closed)
failed-opens_at_threshold b times v p =
    let (unprobed, counted, same) = failed_run_counts b times p in
    let valid = run-IsValid b (map fails times) v in
    rw (state_unprobed (run b (map fails times)) valid unprobed, counted, same)
