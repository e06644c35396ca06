-- ===== src/Upstream/Breaker.antt =====
-- src/platform/upstream/circuit-breaker.ts. Time is an argument of each call; `-` on times is
-- written as the comparison that it stands in.
pub mod History
pub mod Phase
pub mod Probe
use nest_kit.Base.{ℕ, ◌+◌, Bool, true, false, Option, none, some, leb, if◌then◌else◌}

pub data CircuitState : Type 0 where
  closed open_circuit half_open : CircuitState

pub record CircuitBreaker : Type 0 where
  pub failure_threshold : ℕ
  pub reset_after_ms : ℕ
  pub failures : ℕ
  pub opened_at_ms : Option ℕ
  pub probing : Bool

-- The constructor, with the initial field values.
unfoldable pub new : ℕ → ℕ → CircuitBreaker
new threshold reset = record {
  failure_threshold = threshold;
  reset_after_ms = reset;
  failures = 0;
  opened_at_ms = none;
  probing = false;
}

abbrev state_from : Option ℕ → Bool → CircuitState
state_from none probing = closed
state_from (some t) probing = if probing then half_open else open_circuit

unfoldable pub state : CircuitBreaker → CircuitState
state b = state_from b.opened_at_ms b.probing

abbrev allow_from : Option ℕ → ℕ → CircuitBreaker → CircuitBreaker × Bool
allow_from none now b = (b, true)
allow_from (some opened) now b =
    if b.probing
    then (b, false)
    else if leb (opened + b.reset_after_ms) now
    then (record b { probing = true }, true)
    else (b, false)

unfoldable pub allow : ℕ → CircuitBreaker → CircuitBreaker × Bool
allow now b = allow_from b.opened_at_ms now b

unfoldable pub succeeded : CircuitBreaker → CircuitBreaker
succeeded b = record b { failures = 0; opened_at_ms = none; probing = false }

unfoldable pub failed : ℕ → CircuitBreaker → CircuitBreaker
failed now b =
    if b.probing
    then record b { probing = false; opened_at_ms = some now }
    else if leb b.failure_threshold (b.failures + 1)
    then record b { failures = b.failures + 1; opened_at_ms = some now }
    else record b { failures = b.failures + 1 }
