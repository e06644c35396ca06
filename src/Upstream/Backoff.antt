-- ===== src/Upstream/Backoff.antt =====
-- src/platform/upstream/backoff.ts. The value of `random()`, in [0, 1), is the fraction
-- numerator / denominator with numerator below denominator; `Math.floor` of the product is exact.
use nest_kit.Base.{ℕ, ◌-◌, ◌*◌, ◌/◌, ◌^◌, ◌≤◌, ◌<◌, min, arith}
use native.Mathlib.Nat.{one-le-pow}

-- The highest delay of an attempt. `attempt - 1` stops at 0, as `Math.max(0, attempt - 1)` does.
unfoldable pub ceiling : ℕ → ℕ → ℕ → ℕ
ceiling attempt base_ms max_ms = min max_ms (base_ms * 2 ^ (attempt - 1))

unfoldable pub backoff_delay_ms : ℕ → ℕ → ℕ → ℕ → ℕ → ℕ
backoff_delay_ms attempt base_ms max_ms numerator denominator =
    numerator * ceiling attempt base_ms max_ms / denominator

div-lt_of_fraction : (r d c : ℕ) → r < d → 0 < c → r * c / d < c
div-lt_of_fraction r d c h p = grind arith

product_pos : (a b : ℕ) → 0 < a → 0 < b → 0 < a * b
product_pos a b h k = grind arith

ceiling_pos :
    (attempt base_ms max_ms : ℕ) → 0 < base_ms → 0 < max_ms → 0 < ceiling attempt base_ms max_ms
unfolding ceiling
ceiling_pos attempt base_ms max_ms pb pm =
    omega
      (arith, product_pos base_ms (2 ^ (attempt - 1)) pb (one-le-pow (attempt - 1) 2 (omega arith)))

ceiling_le :
    (attempt base_ms max_ms : ℕ)
    → (ceiling attempt base_ms max_ms ≤ max_ms)
      × (ceiling attempt base_ms max_ms ≤ base_ms * 2 ^ (attempt - 1))
unfolding ceiling
ceiling_le attempt base_ms max_ms = omega arith

-- With a positive base and a positive maximum, the delay stays below the maximum and below the
-- exponential term of its attempt.
pub backoff_delay_ms-lt :
    (attempt base_ms max_ms numerator denominator : ℕ)
    → numerator < denominator
    → 0 < base_ms
    → 0 < max_ms
    → (backoff_delay_ms attempt base_ms max_ms numerator denominator < max_ms)
      × (backoff_delay_ms attempt base_ms max_ms numerator denominator
          < base_ms * 2 ^ (attempt - 1))
unfolding backoff_delay_ms
backoff_delay_ms-lt attempt base_ms max_ms r d h pb pm =
    let positive = ceiling_pos attempt base_ms max_ms pb pm in
    let below = div-lt_of_fraction r d (ceiling attempt base_ms max_ms) h positive in
    omega (arith, ceiling_le attempt base_ms max_ms)
