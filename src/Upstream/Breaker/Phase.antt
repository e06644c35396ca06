-- ===== src/Upstream/Breaker/Phase.antt =====
-- The breaker's contract as a machine with three phases, and the proof that
-- src/platform/upstream/circuit-breaker.ts implements it.
use nest_kit.Base.{
  ℕ, ◌+◌, ◌<◌, ◌≡◌, refl, ◌∙◌, List, [], ◌∷◌, Bool, true, false, Option, none, some, arith, leb,
  if◌then◌else◌,
}
use nest_kit.Upstream.Breaker.{CircuitBreaker, new, allow, succeeded, failed}
use nest_kit.Upstream.Breaker.History.{
  Call, asks, succeeds, fails, step, IsValid, new-IsValid, step-IsValid,
}

-- Closed with the failures counted so far; open since a time; open with its one probe out.
pub data Phase : Type 0 where
  counting : ℕ → Phase
  waiting : ℕ → Phase
  trial : Phase

unfoldable pub ask : ℕ → ℕ → Phase → Phase × Bool
ask reset now (counting n) = (counting n, true)
ask reset now (waiting since) =
    if leb (since + reset) now then (trial, true) else (waiting since, false)
ask reset now trial = (trial, false)

-- Only the failures of a closed breaker are counted; any other failure opens a new window.
unfoldable pub fail : ℕ → ℕ → Phase → Phase
fail threshold now (counting n) = if leb threshold (n + 1) then waiting now else counting (n + 1)
fail threshold now (waiting since) = waiting now
fail threshold now trial = waiting now

abbrev view_from : Option ℕ → Bool → ℕ → Phase
view_from none probing n = counting n
view_from (some t) true n = trial
view_from (some t) false n = waiting t

unfoldable pub view : CircuitBreaker → Phase
view b = view_from b.opened_at_ms b.probing b.failures

-- The machine's answers to a history: the replies of `allow`, in order.
pub phase_answers : ℕ → ℕ → Phase → List Call → List Bool
phase_answers threshold reset p [] = []
phase_answers threshold reset p (asks now ∷ cs) =
    let (q, answer) = ask reset now p in answer ∷ phase_answers threshold reset q cs
phase_answers threshold reset p (succeeds ∷ cs) = phase_answers threshold reset (counting 0) cs
phase_answers threshold reset p (fails now ∷ cs) =
    phase_answers threshold reset (fail threshold now p) cs

-- The breaker's answers to the same history.
unfoldable pub answers : CircuitBreaker → List Call → List Bool
answers b [] = []
answers b (asks now ∷ cs) = (allow now b).1 ∷ answers (step b (asks now)) cs
answers b (succeeds ∷ cs) = answers (step b succeeds) cs
answers b (fails now ∷ cs) = answers (step b (fails now)) cs

view-allow :
    (now : ℕ) (b : CircuitBreaker)
    → ask b.reset_after_ms now (view b) ≡ (view (allow now b).0, (allow now b).1)
unfolding ask view allow
view-allow now b = ground arith

view-failed :
    (now : ℕ) (b : CircuitBreaker)
    → IsValid b
    → view (failed now b) ≡ fail b.failure_threshold now (view b)
unfolding fail view failed
view-failed now b v = ground arith

view-succeeded : (b : CircuitBreaker) → view (succeeded b) ≡ counting 0
unfolding view succeeded
view-succeeded b = refl

step-config :
    (b : CircuitBreaker) (c : Call)
    → ((step b c).failure_threshold ≡ b.failure_threshold)
      × ((step b c).reset_after_ms ≡ b.reset_after_ms)
unfolding step allow succeeded failed
step-config b (asks now) = ground arith
step-config b succeeds = ground arith
step-config b (fails now) = ground arith

answers-phase_answers_from :
    (b : CircuitBreaker) (cs : List Call) (threshold reset : ℕ)
    → b.failure_threshold ≡ threshold
    → b.reset_after_ms ≡ reset
    → IsValid b
    → answers b cs ≡ phase_answers threshold reset (view b) cs
unfolding answers phase_answers step
answers-phase_answers_from b [] threshold reset et er v = refl
answers-phase_answers_from b (asks now ∷ cs) threshold reset et er v =
    let (same_threshold, same_reset) = step-config b (asks now) in
    cc (
      er,
      view-allow now b,
      answers-phase_answers_from (step b (asks now)) cs threshold reset (same_threshold ∙ et)
          (same_reset ∙ er) (step-IsValid b (asks now) v),
    )
answers-phase_answers_from b (succeeds ∷ cs) threshold reset et er v =
    let (same_threshold, same_reset) = step-config b succeeds in
    cc (
      view-succeeded b,
      answers-phase_answers_from (step b succeeds) cs threshold reset (same_threshold ∙ et)
          (same_reset ∙ er) (step-IsValid b succeeds v),
    )
answers-phase_answers_from b (fails now ∷ cs) threshold reset et er v =
    let (same_threshold, same_reset) = step-config b (fails now) in
    cc (
      et,
      view-failed now b v,
      answers-phase_answers_from (step b (fails now)) cs threshold reset (same_threshold ∙ et)
          (same_reset ∙ er) (step-IsValid b (fails now) v),
    )

-- A new breaker with a positive threshold answers every history of calls exactly as the machine of
-- three phases that starts by counting from 0.
pub answers-phase_answers :
    (threshold reset : ℕ) (cs : List Call)
    → 0 < threshold
    → answers (new threshold reset) cs ≡ phase_answers threshold reset (counting 0) cs
unfolding new view
answers-phase_answers threshold reset cs h =
    answers-phase_answers_from (new threshold reset) cs threshold reset refl refl
      (new-IsValid threshold reset h)
