-- ===== src/Health.antt =====
-- src/platform/health: health.service.ts and the readiness of health.controller.ts. What a probe does
-- is an argument; one that settles at the very timeout is late. Texts of errors are left out.
use nest_kit.Base.{
  ℕ, String, ◌≡◌, refl, inl, inr, Bool, true, false, not, ◌&&◌, ◌||◌, List, [], ◌∷◌, ltb,
  if◌then◌else◌, Bool-cases, any,
}

pub data DependencyStatus : Type 0 where
  up : DependencyStatus
  down : DependencyStatus

pub data ReadinessStatus : Type 0 where
  ready : ReadinessStatus
  degraded : ReadinessStatus
  not_ready : ReadinessStatus

pub record DependencyCheck : Type 0 where
  pub name : String
  pub status : DependencyStatus
  pub required : Bool
  pub latency_ms : ℕ

-- What a probe does, and after how long
pub data Probe : Type 0 where
  resolves : ℕ → Probe
  rejects : ℕ → Probe
  hangs : Probe

-- `withTimeout`: whether the race is won, and when it ends
unfoldable pub with_timeout : ℕ → Probe → DependencyStatus × ℕ
with_timeout timeout_ms (resolves ms) = if ltb ms timeout_ms then (up, ms) else (down, timeout_ms)
with_timeout timeout_ms (rejects ms) = if ltb ms timeout_ms then (down, ms) else (down, timeout_ms)
with_timeout timeout_ms hangs = (down, timeout_ms)

-- `check`
unfoldable pub check : ℕ → String → Bool → Probe → DependencyCheck
check timeout_ms name required probe =
    let (status, ms) = with_timeout timeout_ms probe in
    record { name = name; status = status; required = required; latency_ms = ms }

abbrev pub is_down : DependencyStatus → Bool
is_down up = false
is_down down = true

-- `summarise`
unfoldable pub summarise : List DependencyCheck → ReadinessStatus
summarise checks =
    if any (λ c. c.required && is_down c.status) checks
    then not_ready
    else if any (λ c. is_down c.status) checks
    then degraded
    else ready

-- `assertNats`
abbrev pub assert_nats : Bool → Probe
assert_nats true = resolves 0
assert_nats false = rejects 0

pub record ReadinessReport : Type 0 where
  pub status : ReadinessStatus
  pub checks : List DependencyCheck

-- `readiness`
unfoldable pub readiness : ℕ → Probe → Probe → Bool → ReadinessReport
readiness timeout_ms postgres redis nats_ready =
    let checks =
      check timeout_ms "postgres" true postgres
      ∷ check timeout_ms "redis" true redis
      ∷ check timeout_ms "nats" false (assert_nats nats_ready)
      ∷ [] in
    record { status = summarise checks; checks = checks }

abbrev status_code : ReadinessStatus → ℕ
status_code ready = 200
status_code degraded = 200
status_code not_ready = 503

-- `ready` of the controller: the status of its response
unfoldable pub ready_status : ReadinessReport → ℕ
ready_status report = status_code report.status

-- `resolve` within the timeout
abbrev pub is_answer : ℕ → Probe → Bool
is_answer timeout_ms (resolves ms) = ltb ms timeout_ms
is_answer timeout_ms (rejects ms) = false
is_answer timeout_ms hangs = false

is_down-with_timeout :
    (timeout_ms : ℕ) (p : Probe)
    → is_down (with_timeout timeout_ms p).0 ≡ not (is_answer timeout_ms p)
unfolding with_timeout
is_down-with_timeout timeout_ms (resolves ms) = elim (Bool-cases (ltb ms timeout_ms)) [
  | inl e ↦ rw e refl
  | inr e ↦ rw e refl
]
is_down-with_timeout timeout_ms (rejects ms) = elim (Bool-cases (ltb ms timeout_ms)) [
  | inl e ↦ rw e refl
  | inr e ↦ rw e refl
]
is_down-with_timeout timeout_ms hangs = refl

-- The readiness answers 503 exactly when Postgres or Redis gave no answer within the timeout, whatever
-- became of the broker.
ready_status-readiness :
    (timeout_ms : ℕ) (postgres redis : Probe) (nats_ready : Bool)
    → ready_status (readiness timeout_ms postgres redis nats_ready)
      ≡ (if is_answer timeout_ms postgres && is_answer timeout_ms redis then 200 else 503)
unfolding ready_status readiness summarise check
ready_status-readiness timeout_ms postgres redis nats_ready =
    rw (is_down-with_timeout timeout_ms postgres, is_down-with_timeout timeout_ms redis)
      (decide (is_answer timeout_ms postgres) (is_answer timeout_ms redis)
        (is_down (with_timeout timeout_ms (assert_nats nats_ready)).0))
  where
    decide :
        (a b c : Bool)
        → status_code (
            if (true && not a) || ((true && not b) || ((false && c) || false))
            then not_ready
            else if not a || (not b || (c || false))
            then degraded
            else ready)
          ≡ (if a && b then 200 else 503)
    decide true true true = refl
    decide true true false = refl
    decide true false c = refl
    decide false b c = refl
