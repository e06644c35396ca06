-- ===== src/Scheduling/Safety.antt =====
-- What the replicas of src/platform/scheduling make sure of, whatever order their steps take.
use nest_kit.Base.{
  ℕ, ◌<◌, ◌≡◌, refl, sym, ap, ◌∙◌, ◌≢◌, false, List, [], ◌∷◌, arith, eq_iff, any, All, some_inj,
}
use nest_kit.Queries.{first}
use nest_kit.Scheduling.{Lock, is_held, running}
use nest_kit.Scheduling.Exclusion.{
  Tick, System, Step, Reach, IsPacedStep, IsPaced, begins, asks, starts, gives_up, ends, releases,
  shuts, passes, start, later, is_tick, lock_of,
}
use nest_kit.Scheduling.Invariant.{IsLocked, HasDistinctTicks, IsSound}
use nest_kit.Scheduling.Sound.{
  begins-IsSound, asks-IsSound, starts-IsSound, gives_up-IsSound, ends-IsSound, releases-IsSound,
  shuts-IsSound, passes-IsSound,
}

Step-IsSound :
    {ttl_ms : ℕ} {s t : System} (step : Step ttl_ms s t) → IsPacedStep step → IsSound s → IsSound t
Step-IsSound {ttl_ms} {s} (begins name holder free) paced h =
    begins-IsSound ttl_ms s h name holder free paced
Step-IsSound {ttl_ms} {s} (asks reached now before t after le e p) paced h =
    asks-IsSound ttl_ms s h before t after e reached now le
Step-IsSound {ttl_ms} {s} (starts until before t after e p) paced h =
    starts-IsSound ttl_ms s h before t after e until p
Step-IsSound {ttl_ms} {s} (gives_up before t after e p) paced h =
    gives_up-IsSound ttl_ms s h before t after e
Step-IsSound {ttl_ms} {s} (ends until before t after e p) paced h =
    ends-IsSound ttl_ms s h before t after e
Step-IsSound {ttl_ms} {s} (releases reached now before t after le e p) paced h =
    releases-IsSound ttl_ms s h before t after e reached now le
Step-IsSound {ttl_ms} {s} (shuts holder) paced h = shuts-IsSound ttl_ms s h holder
Step-IsSound {ttl_ms} {s} (passes now le) paced h = passes-IsSound ttl_ms s h now le

Reach-IsSound : {ttl_ms : ℕ} {s : System} (r : Reach ttl_ms s) → IsPaced r → IsSound s
unfolding IsPaced
Reach-IsSound (start now) paced = record {
  locked = tt;
  known = tt;
  distinct = tt;
  named = λ n. refl;
}
Reach-IsSound (later r step) (one, paced) = Step-IsSound step one (Reach-IsSound r paced)

-- A tick whose task runs within the lifetime of its lock
abbrev pub IsLive : ℕ → Tick → Type 0
IsLive now t = (until : ℕ) × (t.phase ≡ running until) × (now < until)

-- No two runs of one task within the lifetimes of their locks
abbrev pub HasOneLive : ℕ → List Tick → Type 0
HasOneLive now [] = Unit
HasOneLive now (t ∷ ticks) =
    All (λ q. IsLive now t → IsLive now q → t.name ≢ q.name) ticks × HasOneLive now ticks

one-IsLive :
    (now : ℕ) (locks : List Lock) (t : Tick) (ticks : List Tick)
    → IsLocked now locks t
    → All (IsLocked now locks) ticks
    → any (is_tick t.name t.holder) ticks ≡ false
    → All (λ q. IsLive now t → IsLive now q → t.name ≢ q.name) ticks
one-IsLive now locks t [] k h f = tt
one-IsLive now locks t (q ∷ ticks) k (g, h) f = (
  λ (until_t, runs_t, live_t) (until_q, runs_q, live_q) same.
      let (l, here_t, hold_t, exp_t) = k until_t (ap lock_of runs_t) live_t in
      let (m, here_q, hold_q, exp_q) = g until_q (ap lock_of runs_q) live_q in
      let one : l ≡ m =
        some_inj (sym here_t ∙ ap (λ x. first (is_held x now) locks) same ∙ here_q) in
      let holder : q.holder ≡ t.holder = sym hold_q ∙ ap (λ x. x.holder) (sym one) ∙ hold_t in
      ground (arith, eq_iff q.name t.name, eq_iff q.holder t.holder),
  one-IsLive now locks t ticks k h ground arith,
)

HasOneLive-ticks :
    (now : ℕ) (locks : List Lock) (ticks : List Tick)
    → All (IsLocked now locks) ticks
    → HasDistinctTicks ticks
    → HasOneLive now ticks
HasOneLive-ticks now locks [] h d = tt
HasOneLive-ticks now locks (t ∷ ticks) (k, h) (f, d) =
    (one-IsLive now locks t ticks k h f, HasOneLive-ticks now locks ticks h d)

-- However the steps of the replicas interleave, with each question to Redis, its answer, the run of
-- the task, the release and a shutdown as steps of their own, and whichever questions fail, no two
-- runs of one task go on while the lifetimes of the locks that they began with last. This is when no
-- replica begins a tick of a task while it waits for Redis in an earlier tick of it. A task that
-- takes longer than its lock is the one that another may join.
pub Reach-HasOneLive :
    (ttl_ms : ℕ) (s : System) (r : Reach ttl_ms s) → IsPaced r → HasOneLive s.clock s.ticks
Reach-HasOneLive ttl_ms s r paced =
    let sound = Reach-IsSound r paced in
    HasOneLive-ticks s.clock s.locks s.ticks sound.locked sound.distinct
