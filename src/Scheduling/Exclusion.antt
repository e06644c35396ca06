-- ===== src/Scheduling/Exclusion.antt =====
-- Several replicas of the scheduler (src/platform/scheduling) on one Redis, in any order of their
-- steps. Each `await` of `tick` is a place where others step in.
use nest_kit.Base.{
  ℕ, ◌+◌, ◌≤◌, String, ◌≡◌, Bool, true, false, ◌&&◌, Option, none, some, List, [], ◌∷◌, ◌++◌, ◌=ₛ◌,
  if◌then◌else◌, any,
}
use nest_kit.Scheduling.{
  Lock, acquire, release, Replica, skips, begin_run, end_run, shut_down, Phase, asking, won, lost,
  running, leaving, answer_of,
}

-- A `tick` of a task by a replica that has passed the guard and has not returned
pub record Tick : Type 0 where
  pub name : String
  pub holder : String
  pub phase : Phase

-- The replicas by their `holder`, the locks in Redis, the ticks and the time
pub record System : Type 0 where
  pub replicas : String → Replica
  pub locks : List Lock
  pub ticks : List Tick
  pub clock : ℕ

abbrev pub is_tick : String → String → Tick → Bool
is_tick name holder t = t.name =ₛ name && t.holder =ₛ holder

abbrev pub update : (String → Replica) → String → Replica → String → Replica
update replicas holder r h = if h =ₛ holder then r else replicas h

abbrev pub moved : Phase → Tick → Tick
moved phase t = record t { phase = phase }

-- Whether a tick has its answer on its way
abbrev pub is_answered : Phase → Bool
is_answered asking = false
is_answered (won until) = true
is_answered lost = true
is_answered (running until) = false
is_answered leaving = false

-- Whether a tick waits for Redis
abbrev pub waits : Phase → Bool
waits asking = true
waits (won until) = true
waits lost = true
waits (running until) = false
waits leaving = true

abbrev pub is_running : Phase → Bool
is_running asking = false
is_running (won until) = false
is_running lost = false
is_running (running until) = true
is_running leaving = false

-- The end of the lifetime of the lock of a tick
abbrev pub lock_of : Phase → Option ℕ
lock_of asking = none
lock_of (won until) = some until
lock_of lost = none
lock_of (running until) = some until
lock_of leaving = none

abbrev pub asked : ℕ → ℕ → System → List Tick → Tick → List Tick → Bool × List Lock → System
asked ttl_ms now s before t after (answer, locks) = record {
  replicas = s.replicas;
  locks = locks;
  ticks = before ++ moved (answer_of (now + ttl_ms) answer) t ∷ after;
  clock = now;
}

pub data Step (ttl_ms : ℕ) (s : System) : System → Type 0 where
  -- The guard of `tick`
  begins :
      (name holder : String)
      → skips name (s.replicas holder) ≡ false
      → Step ttl_ms s
          (record s { ticks = record { name = name; holder = holder; phase = asking } ∷ s.ticks })
  -- Redis answers the question for the lock, or it fails.
  asks :
      (reached : Bool) (now : ℕ) (before : List Tick) (t : Tick) (after : List Tick)
      → s.clock ≤ now
      → s.ticks ≡ before ++ t ∷ after
      → t.phase ≡ asking
      → Step ttl_ms s (
          asked ttl_ms now s before t after
            (acquire reached t.name (s.replicas t.holder).holder ttl_ms now s.locks))
  -- The answer arrives, and the task begins.
  starts :
      (until : ℕ) (before : List Tick) (t : Tick) (after : List Tick)
      → s.ticks ≡ before ++ t ∷ after
      → t.phase ≡ won until
      → Step ttl_ms s (record s {
        replicas = update s.replicas t.holder (begin_run t.name (s.replicas t.holder));
        ticks = before ++ moved (running until) t ∷ after;
      })
  -- The answer is that the lock is held, or it never arrives, which is an error.
  gives_up :
      (before : List Tick) (t : Tick) (after : List Tick)
      → s.ticks ≡ before ++ t ∷ after
      → is_answered t.phase ≡ true
      → Step ttl_ms s (record s { ticks = before ++ after })
  -- The task ends, and the release is asked for.
  ends :
      (until : ℕ) (before : List Tick) (t : Tick) (after : List Tick)
      → s.ticks ≡ before ++ t ∷ after
      → t.phase ≡ running until
      → Step ttl_ms s (record s {
        replicas = update s.replicas t.holder (end_run t.name (s.replicas t.holder));
        ticks = before ++ moved leaving t ∷ after;
      })
  -- Redis releases the lock, or the question fails.
  releases :
      (reached : Bool) (now : ℕ) (before : List Tick) (t : Tick) (after : List Tick)
      → s.clock ≤ now
      → s.ticks ≡ before ++ t ∷ after
      → t.phase ≡ leaving
      → Step ttl_ms s (record {
        replicas = s.replicas;
        locks = release reached t.name (s.replicas t.holder).holder now s.locks;
        ticks = before ++ after;
        clock = now;
      })
  shuts :
      (holder : String)
      → Step ttl_ms s
          (record s { replicas = update s.replicas holder (shut_down (s.replicas holder)) })
  passes : (now : ℕ) → s.clock ≤ now → Step ttl_ms s (record s { clock = now })

abbrev pub replica : String → Replica
replica holder = record { holder = holder; in_flight = []; stopped = false }

pub data Reach (ttl_ms : ℕ) : System → Type 0 where
  start :
      (now : ℕ) → Reach ttl_ms (record { replicas = replica; locks = []; ticks = []; clock = now })
  later : {s t : System} → Reach ttl_ms s → Step ttl_ms s t → Reach ttl_ms t

-- A tick that begins while no other one of the task, on the same replica, waits for Redis
abbrev pub IsPacedStep : {ttl_ms : ℕ} {s t : System} → Step ttl_ms s t → Type 0
IsPacedStep {ttl_ms} {s} (begins name holder free) =
    any (λ t. is_tick name holder t && waits t.phase) s.ticks ≡ false
IsPacedStep (asks reached now before t after le e p) = Unit
IsPacedStep (starts until before t after e p) = Unit
IsPacedStep (gives_up before t after e p) = Unit
IsPacedStep (ends until before t after e p) = Unit
IsPacedStep (releases reached now before t after le e p) = Unit
IsPacedStep (shuts holder) = Unit
IsPacedStep (passes now le) = Unit

unfoldable pub IsPaced : {ttl_ms : ℕ} {s : System} → Reach ttl_ms s → Type 0
IsPaced (start now) = Unit
IsPaced (later r step) = IsPacedStep step × IsPaced r
