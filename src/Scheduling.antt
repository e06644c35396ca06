-- ===== src/Scheduling.antt =====
-- src/platform/scheduling: leader-lock.ts and scheduler.service.ts. Of Redis: `SET` with `PX` and
-- `NX`, which sets a key that no live entry has, and the script `RELEASE`. Whether a call reached it
-- is an argument, and times are in milliseconds.
pub mod Exclusion
pub mod Invariant
pub mod Sound
pub mod Safety
mod Tests
use nest_kit.Queries.{first, select, found}
use nest_kit.Base.{
  ℕ, zero, suc, ◌+◌, ◌-◌, ◌*◌, ◌/◌, ◌%◌, ◌^◌, ◌≤◌, ◌<◌, min, max, String, ◌≡◌, refl, sym, ap, ◌∙◌,
  subst, ◌≡⟨◌⟩◌, ◌∎, ◌≢◌, ◌↔◌, ◌⊎◌, inl, inr, Bool, true, false, not, ◌&&◌, ◌||◌, Option, none,
  some, List, [], ◌∷◌, ◌++◌, map, append_assoc, append-nil, arith, eq_iff, eq_refl, dec_lt,
  ℕ_discrete, ◌=ₛ◌, ltb, leb, ◌==◌, if◌then◌else◌, ltb→lt, lt→ltb, leb→le, le→leb, ==_iff, tests,
  Bool-cases, Option-cases, length, take, all, any, length-append, length-take-le, length-map, All,
  All-append, ne_of_test, some_inj, and_left, and_right, or_true, or_false,
}

-- A lock that is held
pub record Lock : Type 0 where
  pub name : String
  pub holder : String
  pub expires_at : ℕ

abbrev pub is_held : String → ℕ → Lock → Bool
is_held name now l = l.name =ₛ name && ltb now l.expires_at

-- `GET` of the key of a lock
unfoldable pub holder_of : String → ℕ → List Lock → Option String
holder_of name now locks = found (λ l. l.holder) (first (is_held name now) locks)

-- The entries of the other keys
unfoldable pub drop_key : String → List Lock → List Lock
drop_key name locks = select (λ l. not (l.name =ₛ name)) locks

abbrev pub set_nx : String → String → ℕ → ℕ → List Lock → Option String → Bool × List Lock
set_nx name holder ttl_ms now locks none =
    (true, record { name = name; holder = holder; expires_at = now + ttl_ms } ∷ drop_key name locks)
set_nx name holder ttl_ms now locks (some other) = (false, locks)

-- `acquire`
unfoldable pub acquire : Bool → String → String → ℕ → ℕ → List Lock → Bool × List Lock
acquire reached name holder ttl_ms now locks =
    if reached
    then set_nx name holder ttl_ms now locks (holder_of name now locks)
    else (false, locks)

abbrev pub is_holder : String → Option String → Bool
is_holder holder none = false
is_holder holder (some h) = h =ₛ holder

-- `release`, by the script `RELEASE`
unfoldable pub release : Bool → String → String → ℕ → List Lock → List Lock
release reached name holder now locks =
    if reached && is_holder holder (holder_of name now locks) then drop_key name locks else locks

-- A replica of the process: its `holder`, the names in its `inFlight` map, and `stopped`.
pub record Replica : Type 0 where
  pub holder : String
  pub in_flight : List String
  pub stopped : Bool

abbrev pub has_name : String → List String → Bool
has_name name names = any (λ n. n =ₛ name) names

-- The guard of `tick`
unfoldable pub skips : String → Replica → Bool
skips name r = r.stopped || has_name name r.in_flight

-- `inFlight.set`, with the run that has begun
unfoldable pub begin_run : String → Replica → Replica
begin_run name r = record r { in_flight = name ∷ r.in_flight }

-- `inFlight.delete`, in the `finally` of `tick`
unfoldable pub end_run : String → Replica → Replica
end_run name r = record r { in_flight = select (λ n. not (n =ₛ name)) r.in_flight }

-- `onApplicationShutdown`, up to the wait for the running tasks
unfoldable pub shut_down : Replica → Replica
shut_down r = record r { stopped = true }

-- Where a `tick` that has passed the guard is: its question for the lock is on its way; Redis has
-- answered it, and the answer is on its way; the task runs; or the question for the release is on
-- its way. With a lock goes the end of its lifetime.
pub data Phase : Type 0 where
  asking : Phase
  won : ℕ → Phase
  lost : Phase
  running : ℕ → Phase
  leaving : Phase

abbrev pub answer_of : ℕ → Bool → Phase
answer_of until true = won until
answer_of until false = lost
