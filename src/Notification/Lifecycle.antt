-- ===== src/Notification/Lifecycle.antt =====
-- The states of a notification (src/modules/notification/domain/notification.ts) under any sequence
-- of its methods.
use nest_kit.Base.{
  ℕ, ◌≤◌, String, ◌≡◌, refl, ◌≢◌, Option, none, some, List, [], ◌∷◌, arith, length, length-take-le,
}
use nest_kit.Notification.{
  sent, failed, Notification, max_error_length, queue, begin_attempt, mark_sent, mark_failed,
  mark_unconfigured,
}

pub data Call : Type 0 where
  begins sends : ℕ → Call
  fails : List ℕ → ℕ → ℕ → Call
  lacks_transport : ℕ → Call

unfoldable pub step : Notification → Call → Notification
step n (begins now) = begin_attempt now n
step n (sends now) = mark_sent now n
step n (fails error most now) = mark_failed error most now n
step n (lacks_transport now) = mark_unconfigured now n

unfoldable pub run : Notification → List Call → Notification
run n [] = n
run n (c ∷ cs) = run (step n c) cs

step_sent : (n : Notification) (c : Call) → n.status ≡ sent → step n c ≡ n
unfolding step begin_attempt mark_sent mark_failed mark_unconfigured
step_sent n (begins now) h = ground arith
step_sent n (sends now) h = ground arith
step_sent n (fails error most now) h = ground arith
step_sent n (lacks_transport now) h = ground arith

-- Sent is terminal: no sequence of methods changes anything in a notification that was sent.
pub run_sent : (n : Notification) (cs : List Call) → n.status ≡ sent → run n cs ≡ n
unfolding run
run_sent n [] h = refl
run_sent n (c ∷ cs) h = rw (step_sent n c h) (run_sent n cs h)

abbrev IsShort : Option (List ℕ) → Type 0
IsShort none = Unit
IsShort (some e) = length e ≤ max_error_length

pub record IsValid (n : Notification) : Type 0 where
  pub short_error : IsShort n.last_error
  pub sent_stamped : n.status ≡ sent → n.sent_at ≢ none
  pub stamped_sent : n.sent_at ≢ none → n.status ≡ sent
  pub sent_clean : n.status ≡ sent → n.last_error ≡ none
  pub failed_reason : n.status ≡ failed → n.last_error ≢ none

step-IsValid : (n : Notification) (c : Call) → IsValid n → IsValid (step n c)
unfolding step begin_attempt mark_sent mark_failed mark_unconfigured
step-IsValid n (begins now) v = ground arith
step-IsValid n (sends now) v = ground arith
step-IsValid n (fails error most now) v = ground (arith, length-take-le max_error_length error)
step-IsValid n (lacks_transport now) v = ground arith

pub queue-IsValid :
    (uuid recipient address channel subject body : String) (now : ℕ)
    → IsValid (queue uuid recipient address channel subject body now)
unfolding queue
queue-IsValid uuid recipient address channel subject body now = ground arith

-- From a valid notification, any sequence of methods keeps the stored error within 512 code units,
-- the time of sending set exactly when the status is sent, no error on a sent one and a reason on a
-- failed one.
pub run-IsValid : (n : Notification) (cs : List Call) → IsValid n → IsValid (run n cs)
unfolding run
run-IsValid n [] v = v
run-IsValid n (c ∷ cs) v = run-IsValid (step n c) cs (step-IsValid n c v)
