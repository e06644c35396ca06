-- ===== src/Identity/User/History.antt =====
-- Histories of calls on one user (src/modules/identity/domain/user.ts).
use nest_kit.Base.{ℕ, String, ◌≡◌, refl, Bool, true, false, List, [], ◌∷◌, arith, any}
use nest_kit.Effects.{state_of}
use nest_kit.Events.{UserStatus, pending, active, suspended}
use nest_kit.Identity.User.{User, is_deleted, change_email, change_status, delete}

pub data Call : Type 0 where
  changes_email : String → ℕ → Call
  changes_status : UserStatus → ℕ → Call
  deletes : ℕ → Call

-- The user after a call, whether it threw or not.
unfoldable pub step : User → Call → User
step u (changes_email email now) = state_of (change_email email now u)
step u (changes_status status now) = state_of (change_status status now u)
step u (deletes now) = state_of (delete now u)

unfoldable pub run : User → List Call → User
run u [] = u
run u (c ∷ cs) = run (step u c) cs

step_deleted : (u : User) (c : Call) → is_deleted u ≡ true → step u c ≡ u
unfolding step change_email change_status delete
step_deleted u (changes_email email now) h = ground arith
step_deleted u (changes_status status now) h = ground arith
step_deleted u (deletes now) h = ground arith

-- A deleted user never changes again, and records no further event.
pub run_deleted : (u : User) (cs : List Call) → is_deleted u ≡ true → run u cs ≡ u
unfolding run
run_deleted u [] h = refl
run_deleted u (c ∷ cs) h = rw (step_deleted u c h) (run_deleted u cs h)

-- Whether a call sets the status to active.
abbrev pub reinstates : Call → Bool
reinstates (changes_status active now) = true
reinstates _ = false

step_suspended :
    (u : User) (c : Call)
    → u.status ≡ suspended
    → reinstates c ≡ false
    → (step u c).status ≡ suspended
unfolding step change_email change_status delete
step_suspended u (changes_email email now) h r = ground arith
step_suspended u (changes_status pending now) h r = ground arith
step_suspended u (changes_status active now) h r = ground arith
step_suspended u (changes_status suspended now) h r = ground arith
step_suspended u (deletes now) h r = ground arith

-- A suspended user stays suspended until a call sets the status to active, whatever else is asked
-- for, also the pending state.
pub run_suspended :
    (u : User) (cs : List Call)
    → u.status ≡ suspended
    → any reinstates cs ≡ false
    → (run u cs).status ≡ suspended
unfolding run
run_suspended u [] h r = h
run_suspended u (c ∷ cs) h r =
    run_suspended (step u c) cs (step_suspended u c h (ground arith)) (ground arith)
