-- ===== src/Auth/Session/History.antt =====
-- Histories of calls on one session (src/modules/auth/domain/session.ts).
use nest_kit.Base.{ℕ, String, ◌≡◌, refl, false, List, [], ◌∷◌, arith, if◌then◌else◌}
use nest_kit.Effects.{state_of}
use nest_kit.Events.{DomainEvent, session_revoked}
use nest_kit.Auth.Session.{Session, start, is_active, is_none, revoke, rotate}

pub data Call : Type 0 where
  rotates : (presented next : String) (now expires_at : ℕ) → Call
  revokes : ℕ → Call

-- The session after a call, whether it threw or not.
unfoldable pub step : Session → Call → Session
step s (rotates presented next now expires_at) = state_of (rotate presented next now expires_at s)
step s (revokes now) = revoke now s

unfoldable pub run : Session → List Call → Session
run s [] = s
run s (c ∷ cs) = run (step s c) cs

step_revoked : (s : Session) (c : Call) → is_none s.revoked_at ≡ false → step s c ≡ s
unfolding step rotate revoke is_active
step_revoked s (rotates presented next now expires_at) h = ground arith
step_revoked s (revokes now) h = ground arith

-- A revoked session never changes again, and records no further event.
pub run_revoked : (s : Session) (cs : List Call) → is_none s.revoked_at ≡ false → run s cs ≡ s
unfolding run
run_revoked s [] h = refl
run_revoked s (c ∷ cs) h = rw (step_revoked s c h) (run_revoked s cs h)

-- The one event of a revoked session.
abbrev pub revocation : Session → List DomainEvent
revocation s = if is_none s.revoked_at then [] else session_revoked s.uuid s.user_uuid ∷ []

step-revocation :
    (s : Session) (c : Call) → s.events ≡ revocation s → (step s c).events ≡ revocation (step s c)
unfolding step rotate revoke is_active
step-revocation s (rotates presented next now expires_at) h = ground arith
step-revocation s (revokes now) h = ground arith

run-revocation_from :
    (s : Session) (cs : List Call)
    → s.events ≡ revocation s
    → (run s cs).events ≡ revocation (run s cs)
unfolding run
run-revocation_from s [] h = h
run-revocation_from s (c ∷ cs) h = run-revocation_from (step s c) cs (step-revocation s c h)

-- Whatever is done to a session that was started, it has recorded exactly one event of its
-- revocation when it is revoked, and none before.
pub run-revocation :
    (uuid user_uuid refresh_jti : String) (now expires_at : ℕ) (cs : List Call)
    → let s = run (start uuid user_uuid refresh_jti now expires_at) cs in s.events ≡ revocation s
unfolding start
run-revocation uuid user_uuid refresh_jti now expires_at cs =
    run-revocation_from (start uuid user_uuid refresh_jti now expires_at) cs refl
