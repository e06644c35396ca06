-- ===== src/Auth/Session.antt =====
-- src/modules/auth/domain/session.ts and src/modules/auth/domain/errors.ts.
pub mod History
use nest_kit.Base.{
  ℕ, String, Bool, true, false, ◌&&◌, Option, none, some, List, [], ◌∷◌, ◌++◌, ◌=ₛ◌, ltb,
  if◌then◌else◌,
}
use nest_kit.Errors.{AppError, unauthorized, app_error}
use nest_kit.Effects.{Exec, returned, threw, ◌>>◌, throw_if}
use nest_kit.Events.{DomainEvent, session_revoked}

-- A session, with the events that it has recorded and nobody has pulled yet.
pub record Session : Type 0 where
  pub uuid : String
  pub user_uuid : String
  pub refresh_jti : String
  pub issued_at : ℕ
  pub expires_at : ℕ
  pub revoked_at : Option ℕ
  pub events : List DomainEvent

abbrev pub session_not_active : AppError
session_not_active = app_error unauthorized "SESSION_NOT_ACTIVE"

abbrev pub refresh_token_replayed : AppError
refresh_token_replayed = app_error unauthorized "REFRESH_TOKEN_REPLAYED"

-- `Session.start`
unfoldable pub start : String → String → String → ℕ → ℕ → Session
start uuid user_uuid refresh_jti now expires_at = record {
  uuid = uuid;
  user_uuid = user_uuid;
  refresh_jti = refresh_jti;
  issued_at = now;
  expires_at = expires_at;
  revoked_at = none;
  events = [];
}

abbrev pub is_none {ℓ} : {A : Type ℓ} → Option A → Bool
is_none none = true
is_none (some a) = false

unfoldable pub is_active : ℕ → Session → Bool
is_active now s = is_none s.revoked_at && ltb now s.expires_at

unfoldable pub revoke : ℕ → Session → Session
revoke now s =
    if is_none s.revoked_at
    then record s {
      revoked_at = some now;
      events = s.events ++ session_revoked s.uuid s.user_uuid ∷ [];
    }
    else s

-- The comparison of the presented token with the stored one. A replay revokes before it throws.
abbrev rotated : String → String → ℕ → ℕ → Exec Session (Unit {0})
rotated presented next now expires_at s =
    if presented =ₛ s.refresh_jti
    then returned tt (record s { refresh_jti = next; expires_at = expires_at })
    else threw refresh_token_replayed (revoke now s)

unfoldable pub rotate : String → String → ℕ → ℕ → Exec Session (Unit {0})
rotate presented next now expires_at s =
    if is_active now s then rotated presented next now expires_at s else threw session_not_active s
