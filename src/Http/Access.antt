-- ===== src/Http/Access.antt =====
-- src/platform/http/guards/jwt-auth.guard.ts and authorization.guard.ts, with the blacklist of
-- src/platform/cache/redis-token-blacklist.ts, in the order in which a request meets them. What
-- verifies a token is an argument, and so is what a user is granted. Times are in seconds.
use nest_kit.Base.{
  ℕ, ◌+◌, String, Bool, not, ◌&&◌, ◌||◌, Option, none, some, List, [], ◌∷◌, map, ◌=ₛ◌, ltb, leb,
  if◌then◌else◌, any,
}
use nest_kit.Texts.{Text, same, split, is_empty}
use nest_kit.Queries.{select}
use nest_kit.Errors.{AppError, unauthorized, forbidden, app_error}
use nest_kit.Effects.{Result, ok, err, and_then}
use nest_kit.Rbac.Grants.{Grants}

-- What the claims of an access token give the guard
pub record AccessClaims : Type 0 where
  pub sub : String
  pub sid : String
  pub jti : String
  pub exp : ℕ

pub record CurrentUser : Type 0 where
  pub uuid : String
  pub session_uuid : String
  pub jti : String
  pub expires_at : ℕ

-- An entry of the blacklist
pub record Revoked : Type 0 where
  pub jti : String
  pub expires_at : ℕ

-- `RedisTokenBlacklist.revoke`, which sets the key anew
unfoldable pub revoke_token : String → ℕ → ℕ → List Revoked → List Revoked
revoke_token jti expires_at now revoked =
    if leb expires_at now
    then revoked
    else record { jti = jti; expires_at = expires_at } ∷ select (λ r. not (r.jti =ₛ jti)) revoked

-- `RedisTokenBlacklist.isRevoked`
unfoldable pub is_revoked : String → ℕ → List Revoked → Bool
is_revoked jti now revoked = any (λ r. r.jti =ₛ jti && ltb now r.expires_at) revoked

abbrev pub missing_token : AppError
missing_token = app_error unauthorized "MISSING_TOKEN"

abbrev pub token_revoked : AppError
token_revoked = app_error unauthorized "TOKEN_REVOKED"

abbrev pub forbidden_access : AppError
forbidden_access = app_error forbidden "FORBIDDEN"

-- `bearer`, and `toLowerCase` for the letters that can give it
abbrev bearer : Text
bearer = 98 ∷ 101 ∷ 97 ∷ 114 ∷ 101 ∷ 114 ∷ []

abbrev lower_case : ℕ → ℕ
lower_case c = if leb 65 c && leb c 90 then c + 32 else c

abbrev presented : List Text → Option Text
presented (scheme ∷ token ∷ rest) =
    if same (map lower_case scheme) bearer && not (is_empty token) then some token else none
presented parts = none

-- `bearerToken`; a missing header and an empty one are the same.
unfoldable pub bearer_token : Text → Option Text
bearer_token header = presented (split 32 header)

abbrev pub current_user : AccessClaims → CurrentUser
current_user claims = record {
  uuid = claims.sub;
  session_uuid = claims.sid;
  jti = claims.jti;
  expires_at = claims.exp;
}

abbrev pub unless_revoked : ℕ → List Revoked → AccessClaims → Result CurrentUser
unless_revoked now revoked claims =
    if is_revoked claims.jti now revoked then err token_revoked else ok (current_user claims)

abbrev pub verified :
    (Text → Result AccessClaims) → ℕ → List Revoked → Option Text → Result CurrentUser
verified parse_access now revoked none = err missing_token
verified parse_access now revoked (some token) =
    and_then (parse_access token) (unless_revoked now revoked)

abbrev pub optionally : Result CurrentUser → Result (Option CurrentUser)
optionally (ok u) = ok (some u)
optionally (err e) = err e

-- `JwtAuthGuard.canActivate`: the caller that it attaches
unfoldable pub authenticate :
    (Text → Result AccessClaims) → Bool → Text → ℕ → List Revoked → Result (Option CurrentUser)
authenticate parse_access is_public header now revoked =
    if is_public
    then ok none
    else optionally (verified parse_access now revoked (bearer_token header))

-- What a route asks for
pub record Route : Type 0 where
  pub is_public : Bool
  pub roles : List Text
  pub permissions : List Text

abbrev pub includes : List Text → Text → Bool
includes held t = any (λ u. same u t) held

unfoldable pub is_allowed : Route → Grants → Bool
is_allowed route grants =
    any (includes grants.permissions) route.permissions || any (includes grants.roles) route.roles

abbrev pub authorized : Route → (String → Grants) → Option CurrentUser → Result (Unit {0})
authorized route grants_for none = err missing_token
authorized route grants_for (some u) =
    if is_allowed route (grants_for u.uuid) then ok tt else err forbidden_access

-- `AuthorizationGuard.canActivate`
unfoldable pub authorize : Route → (String → Grants) → Option CurrentUser → Result (Unit {0})
authorize route grants_for caller =
    if is_empty route.roles && is_empty route.permissions
    then ok tt
    else authorized route grants_for caller

-- The two guards of a request, one after the other
unfoldable pub guarded :
    (Text → Result AccessClaims)
    → (String → Grants)
    → Route
    → Text
    → ℕ
    → List Revoked
    → Result (Option CurrentUser)
guarded parse_access grants_for route header now revoked =
    and_then (authenticate parse_access route.is_public header now revoked)
      (λ caller. and_then (authorize route grants_for caller) (λ _. ok caller))
