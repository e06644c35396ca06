-- ===== src/Auth/Handlers.antt =====
-- src/modules/auth/application/commands: login, refresh and logout. The password hasher and the
-- tokenizer are arguments, and so are the uuid of a new session and the `Email` built of the address
-- that was given.
pub mod Replay
use nest_kit.Base.{ℕ, String, Bool, true, false, Option, none, some, [], ◌∷◌, if◌then◌else◌}
use nest_kit.Errors.{AppError, unauthorized, forbidden, app_error, is_code}
use nest_kit.Effects.{
  Result, ok, err, Outcome, Exec, returned, threw, pure, throw, lift, gets, or_throw, throw_if,
  ◌>>=◌, ◌>>◌,
}
use nest_kit.Events.{user_logged_in, user_logged_out}
use nest_kit.Transactions.{with_transaction, publish_all, reads, writes}
use nest_kit.Identity.User.{User, is_suspended}
use nest_kit.Auth.Session.{
  Session, start, revoke, rotate, session_not_active, refresh_token_replayed,
}
use nest_kit.Database.{Store, Tx, find_user_by_email, find_session, save_session}

pub record Claims : Type 0 where
  pub sub : String
  pub sid : String
  pub jti : String

pub record IssuedToken : Type 0 where
  pub token : String
  pub jti : String
  pub expires_at : ℕ

pub record TokenPair : Type 0 where
  pub access_token : String
  pub refresh_token : String
  pub expires_at : ℕ

-- The `Tokenizer`: tokens for a user and a session.
pub record Tokenizer : Type 0 where
  pub parse_refresh : String → Result Claims
  pub issue_refresh : String → String → IssuedToken
  pub issue_access : String → String → IssuedToken

abbrev pub invalid_credentials : AppError
invalid_credentials = app_error unauthorized "INVALID_CREDENTIALS"

abbrev pub account_suspended : AppError
account_suspended = app_error forbidden "ACCOUNT_SUSPENDED"

abbrev pair_of : IssuedToken → IssuedToken → TokenPair
pair_of access refresh = record {
  access_token = access.token;
  refresh_token = refresh.token;
  expires_at = access.expires_at;
}

-- The writes that end the transaction; whether the token was replayed is passed on.
abbrev pub keep : Bool → Session → Exec Tx Bool
keep replayed session = do writes (save_session session); publish_all session.events; pure replayed

-- The `catch` around `rotate`.
abbrev pub after_rotation : Outcome Session (Unit {0}) → Exec Tx Bool
after_rotation (returned u session) = keep false session
after_rotation (threw e session) =
    if is_code e "REFRESH_TOKEN_REPLAYED" then keep true session else throw e

unfoldable pub rotate_session : Claims → IssuedToken → ℕ → Exec Tx Bool
rotate_session claims next now = do
  found ← reads (find_session claims.sid)
  session ← or_throw session_not_active found
  after_rotation (rotate claims.jti next.jti now next.expires_at session)

-- `RefreshTokenHandler.execute`
unfoldable pub refresh_token : Tokenizer → String → ℕ → Exec Store TokenPair
refresh_token tokenizer token now = do
  claims ← lift (tokenizer.parse_refresh token)
  let next = tokenizer.issue_refresh claims.sub claims.sid
  let access = tokenizer.issue_access claims.sub claims.sid
  replayed ← with_transaction (rotate_session claims next now)
  if replayed then throw refresh_token_replayed else pure (pair_of access next)

-- `findUser`: a malformed address finds nobody.
abbrev find_login : Result String → Exec Store (Option User)
find_login (err e) = if is_code e "VALIDATION_FAILED" then pure none else throw e
find_login (ok email) = gets (λ w. find_user_by_email email w.db)

-- The user whose password matches. The verdict on the dummy hash is not used.
abbrev verified : (String → String → Bool) → String → Option User → Option User
verified verify password none = none
verified verify password (some u) = if verify u.password_hash password then some u else none

-- `LoginHandler.execute`
unfoldable pub login :
    Tokenizer
    → (String → String → Bool)
    → String
    → Result String
    → String
    → ℕ
    → Exec Store TokenPair
login tokenizer verify session_uuid email password now = do
  found ← find_login email
  user ← or_throw invalid_credentials (verified verify password found)
  throw_if (is_suspended user.status) account_suspended
  let refresh = tokenizer.issue_refresh user.uuid session_uuid
  let access = tokenizer.issue_access user.uuid session_uuid
  with_transaction (do
    writes (save_session (start session_uuid user.uuid refresh.jti now refresh.expires_at))
    publish_all (user_logged_in user.uuid session_uuid ∷ []))
  pure (pair_of access refresh)

abbrev leave : ℕ → Option Session → Exec Tx (Unit {0})
leave now none = pure tt
leave now (some session) = do
  writes (save_session (revoke now session))
  publish_all (user_logged_out session.user_uuid session.uuid ∷ [])

-- `LogoutHandler.execute`; the result is the entry that the blacklist gets then.
unfoldable pub logout : String → String → ℕ → ℕ → Exec Store (String × ℕ)
logout session_uuid access_jti access_expires_at now = do
  with_transaction (do found ← reads (find_session session_uuid); leave now found)
  pure (access_jti, access_expires_at)
