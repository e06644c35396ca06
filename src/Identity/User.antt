-- ===== src/Identity/User.antt =====
-- src/modules/identity/domain/user.ts and src/modules/identity/domain/errors.ts. An email is the
-- text of an `Email` that was built before.
pub mod History
use nest_kit.Base.{
  ℕ, String, Bool, true, false, ◌&&◌, Option, none, some, List, [], ◌∷◌, ◌++◌, ◌=ₛ◌, if◌then◌else◌,
}
use nest_kit.Errors.{AppError, not_found, conflict, invalid, app_error, with_field}
use nest_kit.Effects.{Exec, returned, threw, ◌>>◌, throw_if}
use nest_kit.Events.{
  UserStatus, pending, active, suspended, DomainEvent, user_registered, user_email_changed,
  user_status_changed, user_deleted,
}

pub record User : Type 0 where
  pub uuid : String
  pub email : String
  pub password_hash : String
  pub status : UserStatus
  pub created_at : ℕ
  pub updated_at : ℕ
  pub deleted_at : Option ℕ
  pub events : List DomainEvent

abbrev pub user_not_found : AppError
user_not_found = app_error not_found "USER_NOT_FOUND"

abbrev pub email_already_registered : AppError
email_already_registered = with_field (app_error conflict "EMAIL_ALREADY_REGISTERED") "email"

abbrev pub user_already_deleted : AppError
user_already_deleted = app_error conflict "USER_ALREADY_DELETED"

abbrev pub invalid_status_transition : AppError
invalid_status_transition = with_field (app_error invalid "INVALID_STATUS_TRANSITION") "status"

-- `User.register`; the uuid that `uuidv7()` returns is the first argument.
unfoldable pub register : String → String → String → ℕ → User
register uuid email password_hash now = record {
  uuid = uuid;
  email = email;
  password_hash = password_hash;
  status = pending;
  created_at = now;
  updated_at = now;
  deleted_at = none;
  events = user_registered uuid email ∷ [];
}

abbrev pub is_set {ℓ} : {A : Type ℓ} → Option A → Bool
is_set none = false
is_set (some a) = true

abbrev pub is_deleted : User → Bool
is_deleted u = is_set u.deleted_at

abbrev pub same_status : UserStatus → UserStatus → Bool
same_status pending pending = true
same_status active active = true
same_status suspended suspended = true
same_status _ _ = false

abbrev pub is_suspended : UserStatus → Bool
is_suspended s = same_status s suspended

abbrev recorded : DomainEvent → User → User
recorded e u = record u { events = u.events ++ e ∷ [] }

unfoldable pub change_email : String → ℕ → Exec User (Unit {0})
change_email email now u =
    if is_deleted u
    then threw user_already_deleted u
    else if u.email =ₛ email
    then returned tt u
    else returned tt (
        recorded (user_email_changed u.uuid u.email email)
          (record u { email = email; updated_at = now }))

unfoldable pub change_status : UserStatus → ℕ → Exec User (Unit {0})
change_status status now u =
    if is_deleted u
    then threw user_already_deleted u
    else if same_status u.status status
    then returned tt u
    else if is_suspended u.status && same_status status pending
    then threw invalid_status_transition u
    else returned tt (
        recorded (user_status_changed u.uuid u.status status)
          (record u { status = status; updated_at = now }))

unfoldable pub delete : ℕ → Exec User (Unit {0})
delete now u =
    if is_deleted u
    then threw user_already_deleted u
    else returned tt
        (recorded (user_deleted u.uuid) (record u { deleted_at = some now; updated_at = now }))
