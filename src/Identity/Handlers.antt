-- ===== src/Identity/Handlers.antt =====
-- The command handlers of src/modules/identity/application/commands. The `Email` of a registration
-- was built before; the one of an update is built in the transaction, and may throw there. The hash
-- of the password is an argument.
pub mod Emails
pub mod Sound
pub mod Unique
use nest_kit.Base.{ℕ, String, Bool, false, not, Option, none, some, ◌=ₛ◌, if◌then◌else◌}
use nest_kit.Errors.{AppError}
use nest_kit.Effects.{
  Exec, Result, ok, err, Outcome, returned, threw, pure, throw, lift, throw_if, or_throw, object_of,
  ◌>>=◌, ◌>>◌,
}
use nest_kit.Events.{UserStatus}
use nest_kit.Transactions.{with_transaction, publish_all, reads, writes}
use nest_kit.Identity.User.{
  User, register, change_email, change_status, delete, is_deleted, is_set, user_not_found,
  email_already_registered,
}
use nest_kit.Database.{Db, Store, Tx, find_user, find_user_by_email, save_user}

-- The save and the publication that end each handler.
abbrev pub store_user : User → Exec Tx User
store_user u = do writes (save_user u); publish_all u.events; pure u

abbrev pub register_work : String → String → String → ℕ → Exec Tx User
register_work uuid email password_hash now = do
  taken ← reads (find_user_by_email email)
  throw_if (is_set taken) email_already_registered
  store_user (register uuid email password_hash now)

-- `RegisterUserHandler.execute`, from its transaction on
unfoldable pub register_user : String → String → String → ℕ → Exec Store User
register_user uuid email password_hash now =
    with_transaction (register_work uuid email password_hash now)

-- `!found || found.isDeleted`
abbrev pub live : Option User → Option User
live none = none
live (some u) = if is_deleted u then none else some u

abbrev pub belongs_to_other : User → Option User → Bool
belongs_to_other found none = false
belongs_to_other found (some owner) = not (owner.uuid =ₛ found.uuid)

abbrev pub with_email : Option (Result String) → ℕ → User → Exec Tx User
with_email none now found = pure found
with_email (some parsed) now found = do
  email ← lift parsed
  owner ← reads (find_user_by_email email)
  throw_if (belongs_to_other found owner) email_already_registered
  lift (object_of (change_email email now found))

abbrev pub with_status : Option UserStatus → ℕ → User → Exec Tx User
with_status none now found = pure found
with_status (some status) now found = lift (object_of (change_status status now found))

abbrev pub update_work : String → Option (Result String) → Option UserStatus → ℕ → Exec Tx User
update_work uuid email status now = do
  loaded ← reads (find_user uuid)
  found ← or_throw user_not_found (live loaded)
  moved ← with_email email now found
  changed ← with_status status now moved
  store_user changed

-- `UpdateUserHandler.execute`
unfoldable pub update_user :
    String → Option (Result String) → Option UserStatus → ℕ → Exec Store User
update_user uuid email status now = with_transaction (update_work uuid email status now)

abbrev pub delete_work : String → ℕ → Exec Tx User
delete_work uuid now = do
  loaded ← reads (find_user uuid)
  found ← or_throw user_not_found (live loaded)
  deleted ← lift (object_of (delete now found))
  store_user deleted

-- `DeleteUserHandler.execute`
unfoldable pub delete_user : String → ℕ → Exec Store User
delete_user uuid now = with_transaction (delete_work uuid now)
