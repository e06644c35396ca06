-- ===== src/Owner/Handlers.antt =====
-- The command handlers of src/modules/owner/application/commands, and the reaction to a deleted user
-- of src/modules/owner/infrastructure/event-handlers. The date of birth of a registration was built
-- before.
use nest_kit.Base.{ℕ, String, Bool, true, false, Option, none, some, List}
use nest_kit.Errors.{AppError, invalid, app_error, with_field}
use nest_kit.Effects.{Exec, pure, lift, throw_if, or_throw, object_of, ◌>>=◌, ◌>>◌}
use nest_kit.Transactions.{with_transaction, publish_all, reads, writes}
use nest_kit.Identity.User.{User, is_deleted}
use nest_kit.Owner.{
  Owner, register, change_address, deactivate, owner_not_found, owner_already_registered,
}
use nest_kit.Database.{Store, Tx, find_user, find_owner, find_owner_by_user, save_owner}

-- The save and the publication that end each handler.
abbrev pub store_owner : Owner → Exec Tx Owner
store_owner o = do writes (save_owner o); publish_all o.events; pure o

abbrev pub user_missing : AppError
user_missing = with_field (app_error invalid "USER_NOT_FOUND") "userUuid"

abbrev pub is_some {ℓ} : {A : Type ℓ} → Option A → Bool
is_some none = false
is_some (some a) = true

abbrev gone : Option User → Bool
gone none = true
gone (some u) = is_deleted u

-- `RegisterOwnerHandler.execute`, from its transaction on
unfoldable pub register_owner :
    (List ℕ → List ℕ) → String → String → List ℕ → ℕ → ℕ → Exec Store Owner
register_owner collapse uuid user_uuid address date_of_birth now = with_transaction (do
  user ← reads (find_user user_uuid)
  throw_if (gone user) user_missing
  taken ← reads (find_owner_by_user user_uuid)
  throw_if (is_some taken) owner_already_registered
  owner ← lift (register collapse uuid user_uuid address date_of_birth now)
  store_owner owner)

-- `UpdateOwnerAddressHandler.execute`
unfoldable pub update_owner_address : (List ℕ → List ℕ) → String → List ℕ → ℕ → Exec Store Owner
update_owner_address collapse uuid address now = with_transaction (do
  found ← reads (find_owner uuid)
  owner ← or_throw owner_not_found found
  moved ← lift (object_of (change_address collapse address now owner))
  store_owner moved)

-- `DeactivateOwnerHandler.execute`
unfoldable pub deactivate_owner : String → String → ℕ → Exec Store Owner
deactivate_owner uuid reason now = with_transaction (do
  found ← reads (find_owner uuid)
  owner ← or_throw owner_not_found found
  store_owner (deactivate reason now owner))

abbrev deactivate_found : ℕ → Option Owner → Exec Tx (Unit {0})
deactivate_found now none = pure tt
deactivate_found now (some owner) =
    store_owner (deactivate "user deleted" now owner) >>= λ o. pure tt

-- `DeactivateOwnerOnUserDeleted.handle`, in the consumer's transaction
unfoldable pub deactivate_on_user_deleted : String → ℕ → Exec Tx (Unit {0})
deactivate_on_user_deleted user_uuid now = do
  found ← reads (find_owner_by_user user_uuid)
  deactivate_found now found
