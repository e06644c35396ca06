-- ===== src/Rbac/Handlers.antt =====
-- src/modules/rbac/application/commands/rbac.handlers.ts, and the reads of
-- src/modules/rbac/application/queries/rbac.queries.ts that may throw. The uuid of a new permission
-- or role is an argument.
use nest_kit.Base.{ℕ, String, Bool, true, false, Option, none, some, [], ◌∷◌}
use nest_kit.Texts.{Text}
use nest_kit.Errors.{AppError, invalid, app_error, with_field}
use nest_kit.Effects.{
  Result, ok, err, and_then, Exec, pure, lift, throw_if, or_throw, object_of, ◌>>=◌, ◌>>◌,
}
use nest_kit.Events.{role_assigned_to_user, role_unassigned_from_user}
use nest_kit.Table.{find}
use nest_kit.Queries.{is_some}
use nest_kit.Transactions.{with_transaction, publish_all, reads, writes}
use nest_kit.Identity.User.{User, is_set}
use nest_kit.Database.{user_key, user_row, loaded}
use nest_kit.Rbac.{
  permission_not_found, role_not_found, permission_already_exists, role_already_exists,
}
use nest_kit.Rbac.Names.{PermissionName, permission_name_of, role_name_of}
use nest_kit.Rbac.Role.{Permission, Role, create_permission, create_role, grant, revoke}
use nest_kit.Rbac.Rows.{RbacDb, RbacStore, RbacTx}
use nest_kit.Rbac.Repository.{
  find_permission_by_name, save_permission, find_role_by_name, find_role_by_uuid, save_role,
  assign_role, unassign_role,
}

-- A read of the tables that may throw.
abbrev pub tries {ℓ} : {A : Type ℓ} → (RbacDb → Result A) → Exec RbacTx A
tries f s = lift (f s.db) s

-- A write of the tables that may throw.
abbrev pub tries_write : (RbacDb → Result RbacDb) → Exec RbacTx (Unit {0})
tries_write f = do db ← tries f; writes (λ _. db)

-- `findByUuid` of identity's repository
abbrev pub find_user_row : String → RbacDb → Option User
find_user_row uuid db = loaded user_row (find user_key uuid db.users)

-- The save and the publication that end a handler for a role
abbrev pub store_role : Role → Exec RbacTx Role
store_role r = do tries_write (save_role r); publish_all r.events; pure r

abbrev pub role_by_uuid : String → Exec RbacTx Role
role_by_uuid uuid = do found ← tries (find_role_by_uuid uuid); or_throw role_not_found found

abbrev pub create_permission_work : String → PermissionName → Text → ℕ → Exec RbacTx Permission
create_permission_work uuid name description now = do
  taken ← tries (find_permission_by_name name)
  throw_if (is_some taken) permission_already_exists
  let permission = create_permission uuid name description now
  writes (save_permission permission)
  publish_all permission.events
  pure permission

-- `CreatePermissionHandler.execute`
unfoldable pub create_permission_handler : String → Text → Text → ℕ → Exec RbacStore Permission
create_permission_handler uuid raw description now = do
  name ← lift (permission_name_of raw)
  with_transaction (create_permission_work uuid name description now)

abbrev pub create_role_work : String → Text → Text → ℕ → Exec RbacTx Role
create_role_work uuid name description now = do
  taken ← tries (find_role_by_name name)
  throw_if (is_some taken) role_already_exists
  store_role (create_role uuid false name description now)

-- `CreateRoleHandler.execute`
unfoldable pub create_role_handler : String → Text → Text → ℕ → Exec RbacStore Role
create_role_handler uuid raw description now = do
  name ← lift (role_name_of raw)
  with_transaction (create_role_work uuid name description now)

abbrev pub grant_permission_work : String → PermissionName → Option String → ℕ → Exec RbacTx Role
grant_permission_work role_uuid name granted_by now = do
  role ← role_by_uuid role_uuid
  found ← tries (find_permission_by_name name)
  permission ← or_throw permission_not_found found
  store_role (grant permission granted_by now role)

-- `GrantPermissionHandler.execute`
unfoldable pub grant_permission : String → Text → Option String → ℕ → Exec RbacStore Role
grant_permission role_uuid raw granted_by now = do
  name ← lift (permission_name_of raw)
  with_transaction (grant_permission_work role_uuid name granted_by now)

abbrev pub revoke_permission_work : String → PermissionName → ℕ → Exec RbacTx Role
revoke_permission_work role_uuid name now = do
  role ← role_by_uuid role_uuid
  revoked ← lift (object_of (revoke name now role))
  store_role revoked

-- `RevokePermissionHandler.execute`
unfoldable pub revoke_permission : String → Text → ℕ → Exec RbacStore Role
revoke_permission role_uuid raw now = do
  name ← lift (permission_name_of raw)
  with_transaction (revoke_permission_work role_uuid name now)

abbrev pub user_does_not_exist : AppError
user_does_not_exist = with_field (app_error invalid "USER_NOT_FOUND") "userUuid"

-- `!user || user.isDeleted`
abbrev pub refuses_roles : Option User → Bool
refuses_roles none = true
refuses_roles (some u) = is_set u.deleted_at

abbrev pub assign_role_work : String → String → Option String → ℕ → Exec RbacTx (Unit {0})
assign_role_work user_uuid role_uuid assigned_by now = do
  role ← role_by_uuid role_uuid
  user ← reads (find_user_row user_uuid)
  throw_if (refuses_roles user) user_does_not_exist
  tries_write (assign_role user_uuid role assigned_by now)
  publish_all (role_assigned_to_user user_uuid role.uuid role.name ∷ [])

-- `AssignRoleHandler.execute`
unfoldable pub assign_role_handler : String → String → Option String → ℕ → Exec RbacStore (Unit {0})
assign_role_handler user_uuid role_uuid assigned_by now =
    with_transaction (assign_role_work user_uuid role_uuid assigned_by now)

abbrev pub unassign_role_work : String → String → Exec RbacTx (Unit {0})
unassign_role_work user_uuid role_uuid = do
  role ← role_by_uuid role_uuid
  tries_write (unassign_role user_uuid role)
  publish_all (role_unassigned_from_user user_uuid role.uuid role.name ∷ [])

-- `UnassignRoleHandler.execute`
unfoldable pub unassign_role_handler : String → String → Exec RbacStore (Unit {0})
unassign_role_handler user_uuid role_uuid =
    with_transaction (unassign_role_work user_uuid role_uuid)

abbrev or_error : Option Role → Result Role
or_error none = err role_not_found
or_error (some r) = ok r

-- `GetRoleHandler.execute`
unfoldable pub get_role : String → RbacDb → Result Role
get_role uuid db = and_then (find_role_by_uuid uuid db) or_error
