-- ===== src/Rbac.antt =====
-- src/modules/rbac: roles, permissions and who holds them. This file has the errors of the context,
-- src/modules/rbac/domain/errors.ts.
pub mod Names
pub mod Role
pub mod Rows
pub mod Repository
pub mod Grants
pub mod Agreement
pub mod Handlers
pub mod Lockout
pub mod Protection
pub mod Untouched
pub mod Works
pub mod Creations
pub mod Commands
pub mod Seeder
pub mod Superadmin
pub mod Cache
mod Tests
use nest_kit.Errors.{AppError, not_found, conflict, invalid, app_error, with_field}

abbrev pub permission_not_found : AppError
permission_not_found = app_error not_found "PERMISSION_NOT_FOUND"

abbrev pub role_not_found : AppError
role_not_found = app_error not_found "ROLE_NOT_FOUND"

abbrev pub permission_already_exists : AppError
permission_already_exists = with_field (app_error conflict "PERMISSION_ALREADY_EXISTS") "name"

abbrev pub role_already_exists : AppError
role_already_exists = with_field (app_error conflict "ROLE_ALREADY_EXISTS") "name"

abbrev pub invalid_permission_name : AppError
invalid_permission_name = with_field (app_error invalid "INVALID_PERMISSION_NAME") "name"

abbrev pub invalid_role_name : AppError
invalid_role_name = with_field (app_error invalid "INVALID_ROLE_NAME") "name"

abbrev pub role_is_protected : AppError
role_is_protected = app_error conflict "ROLE_IS_PROTECTED"
