-- ===== src/Rbac/Rows.antt =====
-- The tables of src/modules/rbac/infrastructure/persistence (the *.orm-entity.ts files) and
-- rbac.mapper.ts. A bigint id is a number, which a sequence hands out.
use nest_kit.Base.{ℕ, String, Bool, Option, List, []}
use nest_kit.Texts.{Text}
use nest_kit.Effects.{Result, ok, and_then}
use nest_kit.Events.{DomainEvent}
use nest_kit.Transactions.{World, Scope}
use nest_kit.Identity.User.{User}
use nest_kit.Rbac.Names.{value, permission_name_of, role_name_of}
use nest_kit.Rbac.Role.{Permission, PermissionGrant, Role}

pub record PermissionRow : Type 0 where
  pub id : ℕ
  pub uuid : String
  pub name : Text
  pub resource : Text
  pub action : Text
  pub description : Text
  pub created_at : ℕ
  pub updated_at : ℕ

pub record RoleRow : Type 0 where
  pub id : ℕ
  pub uuid : String
  pub name : Text
  pub description : Text
  pub is_protected : Bool
  pub created_at : ℕ
  pub updated_at : ℕ

pub record RolePermission : Type 0 where
  pub role_id : ℕ
  pub permission_id : ℕ
  pub granted_by : Option String
  pub granted_at : ℕ

pub record UserRole : Type 0 where
  pub user_uuid : String
  pub role_id : ℕ
  pub assigned_by : Option String
  pub assigned_at : ℕ

-- The tables that the context reads and writes, with the next ids; the users are identity's.
pub record RbacDb : Type 0 where
  pub users : List User
  pub permissions : List PermissionRow
  pub roles : List RoleRow
  pub role_permissions : List RolePermission
  pub user_roles : List UserRole
  pub next_permission_id : ℕ
  pub next_role_id : ℕ

abbrev pub RbacStore : Type 0
RbacStore = World RbacDb DomainEvent

abbrev pub RbacTx : Type 0
RbacTx = Scope RbacDb DomainEvent

-- `PermissionMapper.toDomain`
unfoldable pub permission_to_domain : PermissionRow → Result Permission
permission_to_domain row = and_then (permission_name_of row.name) (λ name. ok (record {
  uuid = row.uuid;
  name = name;
  description = row.description;
  created_at = row.created_at;
  updated_at = row.updated_at;
  events = [];
}))

-- `PermissionMapper.toOrm`
unfoldable pub permission_to_orm : ℕ → Permission → PermissionRow
permission_to_orm id p = record {
  id = id;
  uuid = p.uuid;
  name = value p.name;
  resource = p.name.resource;
  action = p.name.action;
  description = p.description;
  created_at = p.created_at;
  updated_at = p.updated_at;
}

-- `RoleMapper.toDomain`
unfoldable pub role_to_domain : RoleRow → List PermissionGrant → Result Role
role_to_domain row grants = and_then (role_name_of row.name) (λ name. ok (record {
  uuid = row.uuid;
  name = name;
  description = row.description;
  is_protected = row.is_protected;
  grants = grants;
  created_at = row.created_at;
  updated_at = row.updated_at;
  events = [];
}))

-- `RoleMapper.toOrm`
unfoldable pub role_to_orm : ℕ → Role → RoleRow
role_to_orm id r = record {
  id = id;
  uuid = r.uuid;
  name = r.name;
  description = r.description;
  is_protected = r.is_protected;
  created_at = r.created_at;
  updated_at = r.updated_at;
}
