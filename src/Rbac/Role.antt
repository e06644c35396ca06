-- ===== src/Rbac/Role.antt =====
-- src/modules/rbac/domain: permission.ts, role.ts and role-assignment.ts.
pub mod History
use nest_kit.Base.{ℕ, String, Bool, Option, List, [], ◌∷◌, ◌++◌, map, if◌then◌else◌, any}
use nest_kit.Texts.{Text, same}
use nest_kit.Errors.{AppError}
use nest_kit.Effects.{Exec, returned, threw, ◌>>◌, throw_if}
use nest_kit.Events.{
  DomainEvent, permission_created, role_created, role_permission_granted, role_permission_revoked,
}
use nest_kit.Rbac.{role_is_protected}
use nest_kit.Rbac.Names.{PermissionName, value, equals}

pub record Permission : Type 0 where
  pub uuid : String
  pub name : PermissionName
  pub description : Text
  pub created_at : ℕ
  pub updated_at : ℕ
  pub events : List DomainEvent

-- `Permission.create`
unfoldable pub create_permission : String → PermissionName → Text → ℕ → Permission
create_permission uuid name description now = record {
  uuid = uuid;
  name = name;
  description = description;
  created_at = now;
  updated_at = now;
  events = permission_created uuid (value name) ∷ [];
}

-- `Permission.describe`
unfoldable pub describe_permission : Text → ℕ → Permission → Permission
describe_permission description now p =
    if same p.description description
    then p
    else record p { description = description; updated_at = now }

pub record PermissionGrant : Type 0 where
  pub permission : Permission
  pub granted_by : Option String
  pub granted_at : ℕ

pub record Role : Type 0 where
  pub uuid : String
  pub name : Text
  pub description : Text
  pub is_protected : Bool
  pub grants : List PermissionGrant
  pub created_at : ℕ
  pub updated_at : ℕ
  pub events : List DomainEvent

pub record RoleAssignment : Type 0 where
  pub user_uuid : String
  pub role : Role
  pub assigned_by : Option String
  pub assigned_at : ℕ

-- `Role.create`, and `Role.createProtected` for a role that is protected
unfoldable pub create_role : String → Bool → Text → Text → ℕ → Role
create_role uuid is_protected name description now = record {
  uuid = uuid;
  name = name;
  description = description;
  is_protected = is_protected;
  grants = [];
  created_at = now;
  updated_at = now;
  events = role_created uuid name ∷ [];
}

abbrev pub is_grant_of : PermissionName → PermissionGrant → Bool
is_grant_of name g = equals g.permission.name name

-- `holds`
unfoldable pub holds : PermissionName → Role → Bool
holds name r = any (is_grant_of name) r.grants

-- `permissionNames`
unfoldable pub permission_names : Role → List Text
permission_names r = map (λ g. value g.permission.name) r.grants

-- `grant`
unfoldable pub grant : Permission → Option String → ℕ → Role → Role
grant permission granted_by now r = if holds permission.name r then r else record r {
  grants =
      r.grants
      ++ record { permission = permission; granted_by = granted_by; granted_at = now } ∷ [];
  updated_at = now;
  events = r.events ++ role_permission_granted r.uuid (value permission.name) ∷ [];
}

-- The list without its first grant of the name, as `findIndex` and `splice` leave it
unfoldable pub splice_grant : PermissionName → List PermissionGrant → List PermissionGrant
splice_grant name [] = []
splice_grant name (g ∷ grants) =
    let rest = splice_grant name grants in if is_grant_of name g then grants else g ∷ rest

abbrev without : PermissionName → ℕ → Role → Role
without name now r =
    if holds name r
    then record r {
      grants = splice_grant name r.grants;
      updated_at = now;
      events = r.events ++ role_permission_revoked r.uuid (value name) ∷ [];
    }
    else r

-- `revoke`
unfoldable pub revoke : PermissionName → ℕ → Exec Role (Unit {0})
revoke name now r =
    if r.is_protected then threw role_is_protected r else returned tt (without name now r)

-- `describe`
unfoldable pub describe_role : Text → ℕ → Role → Role
describe_role description now r =
    if same r.description description
    then r
    else record r { description = description; updated_at = now }
