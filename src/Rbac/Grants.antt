-- ===== src/Rbac/Grants.antt =====
-- The two ways in which typeorm-rbac.repository.ts answers what a user may do: `grantsFor`, by one
-- join, and `findAssignmentsForUser`, by the aggregates.
use nest_kit.Base.{
  ℕ, String, Bool, Option, none, some, List, [], ◌∷◌, ◌++◌, map, ◌=ₛ◌, ◌==◌, if◌then◌else◌, any,
}
use nest_kit.Texts.{Text, same}
use nest_kit.Queries.{member, first, select, collect, found}
use nest_kit.Effects.{Result, ok, and_then, map_result}
use nest_kit.Rbac.Role.{PermissionGrant, RoleAssignment}
use nest_kit.Rbac.Rows.{PermissionRow, RoleRow, RolePermission, UserRole, RbacDb, role_to_domain}
use nest_kit.Rbac.Repository.{has_permission_id, has_role_id, has_role_uuid, load_grants, grants_at}

pub record Grants : Type 0 where
  pub roles : List Text
  pub permissions : List Text

-- A row of the join: a name of a role, and that of a permission unless it is null.
abbrev pub GrantRow : Type 0
GrantRow = Text × Option Text

abbrev pub permission_name : List PermissionRow → RolePermission → Option Text
permission_name permissions l =
    found (λ p. p.name) (first (has_permission_id l.permission_id) permissions)

-- The two outer joins, for one role
abbrev pub role_rows : Text → List (Option Text) → List GrantRow
role_rows role_name [] = (role_name, none) ∷ []
role_rows role_name (p ∷ ps) = map (λ q. (role_name, q)) (p ∷ ps)

abbrev pub joined_permissions : RbacDb → ℕ → List (Option Text)
joined_permissions db role_id =
    map (permission_name db.permissions) (select (λ l. l.role_id == role_id) db.role_permissions)

abbrev pub joined_role : RbacDb → Option RoleRow → List GrantRow
joined_role db none = []
joined_role db (some r) = role_rows r.name (joined_permissions db r.id)

unfoldable pub joined : RbacDb → List UserRole → List GrantRow
joined db [] = []
joined db (l ∷ links) = joined_role db (first (has_role_id l.role_id) db.roles) ++ joined db links

abbrev pub is_of_user : String → UserRole → Bool
is_of_user user_uuid l = l.user_uuid =ₛ user_uuid

-- `Set.add`
abbrev pub add : Text → List Text → List Text
add t set = if any (same t) set then set else set ++ t ∷ []

abbrev pub add_some : Option Text → List Text → List Text
add_some none set = set
add_some (some t) set = add t set

-- The loop over the rows
unfoldable pub gather : List GrantRow → List Text → List Text → Grants
gather [] roles permissions = record { roles = roles; permissions = permissions }
gather ((r, p) ∷ rows) roles permissions = gather rows (add r roles) (add_some p permissions)

-- `grantsFor`
unfoldable pub grants_for : String → RbacDb → Grants
grants_for user_uuid db = gather (joined db (select (is_of_user user_uuid) db.user_roles)) [] []

-- The role of a link, beside the link, when the role is there
abbrev pub with_role : List RoleRow → UserRole → Option (UserRole × RoleRow)
with_role roles l = found (λ r. (l, r)) (first (has_role_id l.role_id) roles)

abbrev pub assignment : List (ℕ × PermissionGrant) → UserRole × RoleRow → Result RoleAssignment
assignment loaded (l, row) = and_then (role_to_domain row (grants_at row.id loaded)) (λ r.
    ok (record {
      user_uuid = l.user_uuid;
      role = r;
      assigned_by = l.assigned_by;
      assigned_at = l.assigned_at;
    }))

-- `findAssignmentsForUser`
unfoldable pub find_assignments_for_user : String → RbacDb → Result (List RoleAssignment)
find_assignments_for_user user_uuid db =
    let links = select (is_of_user user_uuid) db.user_roles in
    let rows = select (λ r. member r.id (map (λ l. l.role_id) links)) db.roles in
    and_then (load_grants (map (λ r. r.id) rows) db)
      (λ loaded. map_result (assignment loaded) (collect (with_role rows) links))

-- `findUserUuidsForRole`
abbrev pub holders : List UserRole → Option RoleRow → List String
holders links none = []
holders links (some row) = map (λ l. l.user_uuid) (select (λ l. l.role_id == row.id) links)

unfoldable pub find_user_uuids_for_role : String → RbacDb → List String
find_user_uuids_for_role role_uuid db =
    holders db.user_roles (first (has_role_uuid role_uuid) db.roles)
