-- ===== src/Rbac/Repository.antt =====
-- src/modules/rbac/infrastructure/persistence/typeorm-rbac.repository.ts. An id and a uuid are
-- unique columns, so a lookup by one of them has at most one row.
pub mod Reconcile
use nest_kit.Base.{
  ℕ, zero, suc, ◌+◌, ◌-◌, ◌*◌, ◌/◌, ◌%◌, ◌^◌, ◌≤◌, ◌<◌, min, max, String, ◌≡◌, refl, sym, ap, ◌∙◌,
  subst, ◌≡⟨◌⟩◌, ◌∎, ◌≢◌, ◌↔◌, ◌⊎◌, inl, inr, Bool, true, false, not, ◌&&◌, ◌||◌, Option, none,
  some, List, [], ◌∷◌, ◌++◌, map, append_assoc, append-nil, arith, eq_iff, eq_refl, dec_lt,
  ℕ_discrete, ◌=ₛ◌, ltb, leb, ◌==◌, if◌then◌else◌, ltb→lt, lt→ltb, leb→le, le→leb, ==_iff, tests,
  Bool-cases, Option-cases, length, take, all, any, length-append, length-take-le, length-map, All,
  All-append, ne_of_test, some_inj, and_left, and_right, or_true, or_false,
}
use nest_kit.Texts.{Text, same, is_empty}
use nest_kit.Queries.{member, first, select, collect, found, is_some}
use nest_kit.Errors.{AppError, internal, app_error}
use nest_kit.Effects.{Result, ok, err, Exec, and_then, map_result, returned, threw}
use nest_kit.Rbac.{role_not_found}
use nest_kit.Rbac.Names.{PermissionName, value}
use nest_kit.Rbac.Role.{Permission, PermissionGrant, Role, RoleAssignment}
use nest_kit.Rbac.Rows.{
  PermissionRow, RoleRow, RolePermission, UserRole, RbacDb, permission_to_domain, permission_to_orm,
  role_to_domain, role_to_orm,
}

abbrev pub has_permission_id : ℕ → PermissionRow → Bool
has_permission_id id p = p.id == id

abbrev pub has_permission_uuid : String → PermissionRow → Bool
has_permission_uuid uuid p = p.uuid =ₛ uuid

abbrev pub has_role_id : ℕ → RoleRow → Bool
has_role_id id r = r.id == id

abbrev pub has_role_uuid : String → RoleRow → Bool
has_role_uuid uuid r = r.uuid =ₛ uuid

abbrev optional : Option PermissionRow → Result (Option Permission)
optional none = ok none
optional (some row) = and_then (permission_to_domain row) (λ p. ok (some p))

-- `findPermissionByName`
unfoldable pub find_permission_by_name : PermissionName → RbacDb → Result (Option Permission)
find_permission_by_name name db = optional (first (λ p. same p.name (value name)) db.permissions)

-- `findPermissionByUuid`
unfoldable pub find_permission_by_uuid : String → RbacDb → Result (Option Permission)
find_permission_by_uuid uuid db = optional (first (has_permission_uuid uuid) db.permissions)

-- `save` of an entity: with the id of a row it replaces that row, and a new one comes last.
abbrev pub replace_permission : PermissionRow → PermissionRow → PermissionRow
replace_permission new old = if old.id == new.id then new else old

abbrev pub replace_role : RoleRow → RoleRow → RoleRow
replace_role new old = if old.id == new.id then new else old

abbrev written_permission : Permission → Option PermissionRow → RbacDb → RbacDb
written_permission p none db = record db {
  permissions = db.permissions ++ permission_to_orm db.next_permission_id p ∷ [];
  next_permission_id = suc db.next_permission_id;
}
written_permission p (some row) db = record db {
  permissions = map (replace_permission (permission_to_orm row.id p)) db.permissions;
}

-- `savePermission`
unfoldable pub save_permission : Permission → RbacDb → RbacDb
save_permission p db = written_permission p (first (has_permission_uuid p.uuid) db.permissions) db

-- The grant that a junction row stands for, when its permission is there.
abbrev pub grant_of : RolePermission → Permission → ℕ × PermissionGrant
grant_of l p =
    (l.role_id, record { permission = p; granted_by = l.granted_by; granted_at = l.granted_at })

abbrev pub with_permission :
    List PermissionRow → RolePermission → Option (RolePermission × PermissionRow)
with_permission permissions l =
    found (λ p. (l, p)) (first (has_permission_id l.permission_id) permissions)

abbrev pub loaded_grant : RolePermission × PermissionRow → Result (ℕ × PermissionGrant)
loaded_grant (l, row) = and_then (permission_to_domain row) (λ p. ok (grant_of l p))

-- `loadGrants`: each grant beside the id of its role
unfoldable pub load_grants : List ℕ → RbacDb → Result (List (ℕ × PermissionGrant))
load_grants role_ids db = map_result loaded_grant (
    collect (with_permission db.permissions)
      (select (λ l. member l.role_id role_ids) db.role_permissions))

abbrev pub grant_at : ℕ → ℕ × PermissionGrant → Option PermissionGrant
grant_at id (n, g) = if n == id then some g else none

-- `grants.get(id) ?? []`
unfoldable pub grants_at : ℕ → List (ℕ × PermissionGrant) → List PermissionGrant
grants_at id loaded = collect (grant_at id) loaded

abbrev pub hydrate_row : RbacDb → RoleRow → Result Role
hydrate_row db row =
    and_then (load_grants (row.id ∷ []) db) (λ loaded. role_to_domain row (grants_at row.id loaded))

-- `hydrate`
unfoldable pub hydrate : RbacDb → Option RoleRow → Result (Option Role)
hydrate db none = ok none
hydrate db (some row) = and_then (hydrate_row db row) (λ r. ok (some r))

-- `findRoleByName`
unfoldable pub find_role_by_name : Text → RbacDb → Result (Option Role)
find_role_by_name name db = hydrate db (first (λ r. same r.name name) db.roles)

-- `findRoleByUuid`
unfoldable pub find_role_by_uuid : String → RbacDb → Result (Option Role)
find_role_by_uuid uuid db = hydrate db (first (has_role_uuid uuid) db.roles)

-- `idByUuid.get(uuid)`
unfoldable pub id_by_uuid : List PermissionRow → String → Option ℕ
id_by_uuid permissions uuid = found (λ p. p.id) (first (has_permission_uuid uuid) permissions)

abbrev pub wanted_id : List PermissionRow → PermissionGrant → Option ℕ
wanted_id permissions g = id_by_uuid permissions g.permission.uuid

abbrev pub link_of : ℕ → PermissionGrant → ℕ → RolePermission
link_of role_id g id = record {
  role_id = role_id;
  permission_id = id;
  granted_by = g.granted_by;
  granted_at = g.granted_at;
}

abbrev pub missing_link : ℕ → List ℕ → PermissionGrant → Option ℕ → Option RolePermission
missing_link role_id existing_ids g none = none
missing_link role_id existing_ids g (some id) =
    if member id existing_ids then none else some (link_of role_id g id)

-- The row to insert for a grant: none for an unknown permission or one that has a row already.
abbrev pub added_link : ℕ → List PermissionRow → List ℕ → PermissionGrant → Option RolePermission
added_link role_id permissions existing_ids g =
    missing_link role_id existing_ids g (wanted_id permissions g)

abbrev pub is_link_of_role : ℕ → RolePermission → Bool
is_link_of_role role_id l = l.role_id == role_id

abbrev pub is_kept : ℕ → List ℕ → RolePermission → Bool
is_kept role_id wanted_ids l = not (l.role_id == role_id && not (member l.permission_id wanted_ids))

-- The test of the primary key of the junction
abbrev pub is_link : ℕ → ℕ → RolePermission → Bool
is_link role_id permission_id l = l.role_id == role_id && l.permission_id == permission_id

-- Whether a row to insert has the key of another row
unfoldable pub clashes : List RolePermission → List RolePermission → Bool
clashes [] table = false
clashes (l ∷ rows) table =
    let rest = clashes rows table in
    any (is_link l.role_id l.permission_id) table
    || (any (is_link l.role_id l.permission_id) rows || rest)

-- The error of the database on a second row of a key, which the filter answers as an internal one
abbrev pub duplicate_key : AppError
duplicate_key = app_error internal "INTERNAL_ERROR"

-- An insert into the junction, of all the rows or none
unfoldable pub insert_links :
    List RolePermission → List RolePermission → Result (List RolePermission)
insert_links rows table = if clashes rows table then err duplicate_key else ok (table ++ rows)

-- `reconcileGrants`, on the junction table
unfoldable pub reconcile_grants :
    ℕ
    → List PermissionGrant
    → List PermissionRow
    → List RolePermission
    → Result (List RolePermission)
reconcile_grants role_id wanted permissions links =
    let wanted_ids = collect (wanted_id permissions) wanted in
    let existing_ids = map (λ l. l.permission_id) (select (is_link_of_role role_id) links) in
    insert_links (collect (added_link role_id permissions existing_ids) wanted)
      (select (is_kept role_id wanted_ids) links)

abbrev pub inserted_role : Role → RbacDb → List RolePermission → RbacDb
inserted_role r db links = record db {
  roles = db.roles ++ role_to_orm db.next_role_id r ∷ [];
  next_role_id = suc db.next_role_id;
  role_permissions = links;
}

abbrev pub updated_role : Role → ℕ → RbacDb → List RolePermission → RbacDb
updated_role r id db links = record db {
  roles = map (replace_role (role_to_orm id r)) db.roles;
  role_permissions = links;
}

abbrev written_role : Role → Option RoleRow → RbacDb → Result RbacDb
written_role r none db =
    and_then (reconcile_grants db.next_role_id r.grants db.permissions db.role_permissions)
      (λ links. ok (inserted_role r db links))
written_role r (some row) db =
    and_then (reconcile_grants row.id r.grants db.permissions db.role_permissions)
      (λ links. ok (updated_role r row.id db links))

-- `saveRole`
unfoldable pub save_role : Role → RbacDb → Result RbacDb
save_role r db = written_role r (first (has_role_uuid r.uuid) db.roles) db

abbrev id_or_throw : Option RoleRow → Result ℕ
id_or_throw none = err role_not_found
id_or_throw (some row) = ok row.id

-- `internalRoleId`
unfoldable pub internal_role_id : String → RbacDb → Result ℕ
internal_role_id uuid db = id_or_throw (first (has_role_uuid uuid) db.roles)

abbrev pub is_user_role : String → ℕ → UserRole → Bool
is_user_role user_uuid role_id l = l.user_uuid =ₛ user_uuid && l.role_id == role_id

-- An insert that does nothing on a conflict of the primary key
abbrev pub insert_or_ignore : UserRole → List UserRole → List UserRole
insert_or_ignore l links =
    if any (is_user_role l.user_uuid l.role_id) links then links else links ++ l ∷ []

-- `assignRole`
unfoldable pub assign_role : String → Role → Option String → ℕ → RbacDb → Result RbacDb
assign_role user_uuid r assigned_by now db = and_then (internal_role_id r.uuid db) (λ role_id.
    ok (record db {
      user_roles =
          insert_or_ignore
            (record {
              user_uuid = user_uuid;
              role_id = role_id;
              assigned_by = assigned_by;
              assigned_at = now;
            })
            db.user_roles;
    }))

-- `unassignRole`
unfoldable pub unassign_role : String → Role → RbacDb → Result RbacDb
unassign_role user_uuid r db = and_then (internal_role_id r.uuid db) (λ role_id.
    ok (record db {
      user_roles = select (λ l. not (is_user_role user_uuid role_id l)) db.user_roles;
    }))
