-- ===== src/Rbac/Tests.antt =====
-- Runs of src/modules/rbac on small inputs: one user with one protected role that has one permission.
use nest_kit.Rbac.Untouched.{left_by, grants_for-save_role}
use nest_kit.Identity.User.{User, register}
use nest_kit.Database.{live_by_email}
use nest_kit.Rbac.Superadmin.{seed_superadmin, seed_superadmin-users}
use nest_kit.Rbac.Seeder.{seed_grants, seed_grants-holds, gives, get}
use nest_kit.Rbac.Rows.{
  RbacTx, PermissionRow, RolePermission, RoleRow, RbacDb, RbacStore, permission_to_domain,
  role_to_domain,
}
use nest_kit.Effects.{returned, ok, map_result, state_of}
use nest_kit.Rbac.Role.{
  grant, Role, Permission, PermissionGrant, RoleAssignment, create_role, holds,
}
use nest_kit.Base.{
  ℕ, String, ◌≡◌, refl, true, false, ◌||◌, none, some, List, [], ◌∷◌, arith, ◌=ₛ◌, ltb, ◌==◌,
  if◌then◌else◌, any,
}
use nest_kit.Texts.{Text, same, trim, trim_start, trim_end, split, is_space, is_lower, is_name_char}
use nest_kit.Queries.{first, select, collect}
use nest_kit.Rbac.Names.{
  PermissionName, IsValid, is_segment, is_role_name, value, permission_name_of, role_name_of,
  permission_name_of-value,
}
use nest_kit.Rbac.Role.History.{Call, grants, revokes, run, run-holds, in_set}
use nest_kit.Rbac.Repository.{
  wanted_id, save_role, reconcile_grants, load_grants, grants_at, id_by_uuid, is_link,
}
use nest_kit.Rbac.Repository.Reconcile.{
  HasDistinctIds, is_wanted, link_after, find-reconcile_grants,
}
use nest_kit.Rbac.Grants.{Grants, grants_for, find_user_uuids_for_role, find_assignments_for_user}
use nest_kit.Rbac.Agreement.{grants_for-find_assignments}
use nest_kit.Rbac.Lockout.{IsLinked}
use nest_kit.Rbac.Handlers.{revoke_permission}
use nest_kit.Rbac.Commands.{Step, Reach, here, next, Reach-linked}
use nest_kit.Rbac.Commands as Commands
use nest_kit.Rbac.Cache.{Course, cached_grants_for, invalidate}
use nest_kit.Rbac.Cache.Freshness.{
  State, IsStored, cached_grants_for-IsStored, cached_grants_for-invalidate,
}
use nest_kit.Rbac.Cache.Freshness as Freshness

-- `car:read`
abbrev car_read : PermissionName
car_read = record { resource = 99 ∷ 97 ∷ 114 ∷ []; action = 114 ∷ 101 ∷ 97 ∷ 100 ∷ [] }

car_read-IsValid : IsValid car_read
unfolding is_segment is_lower is_name_char
car_read-IsValid = (refl, refl)

permission_name_of-value_example : permission_name_of (value car_read) ≡ ok car_read
permission_name_of-value_example = permission_name_of-value car_read car_read-IsValid

-- ` car:read `
abbrev raw_name : Text
raw_name = 32 ∷ 99 ∷ 97 ∷ 114 ∷ 58 ∷ 114 ∷ 101 ∷ 97 ∷ 100 ∷ 32 ∷ []

abbrev permission : Permission
permission = record {
  uuid = "p1";
  name = car_read;
  description = [];
  created_at = 1;
  updated_at = 1;
  events = [];
}

-- `admin`
abbrev admin : Text
admin = 97 ∷ 100 ∷ 109 ∷ 105 ∷ 110 ∷ []

abbrev calls : List Call
calls = grants permission none 2 ∷ revokes car_read 3 ∷ []

run-holds_example :
    holds car_read (run (create_role "r1" true admin [] 1) calls)
    ≡ in_set true (value car_read) false calls
run-holds_example = run-holds "r1" true admin [] 1 car_read calls

abbrev permission_row : PermissionRow
permission_row = record {
  id = 7;
  uuid = "p1";
  name = 99 ∷ 97 ∷ 114 ∷ 58 ∷ 114 ∷ 101 ∷ 97 ∷ 100 ∷ [];
  resource = car_read.resource;
  action = car_read.action;
  description = [];
  created_at = 1;
  updated_at = 1;
}

abbrev link : RolePermission
link = record { role_id = 3; permission_id = 7; granted_by = some "u0"; granted_at = 2 }

abbrev db : RbacDb
db = record {
  users = [];
  permissions = permission_row ∷ [];
  roles =
      record {
        id = 3;
        uuid = "r1";
        name = admin;
        description = [];
        is_protected = true;
        created_at = 1;
        updated_at = 1;
      }
      ∷ [];
  role_permissions = link ∷ [];
  user_roles = record { user_uuid = "u1"; role_id = 3; assigned_by = none; assigned_at = 4 } ∷ [];
  next_permission_id = 8;
  next_role_id = 4;
}

abbrev given : PermissionGrant
given = record { permission = permission; granted_by = some "u0"; granted_at = 2 }

-- `car:write`, which the role gets
abbrev write_row : PermissionRow
write_row = record permission_row { id = 8; uuid = "p2" }

abbrev two_permissions : List PermissionRow
two_permissions = permission_row ∷ write_row ∷ []

abbrev two_given : List PermissionGrant
two_given = given ∷ record given { permission = record permission { uuid = "p2" } } ∷ []

given-HasDistinctIds : HasDistinctIds (collect (wanted_id two_permissions) two_given)
unfolding collect id_by_uuid first
given-HasDistinctIds = (refl, (refl, tt))

find-reconcile_grants_example :
    (after : List RolePermission) × (reconcile_grants 3 two_given two_permissions (link ∷ [])
      ≡ ok after)
    × ((other id : ℕ)
        → first (is_link other id) after ≡ (
            if other == 3
            then link_after 3 id
                (first (is_wanted two_permissions id) two_given)
                (first (is_link 3 id) (link ∷ []))
            else first (is_link other id) (link ∷ [])))
find-reconcile_grants_example =
    find-reconcile_grants two_permissions 3 two_given (link ∷ []) given-HasDistinctIds

abbrev assigned : List RoleAssignment
assigned =
    record {
      user_uuid = "u1";
      role = record {
        uuid = "r1";
        name = admin;
        description = [];
        is_protected = true;
        grants = given ∷ [];
        created_at = 1;
        updated_at = 1;
        events = [];
      };
      assigned_by = none;
      assigned_at = 4;
    }
    ∷ []

assigned_found : find_assignments_for_user "u1" db ≡ ok assigned
unfolding find_assignments_for_user load_grants grants_at select collect first map_result
    permission_to_domain role_to_domain permission_name_of role_name_of is_role_name trim trim_start
    trim_end split is_space is_segment is_lower is_name_char
assigned_found = refl

name_trimmed : trim permission_row.name ≡ permission_row.name
unfolding trim trim_start trim_end is_space
name_trimmed = refl

grants_for-find_assignments_example :
    any (same (value car_read)) (grants_for "u1" db).permissions
    ≡ any (λ a. holds car_read a.role) assigned
grants_for-find_assignments_example =
    grants_for-find_assignments "u1" db assigned car_read (name_trimmed, tt) assigned_found

abbrev world : RbacStore
world = record { db = db; outbox = []; dispatched = [] }

linked : IsLinked 3 7 link world.db
unfolding first id_by_uuid
linked = record {
  linked = refl;
  guarded = (λ e. refl, tt);
  older = omega arith;
  known = (permission_row, refl, refl);
}

Reach-linked_example :
    first (is_link 3 7) (state_of (revoke_permission "r1" raw_name 5 world)).db.role_permissions
    ≡ some link
Reach-linked_example =
    Reach-linked 3 7 link world (state_of (revoke_permission "r1" raw_name 5 world))
      (next here (Commands.revokes "r1" raw_name 5)) linked

-- The repository answers with no role before the time 10, and with the role after it.
abbrev answers : ℕ → String → Grants
answers now user_uuid = record { roles = if ltb now 10 then [] else admin ∷ []; permissions = [] }

abbrev course : ℕ → Course
course now = record { get_reached = true; set_reached = true; now = now; later = now }

-- One call of `grantsFor` at the time 5
abbrev filled : State
filled = record {
  entries = (cached_grants_for 30 (course 5) "u1" (answers 5 "u1") []).1;
  clock = 5;
}

filled_reached : Freshness.Reach answers 30 0 filled
filled_reached =
    Freshness.later (Freshness.start 0)
      (Freshness.reads (course 5) "u1" (omega arith) (omega arith) (omega arith))

cached_grants_for-IsStored_example :
    IsStored answers 30 0 "u1" 20 20
      (cached_grants_for 30 (course 20) "u1" (answers 20 "u1") filled.entries).0
cached_grants_for-IsStored_example =
    cached_grants_for-IsStored answers 30 0 filled (course 20) "u1" filled_reached (omega arith)

cached_grants_for-invalidate_example :
    (cached_grants_for 30
      (course 20)
      "u1"
      (answers 20 "u1")
      (invalidate true ("u0" ∷ "u1" ∷ []) filled.entries)).0
    ≡ answers 20 "u1"
cached_grants_for-invalidate_example =
    cached_grants_for-invalidate 30 (course 20) "u1" ("u0" ∷ "u1" ∷ []) (answers 20 "u1")
      filled.entries refl

-- Seeding the role `admin` with the permission of the catalogue
abbrev seeded_role : Role
seeded_role = grant permission none 9 (create_role "r2" true admin [] 9)

abbrev tx : RbacTx
tx = record { db = db; events = [] }

seeded_grants :
    seed_grants
      ((value car_read, permission) ∷ [])
      9
      admin
      (value car_read ∷ [])
      (create_role "r2" true admin [] 9)
      []
      tx
    ≡ returned (seeded_role, (admin, value car_read) ∷ []) tx
unfolding seed_grants first same value create_role holds grant
seeded_grants = refl

seed_grants-holds_example : holds car_read seeded_role ≡ (
    holds car_read (create_role "r2" true admin [] 9)
    || any (λ w. gives car_read (get w ((value car_read, permission) ∷ []))) (value car_read ∷ []))
seed_grants-holds_example =
    seed_grants-holds ((value car_read, permission) ∷ []) 9 admin (value car_read ∷ [])
      (create_role "r2" true admin [] 9) seeded_role [] ((admin, value car_read) ∷ []) tx tx
      car_read seeded_grants

abbrev admin_row : RoleRow
admin_row = record {
  id = 3;
  uuid = "r1";
  name = admin;
  description = [];
  is_protected = true;
  created_at = 1;
  updated_at = 1;
}

-- `u2` has another role, which has the same permission.
abbrev two_roles : RbacDb
two_roles = record db {
  roles = admin_row ∷ record admin_row { id = 5; uuid = "r2"; is_protected = false } ∷ [];
  role_permissions = link ∷ record link { role_id = 5 } ∷ [];
  user_roles =
      record { user_uuid = "u1"; role_id = 3; assigned_by = none; assigned_at = 4 }
      ∷ record { user_uuid = "u2"; role_id = 5; assigned_by = none; assigned_at = 4 }
      ∷ [];
}

abbrev emptied : Role
emptied = create_role "r1" true admin [] 1

is_not_holder : any (λ u. u =ₛ "u2") (find_user_uuids_for_role emptied.uuid two_roles) ≡ false
unfolding find_user_uuids_for_role select create_role first
is_not_holder = refl

admin_found : first (λ r. r.uuid =ₛ emptied.uuid) two_roles.roles ≡ some admin_row
unfolding create_role first
admin_found = refl

grants_for-save_role_example :
    grants_for "u2" (left_by two_roles (save_role emptied two_roles)) ≡ grants_for "u2" two_roles
grants_for-save_role_example =
    grants_for-save_role "u2" emptied admin_row two_roles admin_found is_not_holder

abbrev root : User
root = register "u1" "root@example.com" "hash" 1

-- The role of the administrator and an account that has it already
abbrev provisioned : RbacStore
provisioned = record { db = record db { users = root ∷ [] }; outbox = []; dispatched = [] }

root_found : live_by_email "root@example.com" provisioned.db.users ≡ some root
unfolding live_by_email register
root_found = refl

seed_superadmin-users_example :
    (state_of (seed_superadmin "u9" "root@example.com" "other" 9 provisioned)).db.users
    ≡ provisioned.db.users
seed_superadmin-users_example =
    seed_superadmin-users "u9" "root@example.com" "other" 9 root provisioned root_found
