-- ===== src/Rbac/Untouched.antt =====
-- Whose grants a change of a role of src/modules/rbac can change: those of its holders, who are the
-- users that invalidate-grants.handler.ts names.
use nest_kit.Base.{
  ℕ, String, ◌≡◌, refl, sym, ap, ◌∙◌, subst, inl, inr, true, false, some, List, [], ◌∷◌, map,
  append-nil, arith, ◌=ₛ◌, ◌==◌, ==_iff, Bool-cases, Option-cases, any, All,
}
use nest_kit.Queries.{
  first, select, collect, first_sound, first-map_same, select-append, select-select,
}
use nest_kit.Effects.{Result, ok, err}
use nest_kit.Rbac.Repository.Reconcile.{reconciled, saved_role, save_role-ok}
use nest_kit.Rbac.Role.{PermissionGrant, Role}
use nest_kit.Rbac.Rows.{PermissionRow, RoleRow, RolePermission, UserRole, RbacDb, role_to_orm}
use nest_kit.Rbac.Repository.{
  has_role_id, has_role_uuid, replace_role, wanted_id, added_link, is_kept, save_role,
}
use nest_kit.Rbac.Grants.{
  joined_role, joined, grants_for, is_of_user, holders, find_user_uuids_for_role,
}

select-added :
    (saved other : ℕ) (permissions : List PermissionRow) (existing : List ℕ)
    (wanted : List PermissionGrant)
    → (saved == other) ≡ false
    → select (λ l. l.role_id == other) (collect (added_link saved permissions existing) wanted) ≡ []
unfolding select collect
select-added saved other permissions existing [] ne = refl
select-added saved other permissions existing (g ∷ wanted) ne =
    elim (Option-cases (wanted_id permissions g)) [
      | inl e ↦ rw (e, select-added saved other permissions existing wanted ne) refl
      | inr (n, e) ↦ rw e (ground (arith, select-added saved other permissions existing wanted ne))
    ]

-- The rows of another role stay as they are.
select-reconciled :
    (saved other : ℕ) (gs : List PermissionGrant) (permissions : List PermissionRow)
    (links : List RolePermission)
    → (saved == other) ≡ false
    → select (λ l. l.role_id == other) (reconciled permissions saved gs links)
      ≡ select (λ l. l.role_id == other) links
unfolding reconciled
select-reconciled saved other gs permissions links ne =
    let ids = collect (wanted_id permissions) gs in
    let old =
      map (λ (l : RolePermission). l.permission_id) (select (λ l. l.role_id == saved) links) in
    let q = λ (l : RolePermission). l.role_id == other in
    rw
      (
        select-append q (select (is_kept saved ids) links)
            (collect (added_link saved permissions old) gs),
        select-select q (is_kept saved ids) links (λ l h. apart l h),
        select-added saved other permissions old gs ne,
      )
      (append-nil (select q links))
  where
    apart :
        (l : RolePermission)
        → (l.role_id == other) ≡ true
        → is_kept saved (collect (wanted_id permissions) gs) l ≡ true
    apart l h = ground arith

-- The links of a user that are not to a role
abbrev IsElsewhere : ℕ → UserRole → Type 0
IsElsewhere id l = (id == l.role_id) ≡ false

module _ (row new : RoleRow) (links : List RolePermission) (db : RbacDb) (same_id : new.id ≡ row.id)
    (kept : (other : ℕ)
      → (row.id == other) ≡ false
      → select (λ l. l.role_id == other) links
        ≡ select (λ l. l.role_id == other) db.role_permissions) where
  abbrev changed : RbacDb
  changed = record db { roles = map (replace_role new) db.roles; role_permissions = links }

  joined_role-changed :
      (id : ℕ)
      → (row.id == id) ≡ false
      → joined_role changed (first (has_role_id id) db.roles)
        ≡ joined_role db (first (has_role_id id) db.roles)
  joined_role-changed id ne = elim (Option-cases (first (has_role_id id) db.roles)) [
    | inl gone ↦ rw gone refl
    | inr (r, here) ↦
        let its = (==_iff r.id id).0 (first_sound (has_role_id id) db.roles r here) in
        rw (here, kept r.id (subst (λ x. (row.id == x) ≡ false) (sym its) ne)) refl
  ]

  joined-changed :
      (users : List UserRole)
      → All (IsElsewhere row.id) users
      → joined changed users ≡ joined db users
  unfolding joined
  joined-changed [] h = refl
  joined-changed (l ∷ users) (ne, h) =
      rw
        (
          first-map_same (has_role_id l.role_id) (replace_role new) db.roles (λ a. same_test a)
              (λ a its. other a its),
          joined_role-changed l.role_id ne,
          joined-changed users h,
        )
        refl
    where
      same_test :
          (a : RoleRow) → has_role_id l.role_id (replace_role new a) ≡ has_role_id l.role_id a
      same_test a = ground arith

      other : (a : RoleRow) → has_role_id l.role_id a ≡ true → replace_role new a ≡ a
      other a its = ground arith

-- The links of a user that is not among the holders of a role are to other roles.
elsewhere :
    (user : String) (row : RoleRow) (users : List UserRole)
    → any (λ u. u =ₛ user) (holders users (some row)) ≡ false
    → All (IsElsewhere row.id) (select (is_of_user user) users)
unfolding select
elsewhere user row [] h = tt
elsewhere user row (l ∷ users) h = elim (Bool-cases (l.role_id == row.id)) [
  | inl its ↦ elim (Bool-cases (l.user_uuid =ₛ user)) [
    | inl mine ↦ cc (rw (its, mine) at h)
    | inr not_mine ↦ rw not_mine (elsewhere user row users (rw (its, not_mine) at h))
  ]
  | inr other ↦ elim (Bool-cases (l.user_uuid =ₛ user)) [
    | inl mine ↦ rw mine (ground (arith, other), elsewhere user row users (rw other at h))
    | inr not_mine ↦ rw not_mine (elsewhere user row users (rw other at h))
  ]
]

saved_role-grants_for :
    (user : String) (r : Role) (row : RoleRow) (db : RbacDb)
    → first (has_role_uuid r.uuid) db.roles ≡ some row
    → any (λ u. u =ₛ user) (find_user_uuids_for_role r.uuid db) ≡ false
    → grants_for user (saved_role r db) ≡ grants_for user db
unfolding grants_for saved_role find_user_uuids_for_role role_to_orm
saved_role-grants_for user r row db here h =
    rw
      (
        here,
        joined-changed row (role_to_orm row.id r)
            (reconciled db.permissions row.id r.grants db.role_permissions) db refl
            (λ other ne.
              select-reconciled row.id other r.grants db.permissions db.role_permissions ne)
            (select (is_of_user user) db.user_roles)
            (elsewhere user row db.user_roles (rw here at h)),
      )
      refl

-- What a save leaves in the tables: one that throws leaves them, since its transaction rolls back.
abbrev pub left_by : RbacDb → Result RbacDb → RbacDb
left_by db (ok after) = after
left_by db (err e) = db

-- Saving a role that is in its table, with whatever name, flag and grants, leaves what every user
-- may do as it was, unless the user is among those that `findUserUuidsForRole` names for the role.
pub grants_for-save_role :
    (user : String) (r : Role) (row : RoleRow) (db : RbacDb)
    → first (has_role_uuid r.uuid) db.roles ≡ some row
    → any (λ u. u =ₛ user) (find_user_uuids_for_role r.uuid db) ≡ false
    → grants_for user (left_by db (save_role r db)) ≡ grants_for user db
grants_for-save_role user r row db here h =
    ends (save_role r db) (λ after e. save_role-ok r db after e)
  where
    ends :
        (o : Result RbacDb)
        → ((after : RbacDb) → o ≡ ok after → after ≡ saved_role r db)
        → grants_for user (left_by db o) ≡ grants_for user db
    ends (ok after) same =
        ap (grants_for user) (same after refl) ∙ saved_role-grants_for user r row db here h
    ends (err e) same = refl
