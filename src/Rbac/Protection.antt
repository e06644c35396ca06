-- ===== src/Rbac/Protection.antt =====
-- What `findRoleByUuid` of typeorm-rbac.repository.ts builds, and that it has the grants of the junction.
use nest_kit.Effects.{ok_inj, ok, map_result, and_then_ok, map_result_ok}
use nest_kit.Base.{
  ℕ, ◌≡◌, refl, sym, ap, ◌∙◌, subst, ◌≢◌, inl, inr, true, Option, none, some, List, [], ◌∷◌, arith,
  ◌==◌, ==_iff, Bool-cases, Option-cases, any, some_inj, or_true,
}
use nest_kit.Queries.{first, select, collect, member}
use nest_kit.Rbac.Names.{permission_name_of, role_name_of}
use nest_kit.Rbac.Role.{Permission, PermissionGrant, Role}
use nest_kit.Rbac.Rows.{
  PermissionRow, RoleRow, RolePermission, RbacDb, permission_to_domain, role_to_domain,
}
use nest_kit.Rbac.Repository.{
  has_permission_id, id_by_uuid, hydrate, hydrate_row, load_grants, grants_at, grant_of,
  loaded_grant, with_permission, is_link,
}
use nest_kit.Rbac.Lockout.{IsLinked, mentions}

-- What a role was built of
unfoldable pub IsBuiltOf : RbacDb → RoleRow → Role → Type 0
IsBuiltOf db row r =
    (loaded : List (ℕ × PermissionGrant)) × (load_grants (row.id ∷ []) db ≡ ok loaded)
    × (r.uuid ≡ row.uuid)
    × (r.is_protected ≡ row.is_protected)
    × (r.grants ≡ grants_at row.id loaded)

hydrate_row-IsBuiltOf :
    (db : RbacDb) (row : RoleRow) (r : Role) → hydrate_row db row ≡ ok r → IsBuiltOf db row r
unfolding IsBuiltOf role_to_domain
hydrate_row-IsBuiltOf db row r e =
    let (loaded, read, built) = and_then_ok (load_grants (row.id ∷ []) db) _ r e in
    let (name, named, whole) = and_then_ok (role_name_of row.name) _ r built in
    let shape = ok_inj whole in
    (
      loaded,
      read,
      sym (ap (λ x. x.uuid) shape),
      sym (ap (λ x. x.is_protected) shape),
      sym (ap (λ x. x.grants) shape),
    )

pub hydrate-some :
    (db : RbacDb) (o : Option RoleRow) (r : Role)
    → hydrate db o ≡ ok (some r)
    → (row : RoleRow) × (o ≡ some row) × IsBuiltOf db row r
unfolding hydrate
hydrate-some db none r e = absurd (none_ne (ok_inj e))
  where
    none_ne : none ≢ some r
    none_ne q = cc
hydrate-some db (some row) r e =
    let (s, built, whole) = and_then_ok (hydrate_row db row) _ (some r) e in
    (
      row,
      refl,
      subst (IsBuiltOf db row) (some_inj (ok_inj whole)) (hydrate_row-IsBuiltOf db row s built),
    )

uuid-permission_to_domain :
    (row : PermissionRow) (p : Permission) → permission_to_domain row ≡ ok p → p.uuid ≡ row.uuid
unfolding permission_to_domain
uuid-permission_to_domain row p e =
    let (n, named, built) = and_then_ok (permission_name_of row.name) _ p e in
    sym (ap (λ x. x.uuid) (ok_inj built))

module _ (role_id permission_id : ℕ) (link : RolePermission) where
  -- The grants that are loaded for the role of the row mention the permission of it.
  pub mentions-loaded :
      (db : RbacDb) (links : List RolePermission) (loaded : List (ℕ × PermissionGrant))
      → IsLinked role_id permission_id link db
      → any (is_link role_id permission_id) links ≡ true
      → map_result loaded_grant (
          collect
            (with_permission db.permissions)
            (select (λ l. member l.role_id (role_id ∷ [])) links))
        ≡ ok loaded
      → mentions permission_id db (grants_at role_id loaded) ≡ true
  unfolding select collect grants_at
  mentions-loaded db [] loaded h m e = cc
  mentions-loaded db (l ∷ links) loaded h m e =
      elim (Bool-cases (member l.role_id (role_id ∷ []))) [
        | inl mine ↦
            elim (Option-cases (first (has_permission_id l.permission_id) db.permissions)) [
              | inl gone ↦
                  let ne : l.permission_id ≢ permission_id = λ q. cc (
                    sym gone
                    ∙ ap (λ x. first (has_permission_id x) db.permissions) q
                    ∙ h.known.1) in
                  mentions-loaded db links loaded h (ground arith) (rw (mine, gone) at e)
              | inr (row, there) ↦
                  let rest_rows =
                    collect (with_permission db.permissions)
                      (select (λ m. member m.role_id (role_id ∷ [])) links) in
                  let (g, rest, one, more, whole) =
                    map_result_ok loaded_grant (l, row) rest_rows loaded (rw (mine, there) at e) in
                  let (p, dom, built) =
                    and_then_ok (permission_to_domain row) (λ q. ok (grant_of l q)) g one in
                  let shape : loaded ≡ grant_of l p ∷ rest =
                    whole ∙ ap (λ x. x ∷ rest) (sym (ok_inj built)) in
                  let its : (l.role_id == role_id) ≡ true = ground arith in
                  elim (Bool-cases (l.permission_id == permission_id)) [
                    | inl this ↦
                        let q = (==_iff l.permission_id permission_id).0 this in
                        let same_row : row ≡ h.known.0 = some_inj (
                          sym there
                          ∙ ap (λ x. first (has_permission_id x) db.permissions) q
                          ∙ h.known.1) in
                        let by_uuid : id_by_uuid db.permissions p.uuid ≡ some permission_id =
                          ap (id_by_uuid db.permissions)
                            (uuid-permission_to_domain row p dom ∙ ap (λ x. x.uuid) same_row)
                          ∙ h.known.2 in
                        rw (shape, its, by_uuid, (==_iff permission_id permission_id).1 refl) refl
                    | inr that ↦
                        let later : any (is_link role_id permission_id) links ≡ true =
                          ground arith in
                        rw (shape, its, mentions-loaded db links rest h later more) (or_true _)
                  ]
            ]
        | inr other ↦ mentions-loaded db links loaded h (ground arith) (rw other at e)
      ]
