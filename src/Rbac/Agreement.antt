-- ===== src/Rbac/Agreement.antt =====
-- That the two answers of typeorm-rbac.repository.ts agree.
use nest_kit.Rbac.Role.{holds, RoleAssignment, Role, Permission, PermissionGrant, is_grant_of}
use nest_kit.Rbac.Rows.{
  role_to_domain, PermissionRow, RoleRow, RolePermission, UserRole, RbacDb, permission_to_domain,
}
use nest_kit.Rbac.Grants.{
  grants_for, find_assignments_for_user, assignment, with_role, is_of_user, GrantRow,
  permission_name, role_rows, joined_permissions, joined_role, joined, add, gather,
}
use nest_kit.Rbac.Repository.{
  load_grants, has_permission_id, has_role_id, grants_at, grant_at, grant_of, loaded_grant,
  with_permission,
}
use nest_kit.Rbac.Names.{
  role_name_of, PermissionName, value, permission_name_of, value-permission_name_of,
}
use nest_kit.Effects.{ok_inj, ok, map_result, and_then_ok, map_result_ok}
use nest_kit.Base.{
  ℕ, String, ◌≡◌, refl, sym, ap, ◌∙◌, subst, inl, inr, Bool, true, false, ◌&&◌, ◌||◌, Option, none,
  some, List, [], ◌∷◌, map, arith, ◌==◌, ==_iff, Bool-cases, Option-cases, any, All, or_false,
}
use nest_kit.Texts.{Text, same, same_refl, same_iff, trim}
use nest_kit.Queries.{
  member, first, select, collect, any-append, All-first, All_imp, All-member, first-select, any_eq,
}

abbrev is_text : Text → Option Text → Bool
is_text t none = false
is_text t (some u) = same t u

abbrev row_has : Text → GrantRow → Bool
row_has t (r, p) = is_text t p

any-add : (t u : Text) (set : List Text) → any (same t) (add u set) ≡ (same t u || any (same t) set)
any-add t u set = elim (Bool-cases (any (same u) set)) [
  | inl hit ↦ rw hit (elim (Bool-cases (same t u)) [
    | inl e ↦
        let q : t ≡ u = (same_iff t u).0 e in
        subst (λ x. any (same x) set ≡ (same x u || any (same x) set)) (sym q)
          (rw (hit, same_refl u) refl)
    | inr e ↦ rw e refl
  ])
  | inr miss ↦ rw (miss, any-append (same t) set (u ∷ [])) (ground arith)
]

any-gather :
    (t : Text) (rows : List GrantRow) (roles permissions : List Text)
    → any (same t) (gather rows roles permissions).permissions
      ≡ (any (row_has t) rows || any (same t) permissions)
unfolding gather
any-gather t [] roles permissions = refl
any-gather t ((r, none) ∷ rows) roles permissions = any-gather t rows (add r roles) permissions
any-gather t ((r, some p) ∷ rows) roles permissions =
    any-gather t rows (add r roles) (add p permissions)
    ∙ rw (any-add t p permissions) (ground arith)

any-role_rows :
    (t role_name : Text) (ps : List (Option Text))
    → any (row_has t) (role_rows role_name ps) ≡ any (is_text t) ps
any-role_rows t role_name [] = refl
any-role_rows t role_name (p ∷ ps) = ap (λ b. is_text t p || b) (any-rest ps)
  where
    any-rest :
        (qs : List (Option Text))
        → any (row_has t) (map (λ q. (role_name, q)) qs) ≡ any (is_text t) qs
    any-rest [] = refl
    any-rest (q ∷ qs) = ap (λ b. is_text t q || b) (any-rest qs)

-- Whether the junction gives a role the permission of the text
abbrev grants_text : RbacDb → Text → ℕ → Bool
grants_text db t role_id = any (is_text t) (joined_permissions db role_id)

abbrev role_grants : RbacDb → Text → Option RoleRow → Bool
role_grants db t none = false
role_grants db t (some r) = grants_text db t r.id

any-joined_role :
    (db : RbacDb) (t : Text) (o : Option RoleRow)
    → any (row_has t) (joined_role db o) ≡ role_grants db t o
any-joined_role db t none = refl
any-joined_role db t (some r) = any-role_rows t r.name (joined_permissions db r.id)

any-joined :
    (db : RbacDb) (t : Text) (links : List UserRole)
    → any (row_has t) (joined db links)
      ≡ any (λ l. role_grants db t (first (has_role_id l.role_id) db.roles)) links
unfolding joined
any-joined db t [] = refl
any-joined db t (l ∷ links) =
    any-append (row_has t) (joined_role db (first (has_role_id l.role_id) db.roles))
      (joined db links)
    ∙ rw (any-joined_role db t (first (has_role_id l.role_id) db.roles), any-joined db t links) refl

-- The texts of a table without white space around them.
abbrev pub IsTrimmed : List PermissionRow → Type 0
IsTrimmed permissions = All (λ p. trim p.name ≡ p.name) permissions

value-permission_to_domain :
    (row : PermissionRow) (p : Permission)
    → permission_to_domain row ≡ ok p
    → value p.name ≡ trim row.name
unfolding permission_to_domain
value-permission_to_domain row p e =
    let (n, named, built) = and_then_ok (permission_name_of row.name) _ p e in
    let same_name : n ≡ p.name = cc built in
    subst (λ m. value m ≡ trim row.name) same_name (value-permission_name_of row.name n named).1

-- One junction row, against the grant that is loaded for it
is_text-found :
    (n : PermissionName) (l : RolePermission) (row : PermissionRow) (p : Permission)
    → permission_to_domain row ≡ ok p
    → trim row.name ≡ row.name
    → same (value p.name) (value n) ≡ same (value n) row.name
is_text-found n l row p e tidy =
    let text : value p.name ≡ row.name = value-permission_to_domain row p e ∙ tidy in
    ground (arith, same_iff (value p.name) (value n), same_iff (value n) row.name)

member_apart :
    (a b : ℕ) (ids : List ℕ) → member a ids ≡ true → member b ids ≡ false → (b == a) ≡ false
member_apart a b [] h k = cc
member_apart a b (c ∷ ids) h k = ground (arith, member_apart a b ids)

abbrev text_link : List PermissionRow → PermissionName → ℕ → RolePermission → Bool
text_link permissions n role_id l =
    l.role_id == role_id && is_text (value n) (permission_name permissions l)

module _ (permissions : List PermissionRow) (tidy : IsTrimmed permissions)
    (n : PermissionName) where
  any-loaded :
      (role_id : ℕ) (ids : List ℕ) (links : List RolePermission)
      (loaded : List (ℕ × PermissionGrant))
      → member role_id ids ≡ true
      → map_result loaded_grant
          (collect (with_permission permissions) (select (λ l. member l.role_id ids) links))
        ≡ ok loaded
      → any (is_grant_of n) (grants_at role_id loaded) ≡ any (text_link permissions n role_id) links
  unfolding grants_at select collect
  any-loaded role_id ids [] loaded here e =
      let q : [] ≡ loaded = unfold map_result in cc e in
      subst (λ x. any (is_grant_of n) (collect (grant_at role_id) x) ≡ false) q refl
  any-loaded role_id ids (l ∷ links) loaded here e = elim (Bool-cases (member l.role_id ids)) [
    | inl wanted ↦ elim (Option-cases (first (has_permission_id l.permission_id) permissions)) [
      | inl gone ↦
          any-loaded role_id ids links loaded here (rw (wanted, gone) at e) ∙ rw gone (ground arith)
      | inr (row, there) ↦
          let rest_rows =
            collect (with_permission permissions) (select (λ m. member m.role_id ids) links) in
          let (g, rest, one, more, whole) =
            map_result_ok loaded_grant (l, row) rest_rows loaded (rw (wanted, there) at e) in
          let (p, dom, built) =
            and_then_ok (permission_to_domain row) (λ q. ok (grant_of l q)) g one in
          let shape : loaded ≡ grant_of l p ∷ rest =
            whole ∙ ap (λ x. x ∷ rest) (sym (ok_inj built)) in
          rw (shape, there)
            (ground (
              arith,
              any-loaded role_id ids links rest here more,
              is_text-found n l row p dom (
                  All-first (λ r. trim r.name ≡ r.name) (has_permission_id l.permission_id)
                    permissions row there tidy),
            ))
    ]
    | inr other ↦
        any-loaded role_id ids links loaded here (rw other at e)
        ∙ rw (member_apart role_id l.role_id ids here other) refl
  ]

any-joined_permissions :
    (db : RbacDb) (n : PermissionName) (role_id : ℕ) (links : List RolePermission)
    → any
        (is_text (value n))
        (map (permission_name db.permissions) (select (λ l. l.role_id == role_id) links))
      ≡ any (text_link db.permissions n role_id) links
unfolding select
any-joined_permissions db n role_id [] = refl
any-joined_permissions db n role_id (l ∷ links) =
    ground (arith, any-joined_permissions db n role_id links)

module _ (db : RbacDb) (n : PermissionName) where
  abbrev IsLoaded : List (ℕ × PermissionGrant) → RoleRow → Type 0
  IsLoaded loaded row =
      any (is_grant_of n) (grants_at row.id loaded) ≡ grants_text db (value n) row.id

  grants-role_to_domain :
      (row : RoleRow) (gs : List PermissionGrant) (r : Role)
      → role_to_domain row gs ≡ ok r
      → r.grants ≡ gs
  unfolding role_to_domain
  grants-role_to_domain row gs r e =
      let (m, p, q) = and_then_ok (role_name_of row.name) _ r e in
      sym (ap (λ x. x.grants) (ok_inj q))

  holds-assignment :
      (loaded : List (ℕ × PermissionGrant)) (l : UserRole) (row : RoleRow) (a : RoleAssignment)
      → assignment loaded (l, row) ≡ ok a
      → holds n a.role ≡ any (is_grant_of n) (grants_at row.id loaded)
  unfolding holds
  holds-assignment loaded l row a e =
      let (r, p, q) = and_then_ok (role_to_domain row (grants_at row.id loaded)) _ a e in
      let same_role : a.role ≡ r = cc q in
      ap (λ x. any (is_grant_of n) x.grants) same_role
      ∙ ap (any (is_grant_of n)) (grants-role_to_domain row (grants_at row.id loaded) r p)

  any-assigned :
      (rows : List RoleRow) (loaded : List (ℕ × PermissionGrant)) (links : List UserRole)
      (assigned : List RoleAssignment)
      → All (IsLoaded loaded) rows
      → map_result (assignment loaded) (collect (with_role rows) links) ≡ ok assigned
      → any (λ a. holds n a.role) assigned
        ≡ any (λ l. role_grants db (value n) (first (has_role_id l.role_id) rows)) links
  unfolding collect
  any-assigned rows loaded [] assigned h e =
      let q : [] ≡ assigned = unfold map_result in cc e in
      subst (λ x. any (λ a. holds n a.role) x ≡ false) q refl
  any-assigned rows loaded (l ∷ links) assigned h e =
      elim (Option-cases (first (has_role_id l.role_id) rows)) [
        | inl gone ↦ any-assigned rows loaded links assigned h (rw gone at e) ∙ rw gone refl
        | inr (row, there) ↦
            let (a, rest, one, more, whole) =
              map_result_ok (assignment loaded) (l, row) (collect (with_role rows) links) assigned
                (rw there at e) in
            let held =
              holds-assignment loaded l row a one
              ∙ All-first (IsLoaded loaded) (has_role_id l.role_id) rows row there h in
            rw (whole, there, held, any-assigned rows loaded links rest h more) refl
      ]

-- The permissions that the join answers for a user are those that the roles of the user's
-- assignments hold, when the aggregates can be built and every permission is stored under a name
-- without white space around it.
pub grants_for-find_assignments :
    (user_uuid : String) (db : RbacDb) (assigned : List RoleAssignment) (n : PermissionName)
    → IsTrimmed db.permissions
    → find_assignments_for_user user_uuid db ≡ ok assigned
    → any (same (value n)) (grants_for user_uuid db).permissions
      ≡ any (λ a. holds n a.role) assigned
unfolding grants_for find_assignments_for_user load_grants
grants_for-find_assignments user_uuid db assigned n tidy e =
    let links = select (is_of_user user_uuid) db.user_roles in
    let link_ids = map (λ (l : UserRole). l.role_id) links in
    let rows = select (λ r. member r.id link_ids) db.roles in
    let ids = map (λ (r : RoleRow). r.id) rows in
    let (loaded, read, built) = and_then_ok (load_grants ids db) _ assigned e in
    let each : All (IsLoaded db n loaded) rows =
      All_imp
        (λ r here.
          any-loaded db.permissions tidy n r.id ids db.role_permissions loaded here read
          ∙ sym (any-joined_permissions db n r.id db.role_permissions))
        rows (All-member (λ r. r.id) rows) in
    let same_role : All
        (λ l.
          role_grants db (value n) (first (has_role_id l.role_id) rows)
          ≡ role_grants db (value n) (first (has_role_id l.role_id) db.roles))
        links =
      All_imp
        (λ l here. ap (role_grants db (value n)) (
          first-select (has_role_id l.role_id) (λ r. member r.id link_ids) true db.roles
            (λ r q.
              subst (λ x. member x link_ids ≡ true) (sym ((==_iff r.id l.role_id).0 q)) here)))
        links (All-member (λ l. l.role_id) links) in
    any-gather (value n) (joined db links) [] []
    ∙ or_false (any (row_has (value n)) (joined db links))
    ∙ any-joined db (value n) links
    ∙ sym (any_eq _ _ links same_role)
    ∙ sym (any-assigned db n rows loaded links assigned each built)
