-- ===== src/Rbac/Repository/Reconcile.antt =====
-- What `reconcileGrants` of typeorm-rbac.repository.ts leaves in the junction of roles and
-- permissions, row by row.
use nest_kit.Base.{
  ℕ, ◌≡◌, refl, sym, ap, ◌∙◌, ◌≢◌, inl, inr, Bool, true, false, Option, none, some, List, [], ◌∷◌,
  ◌++◌, map, arith, ◌==◌, if◌then◌else◌, ==_iff, Bool-cases, Option-cases, any,
}
use nest_kit.Queries.{
  member, first_of, first, select, collect, is_some, first-append, first-select, any-first,
  any-select-false,
}
use nest_kit.Effects.{ok, ok_inj, and_then_ok}
use nest_kit.Rbac.Role.{PermissionGrant, Role}
use nest_kit.Rbac.Rows.{PermissionRow, RoleRow, RolePermission, RbacDb}
use nest_kit.Rbac.Repository.{
  reconcile_grants, insert_links, clashes, is_link, wanted_id, link_of, added_link, is_link_of_role,
  is_kept, has_role_uuid, inserted_role, updated_role, save_role,
}

abbrev is_this : ℕ → Option ℕ → Bool
is_this id none = false
is_this id (some n) = n == id

abbrev pub is_wanted : List PermissionRow → ℕ → PermissionGrant → Bool
is_wanted permissions id g = is_this id (wanted_id permissions g)

-- The row that one permission has after the role was saved: the row it had, while the role still
-- has the grant, else a row of the grant.
abbrev pub link_after :
    ℕ → ℕ → Option PermissionGrant → Option RolePermission → Option RolePermission
link_after role_id id none before = none
link_after role_id id (some g) none = some (link_of role_id g id)
link_after role_id id (some g) (some l) = some l

abbrev pub HasDistinctIds : List ℕ → Type 0
HasDistinctIds [] = Unit
HasDistinctIds (id ∷ ids) = (member id ids ≡ false) × HasDistinctIds ids

module _ (permissions : List PermissionRow) where
  member-wanted :
      (id : ℕ) (wanted : List PermissionGrant)
      → member id (collect (wanted_id permissions) wanted)
        ≡ is_some (first (is_wanted permissions id) wanted)
  unfolding first collect
  member-wanted id [] = refl
  member-wanted id (g ∷ wanted) = elim (Option-cases (wanted_id permissions g)) [
    | inl e ↦ rw (e, member-wanted id wanted) refl
    | inr (n, e) ↦ rw e (ground (arith, member-wanted id wanted))
  ]

  abbrev existing_ids : ℕ → List RolePermission → List ℕ
  existing_ids role_id links = map (λ l. l.permission_id) (select (is_link_of_role role_id) links)

  member-existing :
      (role_id id : ℕ) (links : List RolePermission)
      → member id (existing_ids role_id links) ≡ is_some (first (is_link role_id id) links)
  unfolding first select
  member-existing role_id id [] = refl
  member-existing role_id id (l ∷ links) = ground (arith, member-existing role_id id links)

  first-added :
      (role_id id : ℕ) (existing : List ℕ) (wanted : List PermissionGrant)
      → first (is_link role_id id) (collect (added_link role_id permissions existing) wanted) ≡ (
          if member id existing
          then none
          else link_after role_id id (first (is_wanted permissions id) wanted) none)
  unfolding first collect
  first-added role_id id existing [] = ground arith
  first-added role_id id existing (g ∷ wanted) = elim (Option-cases (wanted_id permissions g)) [
    | inl e ↦ rw (e, first-added role_id id existing wanted) refl
    | inr (n, e) ↦ rw e (ground (arith, first-added role_id id existing wanted))
  ]

  is_kept-is_link :
      (role_id id : ℕ) (wanted : List ℕ) (l : RolePermission)
      → is_link role_id id l ≡ true
      → is_kept role_id wanted l ≡ member id wanted
  is_kept-is_link role_id id wanted l h = ground arith

  is_kept-is_link_other :
      (role_id other id : ℕ) (wanted : List ℕ)
      → other ≢ role_id
      → (l : RolePermission) → is_link other id l ≡ true
      → is_kept role_id wanted l ≡ true
  is_kept-is_link_other role_id other id wanted ne l h = ground arith

  first-added_other :
      (role_id other id : ℕ) (existing : List ℕ) (wanted : List PermissionGrant)
      → other ≢ role_id
      → first (is_link other id) (collect (added_link role_id permissions existing) wanted) ≡ none
  unfolding first collect
  first-added_other role_id other id existing [] ne = refl
  first-added_other role_id other id existing (g ∷ wanted) ne =
      elim (Option-cases (wanted_id permissions g)) [
        | inl e ↦ rw (e, first-added_other role_id other id existing wanted ne) refl
        | inr (n, e) ↦ rw e (ground (arith, first-added_other role_id other id existing wanted ne))
      ]

  kept_or_none : (o : Option RolePermission) → first_of o none ≡ o
  kept_or_none none = refl
  kept_or_none (some l) = refl

  decided :
      (role_id id : ℕ) (w : Option PermissionGrant) (o : Option RolePermission)
      → first_of
          (if is_some w then o else none)
          (if is_some o then none else link_after role_id id w none)
        ≡ link_after role_id id w o
  decided role_id id none none = refl
  decided role_id id none (some l) = refl
  decided role_id id (some g) none = refl
  decided role_id id (some g) (some l) = refl

  -- A permission that is not wanted gets no row.
  any-added :
      (role_id id : ℕ) (existing : List ℕ) (wanted : List PermissionGrant)
      → member id (collect (wanted_id permissions) wanted) ≡ false
      → any (is_link role_id id) (collect (added_link role_id permissions existing) wanted) ≡ false
  unfolding collect
  any-added role_id id existing [] h = refl
  any-added role_id id existing (g ∷ wanted) h = elim (Option-cases (wanted_id permissions g)) [
    | inl e ↦ rw e (any-added role_id id existing wanted (rw e at h))
    | inr (n, e) ↦
        let h2 : member id (n ∷ collect (wanted_id permissions) wanted) ≡ false = rw e at h in
        let later = any-added role_id id existing wanted ground arith in
        rw e (ground (arith, later))
  ]

  -- The junction after the deletion and the insert, if the insert succeeds
  unfoldable pub reconciled : ℕ → List PermissionGrant → List RolePermission → List RolePermission
  reconciled role_id wanted links =
      select (is_kept role_id (collect (wanted_id permissions) wanted)) links
      ++ collect (added_link role_id permissions (existing_ids role_id links)) wanted

  pub find-reconciled :
      (role_id id : ℕ) (wanted : List PermissionGrant) (links : List RolePermission)
      → first (is_link role_id id) (reconciled role_id wanted links)
        ≡ link_after role_id id
            (first (is_wanted permissions id) wanted)
            (first (is_link role_id id) links)
  unfolding reconciled
  find-reconciled role_id id wanted links =
      let ids = collect (wanted_id permissions) wanted in
      let old = existing_ids role_id links in
      let q = is_link role_id id in
      rw
        (
          first-append q (select (is_kept role_id ids) links)
              (collect (added_link role_id permissions old) wanted),
          first-select q (is_kept role_id ids) (member id ids) links
              (is_kept-is_link role_id id ids),
          first-added role_id id old wanted,
          member-existing role_id id links,
          member-wanted id wanted,
        )
        (decided role_id id (first (is_wanted permissions id) wanted) (first q links))

  -- The rows of every other role stay.
  pub find-reconciled_other :
      (role_id other id : ℕ) (wanted : List PermissionGrant) (links : List RolePermission)
      → other ≢ role_id
      → first (is_link other id) (reconciled role_id wanted links) ≡ first (is_link other id) links
  unfolding reconciled
  find-reconciled_other role_id other id wanted links ne =
      let ids = collect (wanted_id permissions) wanted in
      let old = existing_ids role_id links in
      let q = is_link other id in
      rw
        (
          first-append q (select (is_kept role_id ids) links)
              (collect (added_link role_id permissions old) wanted),
          first-select q (is_kept role_id ids) true links
              (is_kept-is_link_other role_id other id ids ne),
          first-added_other role_id other id old wanted ne,
        )
        (kept_or_none (first q links))

  pub reconcile_grants-ok :
      (role_id : ℕ) (wanted : List PermissionGrant) (links after : List RolePermission)
      → reconcile_grants role_id wanted permissions links ≡ ok after
      → after ≡ reconciled role_id wanted links
  unfolding reconcile_grants insert_links reconciled
  reconcile_grants-ok role_id wanted links after e =
      let rows = collect (added_link role_id permissions (existing_ids role_id links)) wanted in
      let kept = select (is_kept role_id (collect (wanted_id permissions) wanted)) links in
      elim (Bool-cases (clashes rows kept)) [
        | inl yes_ ↦ cc (rw yes_ at e)
        | inr no_ ↦ sym (ok_inj (rw no_ at e))
      ]

  -- No row that is added has the key of a row that is kept.
  added_free :
      (role_id : ℕ) (wanted : List PermissionGrant) (links kept : List RolePermission)
      → ((id : ℕ) → any (is_link role_id id) links ≡ false → any (is_link role_id id) kept ≡ false)
      → HasDistinctIds (collect (wanted_id permissions) wanted)
      → clashes (collect (added_link role_id permissions (existing_ids role_id links)) wanted) kept
        ≡ false
  unfolding clashes collect
  added_free role_id [] links kept k d = refl
  added_free role_id (g ∷ wanted) links kept k d = elim (Option-cases (wanted_id permissions g)) [
    | inl e ↦ rw e (added_free role_id wanted links kept k (rw e at d))
    | inr (n, e) ↦
        let apart : HasDistinctIds (n ∷ collect (wanted_id permissions) wanted) = rw e at d in
        elim (Bool-cases (member n (existing_ids role_id links))) [
          | inl old ↦ rw (e, old) (added_free role_id wanted links kept k apart.1)
          | inr new ↦
              rw
                (
                  e,
                  new,
                  k n (
                      any-first (is_link role_id n) links
                      ∙ sym (member-existing role_id n links)
                      ∙ new),
                  any-added role_id n (existing_ids role_id links) wanted apart.0,
                  added_free role_id wanted links kept k apart.1,
                )
                refl
        ]
  ]

  -- Saving a role succeeds and decides each row of the junction by itself: a permission of the role
  -- keeps the row that it had, with who granted it and when, and else gets the row of the grant; the
  -- row of a permission that the role has not is gone, and the rows of every other role stay. This
  -- is when the grants of the role are of distinct permissions.
  pub find-reconcile_grants :
      (role_id : ℕ) (wanted : List PermissionGrant) (links : List RolePermission)
      → HasDistinctIds (collect (wanted_id permissions) wanted)
      → (after : List RolePermission) × (reconcile_grants role_id wanted permissions links
          ≡ ok after)
        × ((other id : ℕ)
            → first (is_link other id) after ≡ (
                if other == role_id
                then link_after role_id id
                    (first (is_wanted permissions id) wanted)
                    (first (is_link role_id id) links)
                else first (is_link other id) links))
  unfolding reconcile_grants insert_links
  find-reconcile_grants role_id wanted links d = (
    reconciled role_id wanted links,
    rw
        (added_free role_id wanted links
          (select (is_kept role_id (collect (wanted_id permissions) wanted)) links)
          (λ id. any-select-false (is_link role_id id) _ links) d)
        (unfold reconciled in refl),
    λ other id. elim (Bool-cases (other == role_id)) [
      | inl this ↦ rw this (
          ap (λ x. first (is_link x id) (reconciled role_id wanted links))
            ((==_iff other role_id).0 this)
          ∙ find-reconciled role_id id wanted links)
      | inr that ↦ rw that (
          find-reconciled_other role_id other id wanted links
            (λ e. cc (that, (==_iff other role_id).1 e)))
    ],
  )

abbrev written : Role → Option RoleRow → RbacDb → RbacDb
written r none db =
    inserted_role r db (reconciled db.permissions db.next_role_id r.grants db.role_permissions)
written r (some row) db =
    updated_role r row.id db (reconciled db.permissions row.id r.grants db.role_permissions)

-- What a save leaves, if it succeeds
unfoldable pub saved_role : Role → RbacDb → RbacDb
saved_role r db = written r (first (has_role_uuid r.uuid) db.roles) db

pub save_role-ok :
    (r : Role) (db after : RbacDb) → save_role r db ≡ ok after → after ≡ saved_role r db
unfolding save_role saved_role
save_role-ok r db after e = elim (Option-cases (first (has_role_uuid r.uuid) db.roles)) [
  | inl none_ ↦
      let (links, read, built) =
        and_then_ok (reconcile_grants db.next_role_id r.grants db.permissions db.role_permissions)
          (λ x. ok (inserted_role r db x)) after (rw none_ at e) in
      rw none_ (
        sym (ok_inj built)
        ∙ ap (inserted_role r db) (
            reconcile_grants-ok db.permissions db.next_role_id r.grants db.role_permissions links
              read))
  | inr (row, there) ↦
      let (links, read, built) =
        and_then_ok (reconcile_grants row.id r.grants db.permissions db.role_permissions)
          (λ x. ok (updated_role r row.id db x)) after (rw there at e) in
      rw there (
        sym (ok_inj built)
        ∙ ap (updated_role r row.id db)
            (reconcile_grants-ok db.permissions row.id r.grants db.role_permissions links read))
]
