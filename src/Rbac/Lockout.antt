-- ===== src/Rbac/Lockout.antt =====
-- That no sequence of the commands of src/modules/rbac takes a permission from a protected role.
use nest_kit.Rbac.Repository.{
  is_link, has_permission_id, has_permission_uuid, has_role_uuid, id_by_uuid, replace_permission,
  replace_role, save_permission, save_role,
}
use nest_kit.Base.{
  ℕ, ◌<◌, String, ◌≡◌, refl, sym, ap, ◌∙◌, subst, ◌≢◌, inl, inr, Bool, true, false, Option, none,
  some, List, [], ◌∷◌, ◌++◌, map, arith, eq_iff, eq_refl, ◌=ₛ◌, ◌==◌, ==_iff, Bool-cases,
  Option-cases, any, All, All-append, some_inj,
}
use nest_kit.Queries.{first, first-append, first-map, first_sound, All-map, any-first, is_some}
use nest_kit.Rbac.Role.{Permission, PermissionGrant, Role}
use nest_kit.Rbac.Rows.{
  PermissionRow, RoleRow, RolePermission, RbacDb, permission_to_orm, role_to_orm,
}
use nest_kit.Effects.{ok}
use nest_kit.Rbac.Repository.Reconcile.{
  reconciled, saved_role, save_role-ok, is_wanted, link_after, find-reconciled,
  find-reconciled_other,
}

-- A junction row of a protected role, whose permission is in its table, where a lookup by uuid and
-- one by id agree on it.
pub record IsLinked (role_id permission_id : ℕ) (link : RolePermission) (db : RbacDb) : Type 0 where
  pub linked : first (is_link role_id permission_id) db.role_permissions ≡ some link
  pub guarded : All (λ row. row.id ≡ role_id → row.is_protected ≡ true) db.roles
  pub older : role_id < db.next_role_id
  pub known :
      (p : PermissionRow) × (first (has_permission_id permission_id) db.permissions ≡ some p)
      × (id_by_uuid db.permissions p.uuid ≡ some permission_id)

-- The lookup by uuid after a row was replaced
id_by_uuid-replace_self :
    (new : PermissionRow) (rows : List PermissionRow)
    → id_by_uuid rows new.uuid ≡ some new.id
    → id_by_uuid (map (replace_permission new) rows) new.uuid ≡ some new.id
unfolding id_by_uuid first
id_by_uuid-replace_self new [] e = cc
id_by_uuid-replace_self new (b ∷ rows) e = elim (Bool-cases (b.uuid =ₛ new.uuid)) [
  | inl hit ↦
      let same_id : b.id ≡ new.id = some_inj (rw hit at e) in
      rw ((==_iff b.id new.id).1 same_id, eq_refl new.uuid) refl
  | inr miss ↦ elim (Bool-cases (b.id == new.id)) [
    | inl written ↦ rw (written, eq_refl new.uuid) refl
    | inr other ↦ rw (other, miss) (id_by_uuid-replace_self new rows (rw miss at e))
  ]
]

id_by_uuid-replace_other :
    (new : PermissionRow) (uuid : String) (id : ℕ) (rows : List PermissionRow)
    → (new.uuid =ₛ uuid) ≡ false
    → id ≢ new.id
    → id_by_uuid rows uuid ≡ some id
    → id_by_uuid (map (replace_permission new) rows) uuid ≡ some id
unfolding id_by_uuid first
id_by_uuid-replace_other new uuid id [] apart ne e = cc
id_by_uuid-replace_other new uuid id (b ∷ rows) apart ne e = elim (Bool-cases (b.uuid =ₛ uuid)) [
  | inl hit ↦
      let same_id : b.id ≡ id = some_inj (rw hit at e) in
      let stays : (b.id == new.id) ≡ false = ground arith in rw (stays, hit) (ap some same_id)
  | inr miss ↦ elim (Bool-cases (b.id == new.id)) [
    | inl written ↦
        rw (written, apart) (id_by_uuid-replace_other new uuid id rows apart ne (rw miss at e))
    | inr other ↦
        rw (other, miss) (id_by_uuid-replace_other new uuid id rows apart ne (rw miss at e))
  ]
]

-- A save of a permission keeps what is known of the row.
abbrev IsKnown : ℕ → List PermissionRow → Type 0
IsKnown id rows =
    (p : PermissionRow) × (first (has_permission_id id) rows ≡ some p)
    × (id_by_uuid rows p.uuid ≡ some id)

IsKnown-append :
    (id : ℕ) (new : PermissionRow) (rows : List PermissionRow)
    → IsKnown id rows
    → IsKnown id (rows ++ new ∷ [])
unfolding id_by_uuid
IsKnown-append id new rows (p, here, by_uuid) = (
  p,
  rw (first-append (has_permission_id id) rows (new ∷ []), here) refl,
  ground (arith, first-append (has_permission_uuid p.uuid) rows (new ∷ [])),
)

-- Two rows of different ids have different uuids.
apart :
    (p : PermissionRow) (id : ℕ) (new : PermissionRow) (rows : List PermissionRow)
    → id_by_uuid rows new.uuid ≡ some new.id
    → id_by_uuid rows p.uuid ≡ some id
    → id ≢ new.id
    → (new.uuid =ₛ p.uuid) ≡ false
apart p id new rows there here ne = elim (Bool-cases (new.uuid =ₛ p.uuid)) [
  | inl same ↦ absurd (
      ne (
        some_inj (sym here ∙ ap (id_by_uuid rows) (sym ((eq_iff new.uuid p.uuid).0 same)) ∙ there)))
  | inr other ↦ other
]

IsKnown-replace :
    (id : ℕ) (new : PermissionRow) (rows : List PermissionRow)
    → id_by_uuid rows new.uuid ≡ some new.id
    → IsKnown id rows
    → IsKnown id (map (replace_permission new) rows)
IsKnown-replace id new rows there (p, here, by_uuid) =
    let this : p.id ≡ id = (==_iff p.id id).0 (first_sound (has_permission_id id) rows p here) in
    let moved =
      first-map (has_permission_id id) (replace_permission new) rows (λ a. ground arith) in
    elim (Bool-cases (p.id == new.id)) [
      | inl written ↦ (
        new,
        moved ∙ rw (here, written) refl,
        id_by_uuid-replace_self new rows there
            ∙ ap some (sym ((==_iff p.id new.id).0 written) ∙ this),
      )
      | inr other ↦ (
        p,
        moved ∙ rw (here, other) refl,
        id_by_uuid-replace_other new p.uuid id rows
            (apart p id new rows there by_uuid (λ q. cc (other, (==_iff p.id new.id).1 (this ∙ q))))
            (λ q. cc (other, (==_iff p.id new.id).1 (this ∙ q))) by_uuid,
      )
    ]

written_id :
    (p : Permission) (rows : List PermissionRow) (row : PermissionRow)
    → first (has_permission_uuid p.uuid) rows ≡ some row
    → id_by_uuid rows p.uuid ≡ some row.id
unfolding id_by_uuid
written_id p rows row e = rw e refl

pub save_permission-IsLinked :
    (role_id permission_id : ℕ) (link : RolePermission) (p : Permission) (db : RbacDb)
    → IsLinked role_id permission_id link db
    → IsLinked role_id permission_id link (save_permission p db)
unfolding save_permission
save_permission-IsLinked role_id permission_id link p db h =
    elim (Option-cases (first (has_permission_uuid p.uuid) db.permissions)) [
      | inl none_ ↦ rw none_ (record {
        linked = h.linked;
        guarded = h.guarded;
        older = h.older;
        known =
            IsKnown-append permission_id (permission_to_orm db.next_permission_id p) db.permissions
              h.known;
      })
      | inr (row, there) ↦ rw there (record {
        linked = h.linked;
        guarded = h.guarded;
        older = h.older;
        known =
            IsKnown-replace permission_id (permission_to_orm row.id p) db.permissions
              (unfold permission_to_orm in written_id p db.permissions row there) h.known;
      })
    ]

-- The grants of a role that mention the permission of the junction row
abbrev pub mentions : ℕ → RbacDb → List PermissionGrant → Bool
mentions permission_id db gs = any (is_wanted db.permissions permission_id) gs

link_after-some :
    (role_id id : ℕ) (w : Option PermissionGrant) (l : RolePermission)
    → is_some w ≡ true
    → link_after role_id id w (some l) ≡ some l
link_after-some role_id id none l h = cc
link_after-some role_id id (some g) l h = refl

keeps_link :
    (role_id permission_id : ℕ) (link : RolePermission) (saved : ℕ) (gs : List PermissionGrant)
    (db : RbacDb)
    → first (is_link role_id permission_id) db.role_permissions ≡ some link
    → (saved ≡ role_id → mentions permission_id db gs ≡ true)
    → first (is_link role_id permission_id) (reconciled db.permissions saved gs db.role_permissions)
      ≡ some link
keeps_link role_id permission_id link saved gs db linked k = elim (Bool-cases (saved == role_id)) [
  | inl this ↦
      let q : saved ≡ role_id = (==_iff saved role_id).0 this in
      let wanted : is_some (first (is_wanted db.permissions permission_id) gs) ≡ true =
        sym (any-first (is_wanted db.permissions permission_id) gs) ∙ k q in
      subst
        (λ x.
          first (is_link role_id permission_id) (reconciled db.permissions x gs db.role_permissions)
          ≡ some link)
        (sym q)
        (find-reconciled db.permissions role_id permission_id gs db.role_permissions
          ∙ ap
              (link_after role_id permission_id (first (is_wanted db.permissions permission_id) gs))
              linked
          ∙ link_after-some role_id permission_id
              (first (is_wanted db.permissions permission_id) gs) link wanted)
  | inr other ↦
      find-reconciled_other db.permissions saved role_id permission_id gs db.role_permissions
        (λ q. cc (other, (==_iff saved role_id).1 (sym q)))
      ∙ linked
]

replaced_guarded :
    (role_id : ℕ) (new old : RoleRow)
    → (new.id ≡ role_id → new.is_protected ≡ true)
    → (old.id ≡ role_id → old.is_protected ≡ true)
    → (replace_role new old).id ≡ role_id
    → (replace_role new old).is_protected ≡ true
replaced_guarded role_id new old n o = elim (Bool-cases (old.id == new.id)) [
  | inl written ↦ rw written n
  | inr other ↦ rw other o
]

-- A save of a role that mentions the permission, if it is the role of the row, keeps the row.
saved_role-IsLinked :
    (role_id permission_id : ℕ) (link : RolePermission) (r : Role) (db : RbacDb)
    → IsLinked role_id permission_id link db
    → ((row : RoleRow)
        → first (has_role_uuid r.uuid) db.roles ≡ some row
        → row.id ≡ role_id
        → (mentions permission_id db r.grants ≡ true) × (r.is_protected ≡ true))
    → IsLinked role_id permission_id link (saved_role r db)
unfolding saved_role role_to_orm
saved_role-IsLinked role_id permission_id link r db h k =
    elim (Option-cases (first (has_role_uuid r.uuid) db.roles)) [
      | inl none_ ↦ rw none_ (record {
        linked =
            find-reconciled_other db.permissions db.next_role_id role_id permission_id r.grants
              db.role_permissions (λ q. omega (arith, h.older))
            ∙ h.linked;
        guarded =
            All-append _ db.roles (role_to_orm db.next_role_id r ∷ []) h.guarded
              (λ q. absurd (omega (arith, h.older, q)), tt);
        older = omega (arith, h.older);
        known = h.known;
      })
      | inr (row, there) ↦ rw there (record {
        linked =
            keeps_link role_id permission_id link row.id r.grants db h.linked
              (λ q. (k row there q).0);
        guarded =
            All-map _ (replace_role (role_to_orm row.id r)) db.roles
              (λ a ga.
                replaced_guarded role_id (role_to_orm row.id r) a (λ q. (k row there q).1) ga)
              h.guarded;
        older = h.older;
        known = h.known;
      })
    ]

pub save_role-IsLinked :
    (role_id permission_id : ℕ) (link : RolePermission) (r : Role) (db after : RbacDb)
    → IsLinked role_id permission_id link db
    → ((row : RoleRow)
        → first (has_role_uuid r.uuid) db.roles ≡ some row
        → row.id ≡ role_id
        → (mentions permission_id db r.grants ≡ true) × (r.is_protected ≡ true))
    → save_role r db ≡ ok after
    → IsLinked role_id permission_id link after
save_role-IsLinked role_id permission_id link r db after h k e =
    subst (IsLinked role_id permission_id link) (sym (save_role-ok r db after e))
      (saved_role-IsLinked role_id permission_id link r db h k)
