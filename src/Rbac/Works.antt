-- ===== src/Rbac/Works.antt =====
-- What the transactions of the commands of src/modules/rbac keep of the junction.
use nest_kit.Rbac.Repository.{
  load_grants, has_role_uuid, find_role_by_uuid, find_permission_by_name, save_role, grants_at,
  is_link,
}
use nest_kit.Rbac.{role_not_found, permission_not_found}
use nest_kit.Effects.{◌>>◌, pure, ok_inj, ok, object_of, lift, ◌>>=◌, or_throw}
use nest_kit.Transactions.{writes, publish_all, Post, bind-Post, lift-Post, or_throw-Post}
use nest_kit.Rbac.Handlers.{
  tries, tries_write, store_role, role_by_uuid, grant_permission_work, revoke_permission_work,
}
use nest_kit.Base.{
  ℕ, String, ◌≡◌, refl, sym, ap, ◌∙◌, subst, inl, inr, true, Option, none, some, [], ◌∷◌, eq_iff,
  Bool-cases, any, some_inj,
}
use nest_kit.Queries.{first, any-append, any-first, first_sound, All-first, is_some}
use nest_kit.Rbac.Names.{PermissionName}
use nest_kit.Rbac.Role.{Permission, Role, holds, grant, revoke}
use nest_kit.Rbac.Rows.{RoleRow, RolePermission, RbacDb, RbacTx}
use nest_kit.Rbac.Repository.Reconcile.{is_wanted}
use nest_kit.Rbac.Lockout.{IsLinked, mentions, save_role-IsLinked}
use nest_kit.Rbac.Protection.{IsBuiltOf, hydrate-some, mentions-loaded}

-- A role that was found, and nothing written yet
unfoldable pub IsFound : RbacTx → String → Role → RbacTx → Type 0
IsFound s uuid r t =
    (t ≡ s)
    × (row : RoleRow) × (first (has_role_uuid uuid) s.db.roles ≡ some row)
    × IsBuiltOf s.db row r

pub role_by_uuid-Post : (uuid : String) (s : RbacTx) → Post (IsFound s uuid) (role_by_uuid uuid s)
unfolding IsFound find_role_by_uuid
role_by_uuid-Post uuid s =
    bind-Post _ _ (lift (find_role_by_uuid uuid s.db) s) (or_throw role_not_found)
      (lift-Post (find_role_by_uuid uuid s.db) s) (λ o t (same, read). one o t same read)
  where
    one :
        (o : Option Role) (t : RbacTx)
        → t ≡ s
        → find_role_by_uuid uuid s.db ≡ ok o
        → Post (IsFound s uuid) (or_throw role_not_found o t)
    one none t same read = tt
    one (some r) t same read =
        let (row, there, built) =
          hydrate-some s.db (first (has_role_uuid uuid) s.db.roles) r read in
        (same, row, there, built)

module _ (role_id permission_id : ℕ) (link : RolePermission) where
  abbrev IsKept : RbacDb → Type 0
  IsKept = IsLinked role_id permission_id link

  built_mentions :
      (db : RbacDb) (row : RoleRow) (r : Role)
      → IsKept db
      → IsBuiltOf db row r
      → row.id ≡ role_id
      → mentions permission_id db r.grants ≡ true
  unfolding IsBuiltOf load_grants
  built_mentions db row r h (loaded, read, u, p, g) q =
      let there : any (is_link role_id permission_id) db.role_permissions ≡ true =
        any-first (is_link role_id permission_id) db.role_permissions ∙ ap is_some h.linked in
      ap (mentions permission_id db) (g ∙ ap (λ x. grants_at x loaded) q)
      ∙ mentions-loaded role_id permission_id link db db.role_permissions loaded h there
          (subst (λ x. load_grants (x ∷ []) db ≡ ok loaded) q read)

  saved_IsKept :
      (s : RbacTx) (uuid : String) (row : RoleRow) (r changed : Role)
      → IsKept s.db
      → first (has_role_uuid uuid) s.db.roles ≡ some row
      → IsBuiltOf s.db row r
      → changed.uuid ≡ r.uuid
      → (row.id ≡ role_id
          → (mentions permission_id s.db changed.grants ≡ true) × (changed.is_protected ≡ true))
      → (after : RbacDb) → save_role changed s.db ≡ ok after
      → IsKept after
  unfolding IsBuiltOf
  saved_IsKept s uuid row r changed h there (loaded, read, u, p, g) same_uuid k after e =
      save_role-IsLinked role_id permission_id link changed s.db after h
        (λ other found_ q.
          let by_uuid =
            same_uuid
            ∙ u
            ∙ (eq_iff row.uuid uuid).0 (first_sound (has_role_uuid uuid) s.db.roles row there) in
          let same_row : row ≡ other =
            some_inj
              (sym there ∙ ap (λ x. first (has_role_uuid x) s.db.roles) (sym by_uuid) ∙ found_) in
          k (ap (λ x. x.id) same_row ∙ q))
        e

  -- What a computation that returns keeps.
  abbrev Keeps {ℓ} : {A : Type ℓ} → A → RbacTx → Type 0
  Keeps a t = IsKept t.db

  pub store_role-Post :
      (r : Role) (t : RbacTx)
      → ((after : RbacDb) → save_role r t.db ≡ ok after → IsKept after)
      → Post Keeps (store_role r t)
  store_role-Post r t k =
      bind-Post Keeps Keeps (tries_write (save_role r) t) (λ _. publish_all r.events >> pure r)
        (bind-Post _ Keeps (lift (save_role r t.db) t) (λ db. writes (λ _. db))
          (lift-Post (save_role r t.db) t) (λ db t1 (same, saved). k db saved))
        (λ u t1 h. h)

  store_role-IsKept :
      (s t : RbacTx) (uuid : String) (r changed : Role)
      → IsKept s.db
      → IsFound s uuid r t
      → changed.uuid ≡ r.uuid
      → (r.is_protected ≡ true
          → mentions permission_id s.db r.grants ≡ true
          → (mentions permission_id s.db changed.grants ≡ true) × (changed.is_protected ≡ true))
      → Post Keeps (store_role changed t)
  unfolding IsFound IsBuiltOf
  store_role-IsKept s t uuid r changed h (same, row, there, built) same_uuid k =
      subst (λ x. Post Keeps (store_role changed x)) (sym same)
        (store_role-Post changed s (
          saved_IsKept s uuid row r changed h there built same_uuid (λ q.
            let guarded =
              All-first (λ x. x.id ≡ role_id → x.is_protected ≡ true) (has_role_uuid uuid)
                s.db.roles row there h.guarded in
            k (built.3 ∙ guarded q) (built_mentions s.db row r h built q))))

  granted :
      (s t : RbacTx) (uuid : String) (r : Role) (p : Permission) (granted_by : Option String)
      (now : ℕ)
      → IsKept s.db
      → IsFound s uuid r t
      → Post Keeps (store_role (grant p granted_by now r) t)
  unfolding grant
  granted s t uuid r p granted_by now h found_ = elim (Bool-cases (holds p.name r)) [
    | inl held ↦ rw held (store_role-IsKept s t uuid r r h found_ refl (λ g m. (m, g)))
    | inr free ↦ rw free (
        store_role-IsKept s t uuid r _ h found_ refl (λ g m. (
          rw
              (
                any-append (is_wanted s.db.permissions permission_id) r.grants
                    (record { permission = p; granted_by = granted_by; granted_at = now } ∷ []),
                m,
              )
              refl,
          g,
        )))
  ]

  pub grant_permission_work-IsKept :
      (role_uuid : String) (name : PermissionName) (granted_by : Option String) (now : ℕ)
      (s : RbacTx)
      → IsKept s.db
      → Post Keeps (grant_permission_work role_uuid name granted_by now s)
  grant_permission_work-IsKept role_uuid name granted_by now s h =
      bind-Post (IsFound s role_uuid) Keeps (role_by_uuid role_uuid s)
        (λ r. tries (find_permission_by_name name) >>= λ o.
          or_throw permission_not_found o >>= λ p. store_role (grant p granted_by now r))
        (role_by_uuid-Post role_uuid s)
        (λ r t found_.
          bind-Post _ Keeps (lift (find_permission_by_name name t.db) t)
            (λ o. or_throw permission_not_found o >>= λ p. store_role (grant p granted_by now r))
            (lift-Post (find_permission_by_name name t.db) t)
            (λ o t1 (same1, read).
              bind-Post _ Keeps (or_throw permission_not_found o t1)
                (λ p. store_role (grant p granted_by now r))
                (or_throw-Post permission_not_found o t1)
                (λ p t2 (same2, got).
                  granted s t2 role_uuid r p granted_by now h
                    (subst (IsFound s role_uuid r) (sym (same2 ∙ same1)) found_))))

  revoked :
      (s t : RbacTx) (uuid : String) (r changed : Role) (name : PermissionName) (now : ℕ)
      → IsKept s.db
      → IsFound s uuid r t
      → object_of (revoke name now r) ≡ ok changed
      → Post Keeps (store_role changed t)
  unfolding revoke holds
  revoked s t uuid r changed name now h found_ e = elim (Bool-cases r.is_protected) [
    | inl guarded ↦ cc (rw guarded at e)
    | inr open_ ↦ elim (Bool-cases (holds name r)) [
      | inl held ↦
          let shape = rw (open_, held) at e in
          store_role-IsKept s t uuid r changed h found_ (sym (ap (λ x. x.uuid) (ok_inj shape)))
            (λ g m. cc (open_, g))
      | inr free ↦
          let shape = rw (open_, free) at e in
          store_role-IsKept s t uuid r changed h found_ (sym (ap (λ x. x.uuid) (ok_inj shape)))
            (λ g m. cc (open_, g))
    ]
  ]

  pub revoke_permission_work-IsKept :
      (role_uuid : String) (name : PermissionName) (now : ℕ) (s : RbacTx)
      → IsKept s.db
      → Post Keeps (revoke_permission_work role_uuid name now s)
  revoke_permission_work-IsKept role_uuid name now s h =
      bind-Post (IsFound s role_uuid) Keeps (role_by_uuid role_uuid s)
        (λ r. lift (object_of (revoke name now r)) >>= store_role) (role_by_uuid-Post role_uuid s)
        (λ r t found_.
          bind-Post _ Keeps (lift (object_of (revoke name now r)) t) store_role
            (lift-Post (object_of (revoke name now r)) t)
            (λ changed t1 (same, e).
              revoked s t1 role_uuid r changed name now h
                (subst (IsFound s role_uuid r) (sym same) found_) e))
