-- ===== src/Rbac/Creations.antt =====
-- What the creations and the assignments of src/modules/rbac keep of the junction of roles and
-- permissions.
use nest_kit.Rbac.Repository.{
  has_role_uuid, internal_role_id, find_role_by_name, find_permission_by_name, save_permission,
  assign_role, unassign_role,
}
use nest_kit.Rbac.{role_already_exists, permission_already_exists}
use nest_kit.Effects.{◌>>◌, pure, ok_inj, Result, ok, err, and_then_ok, lift, ◌>>=◌, throw_if}
use nest_kit.Transactions.{writes, publish_all, reads, Post, bind-Post, lift-Post, throw_if-Post}
use nest_kit.Events.{DomainEvent, role_assigned_to_user, role_unassigned_from_user}
use nest_kit.Rbac.Handlers.{
  refuses_roles, user_does_not_exist, find_user_row, tries_write, store_role, role_by_uuid,
  create_permission_work, create_role_work, assign_role_work, unassign_role_work,
}
use nest_kit.Base.{ℕ, String, ◌≡◌, refl, sym, ◌∙◌, subst, false, Option, none, List, [], ◌∷◌}
use nest_kit.Texts.{Text}
use nest_kit.Queries.{first, is_some}
use nest_kit.Rbac.Names.{PermissionName}
use nest_kit.Rbac.Role.{Role, create_role, create_permission}
use nest_kit.Rbac.Rows.{RolePermission, UserRole, RbacDb, RbacTx}
use nest_kit.Rbac.Lockout.{IsLinked, save_permission-IsLinked, save_role-IsLinked}
use nest_kit.Rbac.Works.{IsFound, role_by_uuid-Post, store_role-Post}

module _ (role_id permission_id : ℕ) (link : RolePermission) where
  abbrev IsKept : RbacDb → Type 0
  IsKept = IsLinked role_id permission_id link

  -- What a computation that returns keeps.
  abbrev Keeps {ℓ} : {A : Type ℓ} → A → RbacTx → Type 0
  Keeps a t = IsKept t.db

  pub create_permission_work-IsKept :
      (uuid : String) (name : PermissionName) (description : Text) (now : ℕ) (s : RbacTx)
      → IsKept s.db
      → Post Keeps (create_permission_work uuid name description now s)
  create_permission_work-IsKept uuid name description now s h =
      let p = create_permission uuid name description now in
      bind-Post _ Keeps (lift (find_permission_by_name name s.db) s)
        (λ o.
          throw_if (is_some o) permission_already_exists
          >> (writes (save_permission p) >> (publish_all p.events >> pure p)))
        (lift-Post (find_permission_by_name name s.db) s)
        (λ o t (same, read).
          bind-Post _ Keeps (throw_if (is_some o) permission_already_exists t)
            (λ _. writes (save_permission p) >> (publish_all p.events >> pure p))
            (throw_if-Post (is_some o) permission_already_exists t)
            (λ _ t1 (same1, free).
              save_permission-IsLinked role_id permission_id link p t1.db
                (subst (λ x. IsKept x.db) (sym (same1 ∙ same)) h)))

  pub create_role_work-IsKept :
      (uuid : String) (name description : Text) (now : ℕ) (s : RbacTx)
      → first (has_role_uuid uuid) s.db.roles ≡ none
      → IsKept s.db
      → Post Keeps (create_role_work uuid name description now s)
  unfolding create_role
  create_role_work-IsKept uuid name description now s fresh h =
      bind-Post _ Keeps (lift (find_role_by_name name s.db) s)
        (λ o.
          throw_if (is_some o) role_already_exists
          >> store_role (create_role uuid false name description now))
        (lift-Post (find_role_by_name name s.db) s)
        (λ o t (same, read).
          bind-Post _ Keeps (throw_if (is_some o) role_already_exists t)
            (λ _. store_role (create_role uuid false name description now))
            (throw_if-Post (is_some o) role_already_exists t)
            (λ _ t1 (same1, free).
              subst (λ x. Post Keeps (store_role (create_role uuid false name description now) x))
                (sym (same1 ∙ same))
                (store_role-Post role_id permission_id link
                  (create_role uuid false name description now) s
                  (λ after saved.
                    save_role-IsLinked role_id permission_id link
                      (create_role uuid false name description now) s.db after h
                      (λ row there q. cc (fresh, there)) saved))))

  -- Who holds a role does not matter to the junction of roles and permissions.
  user_roles-IsKept :
      (db : RbacDb) (links : List UserRole) → IsKept db → IsKept (record db { user_roles = links })
  user_roles-IsKept db links h = record {
    linked = h.linked;
    guarded = h.guarded;
    older = h.older;
    known = h.known;
  }

  assign_role-IsKept :
      (user_uuid : String) (r : Role) (assigned_by : Option String) (now : ℕ) (db db' : RbacDb)
      → assign_role user_uuid r assigned_by now db ≡ ok db'
      → IsKept db
      → IsKept db'
  unfolding assign_role
  assign_role-IsKept user_uuid r assigned_by now db db' e h =
      let (id, read, built) = and_then_ok (internal_role_id r.uuid db) _ db' e in
      subst IsKept (ok_inj built) (user_roles-IsKept db _ h)

  unassign_role-IsKept :
      (user_uuid : String) (r : Role) (db db' : RbacDb)
      → unassign_role user_uuid r db ≡ ok db'
      → IsKept db
      → IsKept db'
  unfolding unassign_role
  unassign_role-IsKept user_uuid r db db' e h =
      let (id, read, built) = and_then_ok (internal_role_id r.uuid db) _ db' e in
      subst IsKept (ok_inj built) (user_roles-IsKept db _ h)

  tries_write-IsKept :
      (f : RbacDb → Result RbacDb) (t : RbacTx) (events : List DomainEvent)
      → ((db : RbacDb) → f t.db ≡ ok db → IsKept db)
      → Post Keeps ((tries_write f >> publish_all events) t)
  tries_write-IsKept f t events k = ends (f t.db) k
    where
      ends :
          (o : Result RbacDb)
          → ((db : RbacDb) → o ≡ ok db → IsKept db)
          → Post Keeps (((lift o >>= λ db. writes (λ _. db)) >> publish_all events) t)
      ends (ok db) kept = kept db refl
      ends (err e) kept = tt

  pub assign_role_work-IsKept :
      (user_uuid role_uuid : String) (assigned_by : Option String) (now : ℕ) (s : RbacTx)
      → IsKept s.db
      → Post Keeps (assign_role_work user_uuid role_uuid assigned_by now s)
  unfolding IsFound
  assign_role_work-IsKept user_uuid role_uuid assigned_by now s h =
      let wrote = λ (r : Role).
        tries_write (assign_role user_uuid r assigned_by now)
        >> publish_all (role_assigned_to_user user_uuid r.uuid r.name ∷ []) in
      bind-Post (IsFound s role_uuid) Keeps (role_by_uuid role_uuid s)
        (λ r. reads (find_user_row user_uuid) >>= λ u.
          throw_if (refuses_roles u) user_does_not_exist >> wrote r)
        (role_by_uuid-Post role_uuid s)
        (λ r t found_.
          let kept = subst (λ x. IsKept x.db) (sym found_.0) h in
          bind-Post _ Keeps
            (throw_if (refuses_roles (find_user_row user_uuid t.db)) user_does_not_exist t)
            (λ _. wrote r)
            (throw_if-Post (refuses_roles (find_user_row user_uuid t.db)) user_does_not_exist t)
            (λ _ t1 (same, live).
              tries_write-IsKept (assign_role user_uuid r assigned_by now) t1 _ (λ db' e.
                assign_role-IsKept user_uuid r assigned_by now t1.db db' e
                  (subst (λ x. IsKept x.db) (sym same) kept))))

  pub unassign_role_work-IsKept :
      (user_uuid role_uuid : String) (s : RbacTx)
      → IsKept s.db
      → Post Keeps (unassign_role_work user_uuid role_uuid s)
  unfolding IsFound
  unassign_role_work-IsKept user_uuid role_uuid s h =
      bind-Post (IsFound s role_uuid) Keeps (role_by_uuid role_uuid s)
        (λ r.
          tries_write (unassign_role user_uuid r)
          >> publish_all (role_unassigned_from_user user_uuid r.uuid r.name ∷ []))
        (role_by_uuid-Post role_uuid s)
        (λ r t found_. tries_write-IsKept (unassign_role user_uuid r) t _ (λ db' e.
          unassign_role-IsKept user_uuid r t.db db' e (subst (λ x. IsKept x.db) (sym found_.0) h)))
