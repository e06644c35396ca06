-- ===== src/Rbac/Commands.antt =====
-- The commands of src/modules/rbac one after the other, in any order.
use nest_kit.Effects.{Outcome, Result, ok, err, state_of, lift, ◌>>=◌}
use nest_kit.Rbac.Repository.{is_link, has_role_uuid}
use nest_kit.Base.{ℕ, String, ◌≡◌, Option, none, some, []}
use nest_kit.Texts.{Text}
use nest_kit.Queries.{first}
use nest_kit.Transactions.{Post, committed-Post, with_transaction}
use nest_kit.Rbac.Names.{permission_name_of, role_name_of}
use nest_kit.Rbac.Rows.{RolePermission, RbacStore, RbacTx}
use nest_kit.Rbac.Lockout.{IsLinked}
use nest_kit.Rbac.Works.{grant_permission_work-IsKept, revoke_permission_work-IsKept}
use nest_kit.Rbac.Creations.{
  create_permission_work-IsKept, create_role_work-IsKept, assign_role_work-IsKept,
  unassign_role_work-IsKept,
}
use nest_kit.Rbac.Handlers.{
  create_permission_handler, create_role_handler, grant_permission, revoke_permission,
  assign_role_handler, unassign_role_handler,
}

-- One command. The uuid of a new role is of no role that is stored.
pub data Step (w : RbacStore) : RbacStore → Type 0 where
  creates_permission :
      (uuid : String) (raw description : Text) (now : ℕ)
      → Step w (state_of (create_permission_handler uuid raw description now w))
  creates_role :
      (uuid : String) (raw description : Text) (now : ℕ)
      → first (has_role_uuid uuid) w.db.roles ≡ none
      → Step w (state_of (create_role_handler uuid raw description now w))
  grants :
      (role_uuid : String) (raw : Text) (granted_by : Option String) (now : ℕ)
      → Step w (state_of (grant_permission role_uuid raw granted_by now w))
  revokes :
      (role_uuid : String) (raw : Text) (now : ℕ)
      → Step w (state_of (revoke_permission role_uuid raw now w))
  assigns :
      (user_uuid role_uuid : String) (assigned_by : Option String) (now : ℕ)
      → Step w (state_of (assign_role_handler user_uuid role_uuid assigned_by now w))
  unassigns :
      (user_uuid role_uuid : String)
      → Step w (state_of (unassign_role_handler user_uuid role_uuid w))

pub data Reach (w : RbacStore) : RbacStore → Type 0 where
  here : Reach w w
  next : {u v : RbacStore} → Reach w u → Step u v → Reach w v

module _ (role_id permission_id : ℕ) (link : RolePermission) where
  abbrev IsKeptIn : RbacStore → Type 0
  IsKeptIn w = IsLinked role_id permission_id link w.db

  -- A handler that reads a name and then opens its transaction
  named_IsKept {ℓ} :
      {A N : Type ℓ} (o : Result N) (work : N → RbacTx → Outcome RbacTx A) (w : RbacStore)
      → IsKeptIn w
      → ((n : N)
          → Post
              (λ _ t. IsLinked role_id permission_id link t.db)
              (work n (record { db = w.db; events = [] })))
      → IsKeptIn (state_of ((lift o >>= λ n. with_transaction (work n)) w))
  named_IsKept (ok n) work w h k =
      committed-Post (IsLinked role_id permission_id link) (work n) w h (k n)
  named_IsKept (err e) work w h k = h

  Step-IsLinked : {u v : RbacStore} → Step u v → IsKeptIn u → IsKeptIn v
  unfolding create_permission_handler create_role_handler grant_permission revoke_permission
      assign_role_handler unassign_role_handler
  Step-IsLinked {u} (creates_permission uuid raw description now) h =
      named_IsKept (permission_name_of raw) _ u h (λ name.
        create_permission_work-IsKept role_id permission_id link uuid name description now _ h)
  Step-IsLinked {u} (creates_role uuid raw description now fresh) h =
      named_IsKept (role_name_of raw) _ u h (λ name.
        create_role_work-IsKept role_id permission_id link uuid name description now _ fresh h)
  Step-IsLinked {u} (grants role_uuid raw granted_by now) h =
      named_IsKept (permission_name_of raw) _ u h (λ name.
        grant_permission_work-IsKept role_id permission_id link role_uuid name granted_by now _ h)
  Step-IsLinked {u} (revokes role_uuid raw now) h =
      named_IsKept (permission_name_of raw) _ u h
        (λ name. revoke_permission_work-IsKept role_id permission_id link role_uuid name now _ h)
  Step-IsLinked {u} (assigns user_uuid role_uuid assigned_by now) h =
      committed-Post (IsLinked role_id permission_id link) _ u h
        (assign_role_work-IsKept role_id permission_id link user_uuid role_uuid assigned_by now _ h)
  Step-IsLinked {u} (unassigns user_uuid role_uuid) h =
      committed-Post (IsLinked role_id permission_id link) _ u h
        (unassign_role_work-IsKept role_id permission_id link user_uuid role_uuid _ h)

  Reach-IsLinked : {u v : RbacStore} → Reach u v → IsKeptIn u → IsKeptIn v
  Reach-IsLinked here h = h
  Reach-IsLinked (next r s) h = Step-IsLinked s (Reach-IsLinked r h)

  -- Whatever commands are carried out, in whatever order, a permission that a protected role was
  -- granted stays granted, with who granted it and when: the row of the junction stays as it is. At
  -- the start the role is protected in every row of its id and older than the next id, the
  -- permission is in its table, and a lookup by its uuid gives its id.
  pub Reach-linked :
      (u v : RbacStore)
      → Reach u v
      → IsLinked role_id permission_id link u.db
      → first (is_link role_id permission_id) v.db.role_permissions ≡ some link
  Reach-linked u v r h = (Reach-IsLinked r h).linked
