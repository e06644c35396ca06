-- ===== src/Rbac/Superadmin.antt =====
-- src/database/seeds/superadmin.seeder.ts and assert-seed-allowed.ts. The `Email` was built before, and
-- the hash of the password, the uuid of a new user and the time of the run are arguments. A plain
-- `Error` is an internal error.
use nest_kit.Rbac.Rows.{RbacDb, RbacStore, RbacTx}
use nest_kit.Base.{
  ℕ, String, ◌≡◌, refl, sym, ap, ◌∙◌, Bool, true, false, not, ◌||◌, Option, none, some, List, [],
  ◌∷◌, ◌=ₛ◌, if◌then◌else◌, any,
}
use nest_kit.Texts.{Text}
use nest_kit.Errors.{AppError, internal, app_error}
use nest_kit.Effects.{
  Result, ok, err, Exec, pure, and_then, lift, ok_inj, state_of, or_throw, object_of, ◌>>=◌, ◌>>◌,
}
use nest_kit.Events.{active, role_assigned_to_user}
use nest_kit.Table.{upsert}
use nest_kit.Transactions.{
  Post, bind-Post, lift-Post, or_throw-Post, committed-Post, with_transaction, publish_all, reads,
  writes,
}
use nest_kit.Identity.User.{User, register, change_status}
use nest_kit.Database.{user_key, user_row, loaded, live_by_email}
use nest_kit.Rbac.Role.{Role}
use nest_kit.Rbac.Names.{role_name_of}
use nest_kit.Rbac.Repository.{find_role_by_name, internal_role_id, assign_role, insert_or_ignore}
use nest_kit.Rbac.Grants.{find_assignments_for_user}
use nest_kit.Rbac.Handlers.{tries, tries_write}

-- `LOCAL_HOSTS`
abbrev pub local_hosts : List String
local_hosts = "localhost" ∷ "127.0.0.1" ∷ "::1" ∷ "postgres" ∷ "db" ∷ []

abbrev pub seed_refused : AppError
seed_refused = app_error internal "INTERNAL_ERROR"

-- `assertSeedAllowed`
unfoldable pub assert_seed_allowed : String → Bool → Result (Unit {0})
assert_seed_allowed host allow_remote =
    if any (λ h. h =ₛ host) local_hosts || allow_remote then ok tt else err seed_refused

pub record SuperAdminSeedReport : Type 0 where
  pub user_uuid : String
  pub user_created : Bool
  pub role_assigned : Bool

-- `ADMIN_ROLE_NAME`
abbrev pub admin_role_name : Text
admin_role_name = 97 ∷ 100 ∷ 109 ∷ 105 ∷ 110 ∷ []

-- `create`: its events are dropped.
unfoldable pub create_superadmin : String → String → String → ℕ → Exec RbacTx User
create_superadmin uuid email password_hash now = do
  user ← lift (object_of (change_status active now (register uuid email password_hash now)))
  writes (λ db. record db { users = upsert user_key (user_row user) db.users })
  pure (record user { events = [] })

abbrev found_or : Option User → Exec RbacTx User → Exec RbacTx (User × Bool)
found_or none create = do user ← create; pure (user, true)
found_or (some user) create = pure (user, false)

abbrev publish_if : Bool → String → Role → Exec RbacTx (Unit {0})
publish_if true user_uuid role =
    publish_all (role_assigned_to_user user_uuid role.uuid role.name ∷ [])
publish_if false user_uuid role = pure tt

-- The rest of the run, for the user and whether it is new
unfoldable pub give_role : ℕ → Role → User × Bool → Exec RbacTx SuperAdminSeedReport
give_role now role (user, created) = do
  held ← tries (find_assignments_for_user user.uuid)
  let role_assigned = not (any (λ a. a.role.uuid =ₛ role.uuid) held)
  tries_write (assign_role user.uuid role none now)
  publish_if role_assigned user.uuid role
  pure (record { user_uuid = user.uuid; user_created = created; role_assigned = role_assigned })

abbrev pub superadmin_work : String → String → String → ℕ → Exec RbacTx SuperAdminSeedReport
superadmin_work uuid email password_hash now = do
  name ← lift (role_name_of admin_role_name)
  found ← tries (find_role_by_name name)
  role ← or_throw seed_refused found
  existing ← reads (λ db. loaded user_row (live_by_email email db.users))
  user ← found_or existing (create_superadmin uuid email password_hash now)
  give_role now role user

-- `run`
unfoldable pub seed_superadmin : String → String → String → ℕ → Exec RbacStore SuperAdminSeedReport
seed_superadmin uuid email password_hash now =
    with_transaction (superadmin_work uuid email password_hash now)

module _ (users : List User) where
  abbrev HasUsers : RbacDb → Type 0
  HasUsers db = db.users ≡ users

  abbrev Keeps {ℓ} : {A : Type ℓ} → A → RbacTx → Type 0
  Keeps a t = HasUsers t.db

  assign_role-HasUsers :
      (user_uuid : String) (role : Role) (by : Option String) (now : ℕ) (db after : RbacDb)
      → HasUsers db
      → assign_role user_uuid role by now db ≡ ok after
      → HasUsers after
  unfolding assign_role
  assign_role-HasUsers user_uuid role by now db after h e = given (internal_role_id role.uuid db) e
    where
      given :
          (r : Result ℕ)
          → and_then r (λ role_id. ok (record db {
            user_roles =
                insert_or_ignore
                  (record {
                    user_uuid = user_uuid;
                    role_id = role_id;
                    assigned_by = by;
                    assigned_at = now;
                  })
                  db.user_roles;
          }))
            ≡ ok after
          → HasUsers after
      given (ok role_id) q = ap (λ x. x.users) (sym (ok_inj q)) ∙ h
      given (err f) q = cc q

  tries_write-Keeps :
      (f : RbacDb → Result RbacDb) (s : RbacTx)
      → ((after : RbacDb) → f s.db ≡ ok after → HasUsers after)
      → Post Keeps (tries_write f s)
  tries_write-Keeps f s k =
      bind-Post _ Keeps (lift (f s.db) s) (λ db. writes (λ _. db)) (lift-Post (f s.db) s)
        (λ db t (same, e). k db e)

  publish_if-Keeps :
      (b : Bool) (user_uuid : String) (role : Role) (s : RbacTx)
      → HasUsers s.db
      → Post Keeps (publish_if b user_uuid role s)
  publish_if-Keeps true user_uuid role s h = h
  publish_if-Keeps false user_uuid role s h = h

  give_role-Keeps :
      (now : ℕ) (role : Role) (user : User × Bool) (s : RbacTx)
      → HasUsers s.db
      → Post Keeps (give_role now role user s)
  unfolding give_role
  give_role-Keeps now role (user, created) s h =
      bind-Post _ Keeps (lift (find_assignments_for_user user.uuid s.db) s) _
        (lift-Post (find_assignments_for_user user.uuid s.db) s)
        (λ held t (same, e).
          bind-Post Keeps Keeps (tries_write (assign_role user.uuid role none now) t) _
            (tries_write-Keeps (assign_role user.uuid role none now) t (λ after q.
              assign_role-HasUsers user.uuid role none now t.db after
                (ap (λ x. x.db.users) same ∙ h) q))
            (λ u t1 h1.
              bind-Post Keeps Keeps
                (publish_if (not (any (λ a. a.role.uuid =ₛ role.uuid) held)) user.uuid role t1) _
                (publish_if-Keeps (not (any (λ a. a.role.uuid =ₛ role.uuid) held)) user.uuid role t1
                  h1)
                (λ u2 t2 h2. h2)))

  work-Keeps :
      (uuid email password_hash : String) (now : ℕ) (user : User) (s : RbacTx)
      → HasUsers s.db
      → live_by_email email users ≡ some user
      → Post Keeps (superadmin_work uuid email password_hash now s)
  work-Keeps uuid email password_hash now user s h there =
      bind-Post _ Keeps (lift (role_name_of admin_role_name) s) _
        (lift-Post (role_name_of admin_role_name) s)
        (λ name t (same, e).
          bind-Post _ Keeps (lift (find_role_by_name name t.db) t) _
            (lift-Post (find_role_by_name name t.db) t)
            (λ found t1 (same1, e1).
              bind-Post _ Keeps (or_throw seed_refused found t1) _
                (or_throw-Post seed_refused found t1)
                (λ role t2 (same2, e2).
                  let kept : HasUsers t2.db = ap (λ x. x.db.users) (same2 ∙ (same1 ∙ same)) ∙ h in
                  let known = ap (live_by_email email) kept ∙ there in
                  rw known (give_role-Keeps now role (user_row user, false) t2 kept))))

-- A run for the email of a live user, whatever comes of it, leaves every user as they were: a password
-- that was changed since stays.
pub seed_superadmin-users :
    (uuid email password_hash : String) (now : ℕ) (user : User) (w : RbacStore)
    → live_by_email email w.db.users ≡ some user
    → (state_of (seed_superadmin uuid email password_hash now w)).db.users ≡ w.db.users
unfolding seed_superadmin
seed_superadmin-users uuid email password_hash now user w there =
    committed-Post (HasUsers w.db.users) (superadmin_work uuid email password_hash now) w refl (
      work-Keeps w.db.users uuid email password_hash now user (record { db = w.db; events = [] })
        refl there)
