-- ===== src/Rbac/Seeder.antt =====
-- src/database/seeds/rbac.seeder.ts. The catalogue of rbac.catalog.ts is an argument, each entry with
-- the uuid that a new permission or role would get. A plain `Error` is an internal
-- error, the clock gives one time for a run, and an entry `role -> permission` of the report is a pair.
use nest_kit.Base.{
  ℕ, String, ◌≡◌, sym, ap, ◌∙◌, inl, inr, Bool, true, false, not, ◌||◌, Option, none, some, List,
  [], ◌∷◌, ◌++◌, arith, Option-cases, any, or_false,
}
use nest_kit.Texts.{Text, same}
use nest_kit.Queries.{first, found}
use nest_kit.Errors.{AppError, internal, app_error}
use nest_kit.Rbac.Role.History.{holds-grant}
use nest_kit.Effects.{returned, Exec, pure, lift, or_throw, ◌>>=◌, ◌>>◌}
use nest_kit.Transactions.{with_transaction, publish_all, writes}
use nest_kit.Rbac.Names.{value, PermissionName, permission_name_of, role_name_of}
use nest_kit.Rbac.Role.{Permission, Role, create_permission, create_role, holds, grant}
use nest_kit.Rbac.Rows.{RbacStore, RbacTx}
use nest_kit.Rbac.Repository.{
  find_permission_by_name, save_permission, find_role_by_name, save_role,
}
use nest_kit.Rbac.Handlers.{tries, tries_write}

pub record SeedPermission : Type 0 where
  pub uuid : String
  pub name : Text
  pub description : Text

pub record SeedRole : Type 0 where
  pub uuid : String
  pub name : Text
  pub description : Text
  pub permissions : List Text
  pub is_protected : Bool

pub record RbacSeedReport : Type 0 where
  pub permissions_created : List Text
  pub roles_created : List Text
  pub permissions_granted : List (Text × Text)

-- The permissions by the names of the catalogue; the entry set last comes first.
abbrev pub Catalogue : Type 0
Catalogue = List (Text × Permission)

abbrev pub get : Text → Catalogue → Option Permission
get name catalogue = found (λ e. e.1) (first (λ e. same e.0 name) catalogue)

abbrev created_permission : SeedPermission → PermissionName → ℕ → Exec RbacTx (Permission × Bool)
created_permission wanted name now = do
  let created = create_permission wanted.uuid name wanted.description now
  writes (save_permission created)
  publish_all created.events
  pure (created, true)

abbrev kept_permission :
    Option Permission → Exec RbacTx (Permission × Bool) → Exec RbacTx (Permission × Bool)
kept_permission none create = create
kept_permission (some existing) create = pure (existing, false)

-- One round of `seedPermissions`: the permission, and whether it is new
unfoldable pub seed_permission : ℕ → SeedPermission → Exec RbacTx (Permission × Bool)
seed_permission now wanted = do
  name ← lift (permission_name_of wanted.name)
  existing ← tries (find_permission_by_name name)
  kept_permission existing (created_permission wanted name now)

abbrev reported {ℓ} : {A : Type ℓ} → Bool → A → List A → List A
reported true a report = report ++ a ∷ []
reported false a report = report

-- `seedPermissions`
unfoldable pub seed_permissions :
    ℕ → List SeedPermission → Catalogue → List Text → Exec RbacTx (Catalogue × List Text)
seed_permissions now [] catalogue created = pure (catalogue, created)
seed_permissions now (wanted ∷ rest) catalogue created = do
  (permission, new) ← seed_permission now wanted
  seed_permissions now rest ((wanted.name, permission) ∷ catalogue)
      (reported new wanted.name created)

abbrev pub not_in_catalogue : AppError
not_in_catalogue = app_error internal "INTERNAL_ERROR"

-- The loop over the permissions of one role
unfoldable pub seed_grants :
    Catalogue
    → ℕ
    → Text
    → List Text
    → Role
    → List (Text × Text)
    → Exec RbacTx (Role × List (Text × Text))
seed_grants catalogue now role_name [] role granted = pure (role, granted)
seed_grants catalogue now role_name (wanted ∷ rest) role granted = do
  permission ← or_throw not_in_catalogue (get wanted catalogue)
  seed_grants catalogue now role_name rest (grant permission none now role)
      (reported (not (holds permission.name role)) (role_name, wanted) granted)

abbrev role_or_new : SeedRole → Text → ℕ → Option Role → Role × Bool
role_or_new wanted name now none =
    (create_role wanted.uuid wanted.is_protected name wanted.description now, true)
role_or_new wanted name now (some role) = (role, false)

-- `seedRoles`
unfoldable pub seed_roles :
    Catalogue → ℕ → List SeedRole → RbacSeedReport → Exec RbacTx RbacSeedReport
seed_roles catalogue now [] report = pure report
seed_roles catalogue now (wanted ∷ rest) report = do
  name ← lift (role_name_of wanted.name)
  existing ← tries (find_role_by_name name)
  let (role, new) = role_or_new wanted name now existing
  (seeded, granted) ←
      seed_grants catalogue now wanted.name wanted.permissions role report.permissions_granted
  tries_write (save_role seeded)
  publish_all seeded.events
  seed_roles catalogue now rest (record report {
    roles_created = reported new wanted.name report.roles_created;
    permissions_granted = granted;
  })

-- `run`
unfoldable pub seed : ℕ → List SeedPermission → List SeedRole → Exec RbacStore RbacSeedReport
seed now permissions roles = with_transaction (do
  (catalogue, created) ← seed_permissions now permissions [] []
  seed_roles catalogue now roles
      (record { permissions_created = created; roles_created = []; permissions_granted = [] }))

or_assoc : (a b c : Bool) → ((a || b) || c) ≡ (a || (b || c))
or_assoc a b c = ground arith

-- Whether the catalogue has a permission of the name under a name that is wanted
abbrev pub gives : PermissionName → Option Permission → Bool
gives name none = false
gives name (some p) = same (value p.name) (value name)

-- When the loop over the permissions of a role returns, the role holds exactly what it held before and
-- the permissions of the catalogue that are wanted for it: the seed takes nothing away.
pub seed_grants-holds :
    (catalogue : Catalogue) (now : ℕ) (role_name : Text) (wanted : List Text) (role seeded : Role)
    (before after : List (Text × Text)) (s t : RbacTx) (name : PermissionName)
    → seed_grants catalogue now role_name wanted role before s ≡ returned (seeded, after) t
    → holds name seeded ≡ (holds name role || any (λ w. gives name (get w catalogue)) wanted)
unfolding seed_grants
seed_grants-holds catalogue now role_name [] role seeded before after s t name e =
    let same_role : role ≡ seeded = cc e in
    ap (holds name) (sym same_role) ∙ sym (or_false (holds name role))
seed_grants-holds catalogue now role_name (w ∷ wanted) role seeded before after s t name e =
    elim (Option-cases (get w catalogue)) [
      | inl gone ↦ cc (rw (gone, ◌>>=◌) at e)
      | inr (p, there) ↦
          rw
            (
              seed_grants-holds catalogue now role_name wanted (grant p none now role) seeded
                  (reported (not (holds p.name role)) (role_name, w) before) after s t name
                  (rw (there, ◌>>=◌) at e),
              holds-grant name p none now role,
              there,
            )
            (or_assoc (holds name role) (same (value p.name) (value name)) _)
    ]
