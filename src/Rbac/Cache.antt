-- ===== src/Rbac/Cache.antt =====
-- src/modules/rbac/infrastructure/cache/redis-access-control.ts and the handlers of
-- src/modules/rbac/infrastructure/event-handlers/invalidate-grants.handler.ts. Of Redis: `GET`, `SET`
-- with `EX`, and `DEL`. Whether a call reached it is an argument, times are in seconds, and an entry
-- of another shape is one that does not parse.
pub mod Freshness
use nest_kit.Base.{
  ℕ, ◌+◌, String, Bool, not, ◌&&◌, Option, none, some, List, [], ◌∷◌, ◌=ₛ◌, ltb, if◌then◌else◌, any,
}
use nest_kit.Queries.{first, select}
use nest_kit.Events.{
  DomainEvent, role_permission_granted, role_permission_revoked, role_assigned_to_user,
  role_unassigned_from_user,
}
use nest_kit.Rbac.Rows.{RbacDb}
use nest_kit.Rbac.Grants.{Grants, find_user_uuids_for_role}

pub record Entry : Type 0 where
  pub user_uuid : String
  pub parsed : Option Grants
  pub expires_at : ℕ

abbrev pub is_live : String → ℕ → Entry → Bool
is_live user_uuid now e = e.user_uuid =ₛ user_uuid && ltb now e.expires_at

-- `JSON.parse` of what `GET` gave
abbrev pub parse_entry : Option Entry → Option Grants
parse_entry none = none
parse_entry (some e) = e.parsed

-- `read`
unfoldable pub read : Bool → String → ℕ → List Entry → Option Grants
read reached user_uuid now entries =
    if reached then parse_entry (first (is_live user_uuid now) entries) else none

abbrev pub is_entry_of : String → Entry → Bool
is_entry_of user_uuid e = e.user_uuid =ₛ user_uuid

-- `write`, at the time `now`
unfoldable pub write : Bool → ℕ → String → Grants → ℕ → List Entry → List Entry
write reached ttl_seconds user_uuid grants now entries =
    if reached
    then record { user_uuid = user_uuid; parsed = some grants; expires_at = now + ttl_seconds }
      ∷ select (λ e. not (is_entry_of user_uuid e)) entries
    else entries

-- How one call of `grantsFor` went: whether its two calls of Redis reached it, and when it read the
-- database and wrote to Redis.
pub record Course : Type 0 where
  pub get_reached : Bool
  pub set_reached : Bool
  pub now : ℕ
  pub later : ℕ

abbrev answered : Bool → ℕ → String → ℕ → Grants → List Entry → Option Grants → Grants × List Entry
answered set_reached ttl_seconds user_uuid later grants entries none =
    (grants, write set_reached ttl_seconds user_uuid grants later entries)
answered set_reached ttl_seconds user_uuid later grants entries (some cached) = (cached, entries)

-- `grantsFor`, where `stored` is the answer of the repository at the time of the call
unfoldable pub cached_grants_for : ℕ → Course → String → Grants → List Entry → Grants × List Entry
cached_grants_for ttl_seconds c user_uuid stored entries =
    answered c.set_reached ttl_seconds user_uuid c.later stored entries
      (read c.get_reached user_uuid c.now entries)

abbrev pub names : List String → Entry → Bool
names user_uuids e = any (λ u. e.user_uuid =ₛ u) user_uuids

-- `invalidate`
unfoldable pub invalidate : Bool → List String → List Entry → List Entry
invalidate reached [] entries = entries
invalidate reached (u ∷ us) entries =
    if reached then select (λ e. not (names (u ∷ us) e)) entries else entries

-- `InvalidateGrantsOnAssignment.handle` and `InvalidateGrantsOnRoleChange.handle`
unfoldable pub on_event : Bool → RbacDb → DomainEvent → List Entry → List Entry
on_event reached db (role_assigned_to_user user_uuid role_uuid role_name) entries =
    invalidate reached (user_uuid ∷ []) entries
on_event reached db (role_unassigned_from_user user_uuid role_uuid role_name) entries =
    invalidate reached (user_uuid ∷ []) entries
on_event reached db (role_permission_granted role_uuid permission_name) entries =
    invalidate reached (find_user_uuids_for_role role_uuid db) entries
on_event reached db (role_permission_revoked role_uuid permission_name) entries =
    invalidate reached (find_user_uuids_for_role role_uuid db) entries
on_event reached db event entries = entries
