-- ===== src/Events.antt =====
-- The domain events of the contexts, events/index.ts of each src/modules/*/domain. The envelope of
-- an event (version, key, time) is left out.
use nest_kit.Base.{ℕ, String, List}

pub data UserStatus : Type 0 where
  pending active suspended : UserStatus

pub data DomainEvent : Type 0 where
  user_registered : (user_uuid email : String) → DomainEvent
  user_email_changed : (user_uuid old_email new_email : String) → DomainEvent
  user_status_changed : (user_uuid : String) (old_status new_status : UserStatus) → DomainEvent
  user_deleted : (user_uuid : String) → DomainEvent
  user_logged_in user_logged_out : (user_uuid session_uuid : String) → DomainEvent
  session_revoked : (session_uuid user_uuid : String) → DomainEvent
  owner_registered : (owner_uuid user_uuid : String) → DomainEvent
  owner_address_changed : (owner_uuid : String) (address : List ℕ) → DomainEvent
  owner_deactivated : (owner_uuid : String) (reason : String) → DomainEvent
  owner_reactivated : (owner_uuid : String) → DomainEvent
  car_registered : (car_uuid owner_uuid license_plate : String) → DomainEvent
  car_transferred : (car_uuid from_owner_uuid to_owner_uuid : String) → DomainEvent
  car_repriced : (car_uuid amount currency : String) → DomainEvent
  car_retired : (car_uuid reason : String) → DomainEvent
  permission_created : (permission_uuid : String) (permission_name : List ℕ) → DomainEvent
  role_created : (role_uuid : String) (role_name : List ℕ) → DomainEvent
  role_permission_granted role_permission_revoked :
      (role_uuid : String) (permission_name : List ℕ) → DomainEvent
  role_assigned_to_user role_unassigned_from_user :
      (user_uuid role_uuid : String) (role_name : List ℕ) → DomainEvent
