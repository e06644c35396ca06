-- ===== src/Owner.antt =====
-- src/modules/owner/domain/owner.ts. Addresses are lists of UTF-16 code units; trimming an address
-- and collapsing its white space, which the platform does, is an argument. A date of birth is the
-- time of a `DateOfBirth` that was built before.
pub mod DateOfBirth
pub mod History
pub mod Handlers
mod Tests
use nest_kit.Base.{
  ℕ, String, Bool, true, false, ◌&&◌, List, [], ◌∷◌, ◌++◌, ltb, ◌==◌, if◌then◌else◌, length,
}
use nest_kit.Errors.{AppError, not_found, conflict, app_error, with_field, validation}
use nest_kit.Effects.{Exec, Result, ok, err, returned, threw}
use nest_kit.Events.{
  DomainEvent, owner_registered, owner_address_changed, owner_deactivated, owner_reactivated,
}

pub data OwnerStatus : Type 0 where
  active inactive : OwnerStatus

pub record Owner : Type 0 where
  pub uuid : String
  pub user_uuid : String
  pub address : List ℕ
  pub date_of_birth : ℕ
  pub status : OwnerStatus
  pub created_at : ℕ
  pub updated_at : ℕ
  pub events : List DomainEvent

abbrev pub owner_not_found : AppError
owner_not_found = app_error not_found "OWNER_NOT_FOUND"

abbrev pub owner_already_registered : AppError
owner_already_registered = with_field (app_error conflict "OWNER_ALREADY_REGISTERED") "userUuid"

abbrev pub owner_inactive : AppError
owner_inactive = app_error conflict "OWNER_INACTIVE"

abbrev pub is_active : OwnerStatus → Bool
is_active active = true
is_active inactive = false

unfoldable pub normalise_address : (List ℕ → List ℕ) → List ℕ → Result (List ℕ)
normalise_address collapse address =
    let trimmed = collapse address in
    if length trimmed == 0
    then err (validation "address")
    else if ltb 512 (length trimmed)
    then err (validation "address")
    else ok trimmed

abbrev pub registered : String → String → ℕ → ℕ → Result (List ℕ) → Result Owner
registered uuid user_uuid date_of_birth now (err e) = err e
registered uuid user_uuid date_of_birth now (ok address) = ok (record {
  uuid = uuid;
  user_uuid = user_uuid;
  address = address;
  date_of_birth = date_of_birth;
  status = active;
  created_at = now;
  updated_at = now;
  events = owner_registered uuid user_uuid ∷ [];
})

-- `Owner.register`; the uuid that `uuidv7()` returns is an argument.
unfoldable pub register : (List ℕ → List ℕ) → String → String → List ℕ → ℕ → ℕ → Result Owner
register collapse uuid user_uuid address date_of_birth now =
    registered uuid user_uuid date_of_birth now (normalise_address collapse address)

abbrev pub same_units : List ℕ → List ℕ → Bool
same_units [] [] = true
same_units [] (x ∷ xs) = false
same_units (x ∷ xs) [] = false
same_units (x ∷ xs) (y ∷ ys) = (x == y) && same_units xs ys

abbrev pub moved : ℕ → Result (List ℕ) → Exec Owner (Unit {0})
moved now (err e) o = threw e o
moved now (ok next) o =
    if same_units next o.address
    then returned tt o
    else returned tt (record o {
      address = next;
      updated_at = now;
      events = o.events ++ owner_address_changed o.uuid next ∷ [];
    })

unfoldable pub change_address : (List ℕ → List ℕ) → List ℕ → ℕ → Exec Owner (Unit {0})
change_address collapse address now o =
    if is_active o.status
    then moved now (normalise_address collapse address) o
    else threw owner_inactive o

unfoldable pub deactivate : String → ℕ → Owner → Owner
deactivate reason now o =
    if is_active o.status
    then record o {
      status = inactive;
      updated_at = now;
      events = o.events ++ owner_deactivated o.uuid reason ∷ [];
    }
    else o

unfoldable pub reactivate : ℕ → Owner → Owner
reactivate now o = if is_active o.status then o else record o {
  status = active;
  updated_at = now;
  events = o.events ++ owner_reactivated o.uuid ∷ [];
}
