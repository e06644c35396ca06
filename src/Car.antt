-- ===== src/Car.antt =====
-- src/modules/car/domain/car.ts and src/modules/car/domain/errors.ts. Make, model and colour are
-- lists of UTF-16 code units; trimming and collapsing their white space, which the platform does, is
-- an argument. A plate is the text of a `LicensePlate` that was built before.
pub mod Values
pub mod History
pub mod Handlers
mod Tests
use nest_kit.Base.{
  ℕ, ◌+◌, String, Bool, true, false, ◌&&◌, ◌||◌, List, [], ◌∷◌, ◌++◌, ◌=ₛ◌, ltb, ◌==◌,
  if◌then◌else◌, length,
}
use nest_kit.Errors.{AppError, not_found, conflict, invalid, app_error, with_field, validation}
use nest_kit.Effects.{Exec, Result, ok, err, returned, threw}
use nest_kit.Events.{DomainEvent, car_registered, car_transferred, car_repriced, car_retired}

pub data CarStatus : Type 0 where
  active retired : CarStatus

-- `Money`, already built and in its normal form.
pub record Money : Type 0 where
  pub amount : String
  pub currency : String

abbrev pub same_money : Money → Money → Bool
same_money a b = a.amount =ₛ b.amount && a.currency =ₛ b.currency

pub record Car : Type 0 where
  pub uuid : String
  pub owner_uuid : String
  pub make : List ℕ
  pub model : List ℕ
  pub year : ℕ
  pub colour : List ℕ
  pub license_plate : String
  pub price : Money
  pub status : CarStatus
  pub created_at : ℕ
  pub updated_at : ℕ
  pub events : List DomainEvent

-- The input of `Car.register`, with the UTC year of its `now`.
pub record Registration : Type 0 where
  pub owner_uuid : String
  pub make : List ℕ
  pub model : List ℕ
  pub year : ℕ
  pub colour : List ℕ
  pub license_plate : String
  pub price : Money
  pub now : ℕ
  pub current_year : ℕ

abbrev pub car_not_found : AppError
car_not_found = app_error not_found "CAR_NOT_FOUND"

abbrev pub plate_already_registered : AppError
plate_already_registered = with_field (app_error conflict "PLATE_ALREADY_REGISTERED") "licensePlate"

abbrev pub car_retired_error : AppError
car_retired_error = app_error conflict "CAR_RETIRED"

abbrev pub same_owner_transfer : AppError
same_owner_transfer = with_field (app_error invalid "SAME_OWNER_TRANSFER") "ownerUuid"

abbrev pub owner_not_accepting_cars : AppError
owner_not_accepting_cars = with_field (app_error invalid "OWNER_NOT_ACCEPTING_CARS") "ownerUuid"

abbrev pub is_retired : CarStatus → Bool
is_retired active = false
is_retired retired = true

unfoldable pub require_text : (List ℕ → List ℕ) → List ℕ → String → ℕ → Result (List ℕ)
require_text collapse value field most =
    let trimmed = collapse value in
    if length trimmed == 0
    then err (validation field)
    else if ltb most (length trimmed)
    then err (validation field)
    else ok trimmed

-- The year is an integer here; `Number.isInteger` has nothing to refuse.
unfoldable pub assert_year : ℕ → ℕ → Result ℕ
assert_year year current_year =
    if ltb year 1886 || ltb (current_year + 1) year then err (validation "year") else ok year

infixl 5 ◌>>=ᵣ◌
abbrev ◌>>=ᵣ◌ {ℓ κ} : {A : Type ℓ} {B : Type κ} → Result A → (A → Result B) → Result B
err e >>=ᵣ f = err e
ok a >>=ᵣ f = f a

unfoldable pub register : (List ℕ → List ℕ) → String → Registration → Result Car
register collapse uuid input = assert_year input.year input.current_year >>=ᵣ λ year.
    require_text collapse input.make "make" 64 >>=ᵣ λ make.
    require_text collapse input.model "model" 64 >>=ᵣ λ model.
    require_text collapse input.colour "colour" 32 >>=ᵣ λ colour. ok (record {
      uuid = uuid;
      owner_uuid = input.owner_uuid;
      make = make;
      model = model;
      year = year;
      colour = colour;
      license_plate = input.license_plate;
      price = input.price;
      status = active;
      created_at = input.now;
      updated_at = input.now;
      events = car_registered uuid input.owner_uuid input.license_plate ∷ [];
    })

unfoldable pub transfer_to : String → ℕ → Exec Car (Unit {0})
transfer_to new_owner_uuid now c =
    if is_retired c.status
    then threw car_retired_error c
    else if new_owner_uuid =ₛ c.owner_uuid
    then threw same_owner_transfer c
    else returned tt (record c {
      owner_uuid = new_owner_uuid;
      updated_at = now;
      events = c.events ++ car_transferred c.uuid c.owner_uuid new_owner_uuid ∷ [];
    })

unfoldable pub reprice : Money → ℕ → Exec Car (Unit {0})
reprice price now c =
    if is_retired c.status
    then threw car_retired_error c
    else if same_money c.price price
    then returned tt c
    else returned tt (record c {
      price = price;
      updated_at = now;
      events = c.events ++ car_repriced c.uuid price.amount price.currency ∷ [];
    })

unfoldable pub retire : String → ℕ → Car → Car
retire reason now c = if is_retired c.status then c else record c {
  status = retired;
  updated_at = now;
  events = c.events ++ car_retired c.uuid reason ∷ [];
}
