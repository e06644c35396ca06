-- ===== src/Car/Handlers.antt =====
-- src/modules/car/application/commands/car.handlers.ts, and the reaction to a deactivated owner of
-- src/modules/car/infrastructure/event-handlers. Plates and prices were built before.
pub mod Deactivation
use nest_kit.Base.{
  ℕ, String, Bool, true, false, not, ◌&&◌, Option, none, some, List, [], ◌∷◌, ◌++◌, map, ◌=ₛ◌,
  if◌then◌else◌,
}
use nest_kit.Effects.{Exec, pure, lift, throw_if, or_throw, object_of, ◌>>=◌, ◌>>◌}
use nest_kit.Events.{DomainEvent}
use nest_kit.Table.{upsert_all}
use nest_kit.Transactions.{with_transaction, publish_all, reads, writes}
use nest_kit.Owner.{Owner, is_active}
use nest_kit.Car.{
  Car, Money, Registration, register, transfer_to, reprice, retire, is_retired, car_not_found,
  owner_not_accepting_cars, plate_already_registered,
}
use nest_kit.Database.{
  Db, Store, Tx, car_key, car_row, find_owner, find_car, find_car_by_plate, save_car,
}

-- The save and the publication that end each handler.
abbrev pub store_car : Car → Exec Tx Car
store_car c = do writes (save_car c); publish_all c.events; pure c

abbrev pub is_some {ℓ} : {A : Type ℓ} → Option A → Bool
is_some none = false
is_some (some a) = true

-- `!owner || !owner.isActive`
abbrev pub refuses_cars : Option Owner → Bool
refuses_cars none = true
refuses_cars (some o) = not (is_active o.status)

-- `RegisterCarHandler.execute`, from its transaction on
unfoldable pub register_car : (List ℕ → List ℕ) → String → Registration → Exec Store Car
register_car collapse uuid input = with_transaction (do
  owner ← reads (find_owner input.owner_uuid)
  throw_if (refuses_cars owner) owner_not_accepting_cars
  taken ← reads (find_car_by_plate input.license_plate)
  throw_if (is_some taken) plate_already_registered
  car ← lift (register collapse uuid input)
  store_car car)

-- `TransferCarHandler.execute`
unfoldable pub transfer_car : String → String → ℕ → Exec Store Car
transfer_car uuid to_owner_uuid now = with_transaction (do
  found ← reads (find_car uuid)
  car ← or_throw car_not_found found
  owner ← reads (find_owner to_owner_uuid)
  throw_if (refuses_cars owner) owner_not_accepting_cars
  transferred ← lift (object_of (transfer_to to_owner_uuid now car))
  store_car transferred)

-- `RepriceCarHandler.execute`, from its transaction on
unfoldable pub reprice_car : String → Money → ℕ → Exec Store Car
reprice_car uuid price now = with_transaction (do
  found ← reads (find_car uuid)
  car ← or_throw car_not_found found
  repriced ← lift (object_of (reprice price now car))
  store_car repriced)

-- `RetireCarHandler.execute`
unfoldable pub retire_car : String → String → ℕ → Exec Store Car
retire_car uuid reason now = with_transaction (do
  found ← reads (find_car uuid)
  car ← or_throw car_not_found found
  store_car (retire reason now car))

-- `findActiveByOwner`
unfoldable pub active_of : String → List Car → List Car
active_of owner_uuid [] = []
active_of owner_uuid (c ∷ cars) =
    let rest = active_of owner_uuid cars in
    if c.owner_uuid =ₛ owner_uuid && not (is_retired c.status) then car_row c ∷ rest else rest

unfoldable pub events_of : List Car → List DomainEvent
events_of [] = []
events_of (c ∷ cars) = c.events ++ events_of cars

-- `saveAll`
unfoldable pub save_cars : List Car → Db → Db
save_cars cars db = record db { cars = upsert_all car_key (map car_row cars) db.cars }

-- `RetireCarsOnOwnerDeactivated.handle`, in the consumer's transaction; the reason is the text that
-- is made of the event's. With no car found the two writes do nothing.
unfoldable pub retire_on_owner_deactivated : String → String → ℕ → Exec Tx (Unit {0})
retire_on_owner_deactivated owner_uuid reason now = do
  found ← reads (λ db. active_of owner_uuid db.cars)
  let cars = map (retire reason now) found
  writes (save_cars cars)
  publish_all (events_of cars)
