-- ===== src/Database.antt =====
-- The tables of the contexts, and the repositories on them: typeorm-user.repository.ts,
-- typeorm-owner.repository.ts, typeorm-car.repository.ts and typeorm-session.repository.ts under
-- src/modules. A save drops the events of an object, and a loaded object has none.
use nest_kit.Base.{String, not, ◌&&◌, Option, none, some, List, [], ◌∷◌, ◌=ₛ◌, if◌then◌else◌}
use nest_kit.Table.{find, upsert}
use nest_kit.Events.{DomainEvent}
use nest_kit.Transactions.{World, Scope}
use nest_kit.Identity.User.{User, is_set}
use nest_kit.Owner.{Owner}
use nest_kit.Car.{Car}
use nest_kit.Auth.Session.{Session}

pub record Db : Type 0 where
  pub users : List User
  pub owners : List Owner
  pub cars : List Car
  pub sessions : List Session

abbrev pub Store : Type 0
Store = World Db DomainEvent

abbrev pub Tx : Type 0
Tx = Scope Db DomainEvent

abbrev pub user_key : User → String
user_key u = u.uuid

abbrev pub owner_key : Owner → String
owner_key o = o.uuid

abbrev pub owner_user_key : Owner → String
owner_user_key o = o.user_uuid

abbrev pub car_key : Car → String
car_key c = c.uuid

abbrev pub plate_key : Car → String
plate_key c = c.license_plate

abbrev pub session_key : Session → String
session_key s = s.uuid

module _ {ℓ} {A : Type ℓ} where
  abbrev pub loaded : (A → A) → Option A → Option A
  loaded clear none = none
  loaded clear (some a) = some (clear a)

abbrev pub user_row : User → User
user_row u = record u { events = [] }

abbrev pub owner_row : Owner → Owner
owner_row o = record o { events = [] }

abbrev pub car_row : Car → Car
car_row c = record c { events = [] }

abbrev pub session_row : Session → Session
session_row s = record s { events = [] }

unfoldable pub find_user : String → Db → Option User
find_user uuid db = loaded user_row (find user_key uuid db.users)

-- Deleted users are invisible by email.
unfoldable pub live_by_email : String → List User → Option User
live_by_email email [] = none
live_by_email email (u ∷ users) =
    if u.email =ₛ email && not (is_set u.deleted_at) then some u else live_by_email email users

unfoldable pub find_user_by_email : String → Db → Option User
find_user_by_email email db = loaded user_row (live_by_email email db.users)

unfoldable pub find_owner : String → Db → Option Owner
find_owner uuid db = loaded owner_row (find owner_key uuid db.owners)

unfoldable pub find_owner_by_user : String → Db → Option Owner
find_owner_by_user user_uuid db = loaded owner_row (find owner_user_key user_uuid db.owners)

unfoldable pub find_car : String → Db → Option Car
find_car uuid db = loaded car_row (find car_key uuid db.cars)

unfoldable pub find_car_by_plate : String → Db → Option Car
find_car_by_plate plate db = loaded car_row (find plate_key plate db.cars)

unfoldable pub find_session : String → Db → Option Session
find_session uuid db = loaded session_row (find session_key uuid db.sessions)

unfoldable pub save_user : User → Db → Db
save_user u db = record db { users = upsert user_key (user_row u) db.users }

unfoldable pub save_owner : Owner → Db → Db
save_owner o db = record db { owners = upsert owner_key (owner_row o) db.owners }

unfoldable pub save_car : Car → Db → Db
save_car c db = record db { cars = upsert car_key (car_row c) db.cars }

unfoldable pub save_session : Session → Db → Db
save_session s db = record db { sessions = upsert session_key (session_row s) db.sessions }
