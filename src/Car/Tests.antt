-- ===== src/Car/Tests.antt =====
-- Runs of the cars and of their handlers (src/modules/car) on small inputs.
use nest_kit.Effects.{ok, state_of}
use nest_kit.Car.Values as Values
use nest_kit.Car.Values.Amounts.{money_of_again}
use nest_kit.Texts.{split, trim, trim_start, trim_end, is_space}
use nest_kit.Base.{
  ℕ, ◌-◌, String, ◌≡◌, refl, true, ◌&&◌, some, List, [], ◌∷◌, ◌++◌, map, arith, leb, if◌then◌else◌,
  all, ne_of_test,
}
use nest_kit.Events.{car_retired}
use nest_kit.Table.{find, HasDistinctKeys}
use nest_kit.Car.{Car, active, Money}
use nest_kit.Car.History.{Call, transfers, reprices, retires, run, chain, run-chain}
use nest_kit.Database.{Tx, car_key, find_car}
use nest_kit.Car.Handlers.{active_of, retire_on_owner_deactivated}
use nest_kit.Car.Handlers.Deactivation.{
  after_deactivation, retire_on_owner_deactivated-cars, retire_on_owner_deactivated_twice,
}

abbrev price : Money
price = record { amount = "1200.00"; currency = "EUR" }

abbrev car : String → String → Car
car uuid owner = record {
  uuid = uuid;
  owner_uuid = owner;
  make = 65 ∷ [];
  model = 66 ∷ [];
  year = 2020;
  colour = 67 ∷ [];
  license_plate = uuid;
  price = price;
  status = active;
  created_at = 1;
  updated_at = 1;
  events = [];
}

abbrev history : List Call
history =
    transfers "o2" 5
    ∷ reprices (record { amount = "900.00"; currency = "EUR" }) 6
    ∷ transfers "o3" 7
    ∷ retires "sold" 8
    ∷ transfers "o4" 9
    ∷ []

run-chain_example :
    chain (some "o1") (run (car "c1" "o1") history).events
    ≡ some (run (car "c1" "o1") history).owner_uuid
run-chain_example = run-chain (car "c1" "o1") history refl

abbrev garage : Tx
garage = record {
  db = record {
    users = [];
    owners = [];
    cars = car "c1" "o1" ∷ car "c2" "o2" ∷ car "c3" "o1" ∷ [];
    sessions = [];
  };
  events = [];
}

garage-HasDistinctKeys : HasDistinctKeys car_key garage.db.cars
garage-HasDistinctKeys = (
  (ne_of_test "c2" "c1" refl, (ne_of_test "c3" "c1" refl, tt)),
  ((ne_of_test "c3" "c2" refl, tt), (tt, tt)),
)

retire_on_owner_deactivated-cars_example :
    (find_car "c3" (state_of (retire_on_owner_deactivated "o1" "left" 9 garage)).db
      ≡ some (after_deactivation "o1" 9 (car "c3" "o1")))
    × ((state_of (retire_on_owner_deactivated "o1" "left" 9 garage)).events
        ≡ [] ++ car_retired "c1" "left" ∷ car_retired "c3" "left" ∷ [])
unfolding find_car find active_of
retire_on_owner_deactivated-cars_example =
    retire_on_owner_deactivated-cars "o1" "left" "c3" 9 garage garage-HasDistinctKeys

retire_on_owner_deactivated_twice_example :
    state_of (
      retire_on_owner_deactivated "o1" "again" 12
        (state_of (retire_on_owner_deactivated "o1" "left" 9 garage)))
    ≡ state_of (retire_on_owner_deactivated "o1" "left" 9 garage)
retire_on_owner_deactivated_twice_example =
    retire_on_owner_deactivated_twice "o1" "left" "again" 9 12 garage garage-HasDistinctKeys

-- Upper case of the letters of ASCII
abbrev upper : List ℕ → List ℕ
upper = map (λ c. if leb 97 c && leb c 122 then c - 32 else c)

letters_stay : (t : List ℕ) → all Values.is_upper t ≡ true → upper t ≡ t
unfolding Values.is_upper
letters_stay [] h = refl
letters_stay (c ∷ cs) h = ground (arith, letters_stay cs)

-- ` 12.5` and `usd`
money_read :
    Values.money_of upper (32 ∷ 49 ∷ 50 ∷ 46 ∷ 53 ∷ []) (117 ∷ 115 ∷ 100 ∷ [])
    ≡ ok (record { amount = 49 ∷ 50 ∷ 46 ∷ 53 ∷ 48 ∷ []; currency = 85 ∷ 83 ∷ 68 ∷ [] })
unfolding Values.money_of Values.is_currency Values.is_upper Values.is_digit
    Values.is_unsigned_amount Values.to_two_places split trim trim_start trim_end is_space
money_read = refl

money_of_again_example :
    Values.money_of upper (49 ∷ 50 ∷ 46 ∷ 53 ∷ 48 ∷ []) (85 ∷ 83 ∷ 68 ∷ [])
    ≡ ok (record { amount = 49 ∷ 50 ∷ 46 ∷ 53 ∷ 48 ∷ []; currency = 85 ∷ 83 ∷ 68 ∷ [] })
money_of_again_example =
    money_of_again upper (32 ∷ 49 ∷ 50 ∷ 46 ∷ 53 ∷ []) (117 ∷ 115 ∷ 100 ∷ [])
      (record { amount = 49 ∷ 50 ∷ 46 ∷ 53 ∷ 48 ∷ []; currency = 85 ∷ 83 ∷ 68 ∷ [] }) letters_stay
      money_read
