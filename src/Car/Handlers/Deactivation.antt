-- ===== src/Car/Handlers/Deactivation.antt =====
-- What the deactivation of an owner does to the table of cars
-- (src/modules/car/infrastructure/event-handlers/retire-on-owner-deactivated.handler.ts).
use nest_kit.Effects.{state_of}
use nest_kit.Events.{car_retired}
use nest_kit.Table.{
  find, upsert_all, HasDistinctKeys, IsFresh, or_else, find-IsFresh, find-upsert_all, All-of_find,
  HasDistinctKeys-upsert_all,
}
use nest_kit.Car.{Car, is_retired, retired, retire}
use nest_kit.Database.{Tx, car_key, car_row, loaded, find_car}
use nest_kit.Car.Handlers.{active_of, save_cars, events_of, retire_on_owner_deactivated}
use nest_kit.Base.{
  ℕ, String, ◌≡◌, refl, sym, ap, ◌∙◌, subst, inl, inr, Bool, false, not, ◌&&◌, Option, none, some,
  List, [], ◌∷◌, ◌++◌, map, append-nil, arith, eq_iff, ◌=ₛ◌, if◌then◌else◌, Bool-cases, All,
}

abbrev pub is_hit : String → Car → Bool
is_hit owner_uuid c = c.owner_uuid =ₛ owner_uuid && not (is_retired c.status)

-- The row of a car after its owner was deactivated.
abbrev pub after_deactivation : String → ℕ → Car → Car
after_deactivation owner_uuid now c =
    if is_hit owner_uuid c then record c { status = retired; updated_at = now } else c

module _ (owner_uuid reason : String) (now : ℕ) where
  -- The rows that are written.
  abbrev closed : List Car → List Car
  closed cars = map car_row (map (retire reason now) (active_of owner_uuid cars))

  closed-IsFresh :
      (k : String) (cars : List Car) → IsFresh car_key k cars → IsFresh car_key k (closed cars)
  unfolding active_of retire
  closed-IsFresh k [] f = tt
  closed-IsFresh k (c ∷ cars) (ne, f) = ground (arith, closed-IsFresh k cars f)

  closed-HasDistinctKeys :
      (cars : List Car) → HasDistinctKeys car_key cars → HasDistinctKeys car_key (closed cars)
  unfolding active_of retire
  closed-HasDistinctKeys [] d = tt
  closed-HasDistinctKeys (c ∷ cars) (f, d) =
      ground (arith, closed-HasDistinctKeys cars d, closed-IsFresh c.uuid cars f)

  abbrev pick : Option Car → Option Car
  pick none = none
  pick (some c) =
      if is_hit owner_uuid c
      then some (car_row (record c { status = retired; updated_at = now }))
      else none

  find-closed :
      (k : String) (cars : List Car)
      → HasDistinctKeys car_key cars
      → find car_key k (closed cars) ≡ pick (find car_key k cars)
  unfolding find active_of retire
  find-closed k [] d = refl
  find-closed k (c ∷ cars) (f, d) = elim (Bool-cases (c.uuid =ₛ k)) [
    | inl same ↦
        let gone : find car_key k (closed cars) ≡ none = find-IsFresh car_key k (closed cars) (
          closed-IsFresh k cars
            (subst (λ x. IsFresh car_key x cars) ((eq_iff c.uuid k).0 same) f)) in
        ground (arith, gone, same)
    | inr other ↦ ground (arith, find-closed k cars d, other)
  ]

  find-after :
      (k : String) (cars : List Car)
      → HasDistinctKeys car_key cars
      → find car_key k (upsert_all car_key (closed cars) cars)
        ≡ or_else car_key (pick (find car_key k cars)) (find car_key k cars)
  find-after k cars d =
      find-upsert_all car_key k (closed cars) cars (closed-HasDistinctKeys cars d)
      ∙ rw (find-closed k cars d) refl

  picked_row :
      (r : Option Car)
      → loaded car_row (or_else car_key (pick r) r) ≡ elim (loaded car_row r) [
        | none ↦ none
        | some c ↦ some (after_deactivation owner_uuid now c)
      ]
  picked_row none = refl
  picked_row (some c) = elim (Bool-cases (is_hit owner_uuid c)) [
    | inl hit ↦ simp hit
    | inr miss ↦ simp miss
  ]

  picked_unhit :
      (r : Option Car) (c : Car) → or_else car_key (pick r) r ≡ some c → is_hit owner_uuid c ≡ false
  picked_unhit none c e = cc
  picked_unhit (some x) c e = elim (Bool-cases (is_hit owner_uuid x)) [
    | inl hit ↦ ground arith
    | inr miss ↦ ground arith
  ]

  active_of-nil :
      (cars : List Car)
      → All (λ c. is_hit owner_uuid c ≡ false) cars
      → active_of owner_uuid cars ≡ []
  unfolding active_of
  active_of-nil [] h = refl
  active_of-nil (c ∷ cars) (e, h) = rw (e, active_of-nil cars h) refl

  active_of-after :
      (cars : List Car)
      → HasDistinctKeys car_key cars
      → active_of owner_uuid (upsert_all car_key (closed cars) cars) ≡ []
  active_of-after cars d = active_of-nil _ (
      All-of_find car_key (λ c. is_hit owner_uuid c ≡ false) _
        (HasDistinctKeys-upsert_all car_key (closed cars) cars d)
        (λ c e. picked_unhit (find car_key c.uuid cars) c (sym (find-after c.uuid cars d) ∙ e)))

  events_of-retired :
      (cars : List Car)
      → events_of (map (retire reason now) (active_of owner_uuid cars))
        ≡ map (λ c. car_retired c.uuid reason) (active_of owner_uuid cars)
  unfolding events_of active_of retire
  events_of-retired [] = refl
  events_of-retired (c ∷ cars) = ground (arith, events_of-retired cars)

-- When an owner was deactivated, every car is found as before, except that an active car of the
-- owner is retired, at the time of the handling; and exactly one retirement is published for each
-- active car of the owner, in the order of the table.
pub retire_on_owner_deactivated-cars :
    (owner_uuid reason k : String) (now : ℕ) (t : Tx)
    → HasDistinctKeys car_key t.db.cars
    → let out = state_of (retire_on_owner_deactivated owner_uuid reason now t) in
      (find_car k out.db ≡ elim (find_car k t.db) [
        | none ↦ none
        | some c ↦ some (after_deactivation owner_uuid now c)
      ])
      × (out.events
          ≡ t.events ++ map (λ c. car_retired c.uuid reason) (active_of owner_uuid t.db.cars))
unfolding retire_on_owner_deactivated save_cars find_car
retire_on_owner_deactivated-cars owner_uuid reason k now t d = (
  ap (loaded car_row) (find-after owner_uuid reason now k t.db.cars d)
      ∙ picked_row owner_uuid reason now (find car_key k t.db.cars),
  ap (λ es. t.events ++ es) (events_of-retired owner_uuid reason now t.db.cars),
)

-- The event of a deactivated owner may be handled again, for any reason and at any time: the second
-- handling changes no table and publishes nothing.
pub retire_on_owner_deactivated_twice :
    (owner_uuid reason again : String) (now later : ℕ) (t : Tx)
    → HasDistinctKeys car_key t.db.cars
    → let out = state_of (retire_on_owner_deactivated owner_uuid reason now t) in
      state_of (retire_on_owner_deactivated owner_uuid again later out) ≡ out
unfolding retire_on_owner_deactivated save_cars events_of upsert_all
retire_on_owner_deactivated_twice owner_uuid reason again now later t d =
    rw (active_of-after owner_uuid reason now t.db.cars d, append-nil) refl
