-- ===== src/Car/History.antt =====
-- Histories of calls on one car (src/modules/car/domain/car.ts).
use nest_kit.Base.{
  ℕ, String, ◌≡◌, refl, true, Option, none, some, List, [], ◌∷◌, ◌++◌, arith, eq_refl, ◌=ₛ◌,
  if◌then◌else◌,
}
use nest_kit.Effects.{state_of}
use nest_kit.Events.{DomainEvent, car_transferred, car_repriced, car_retired}
use nest_kit.Car.{Car, Money, is_retired, transfer_to, reprice, retire}

pub data Call : Type 0 where
  transfers : String → ℕ → Call
  reprices : Money → ℕ → Call
  retires : String → ℕ → Call

-- The car after a call, whether it threw or not.
unfoldable pub step : Car → Call → Car
step c (transfers owner now) = state_of (transfer_to owner now c)
step c (reprices price now) = state_of (reprice price now c)
step c (retires reason now) = retire reason now c

unfoldable pub run : Car → List Call → Car
run c [] = c
run c (x ∷ xs) = run (step c x) xs

step_retired : (c : Car) (x : Call) → is_retired c.status ≡ true → step c x ≡ c
unfolding step transfer_to reprice retire
step_retired c (transfers owner now) h = ground arith
step_retired c (reprices price now) h = ground arith
step_retired c (retires reason now) h = ground arith

-- A retired car never changes again, and records no further event.
pub run_retired : (c : Car) (xs : List Call) → is_retired c.status ≡ true → run c xs ≡ c
unfolding run
run_retired c [] h = refl
run_retired c (x ∷ xs) h = rw (step_retired c x h) (run_retired c xs h)

-- The owner after events, if each transfer begins at the owner known so far.
abbrev pub next_owner : Option String → DomainEvent → Option String
next_owner (some owner) (car_transferred uuid from to) = if from =ₛ owner then some to else none
next_owner (some owner) _ = some owner
next_owner none e = none

pub chain : Option String → List DomainEvent → Option String
chain o [] = o
chain o (e ∷ es) = chain (next_owner o e) es

chain-append :
    (o : Option String) (es : List DomainEvent) (e : DomainEvent)
    → chain o (es ++ e ∷ []) ≡ next_owner (chain o es) e
unfolding chain
chain-append o [] e = refl
chain-append o (x ∷ es) e = chain-append (next_owner o x) es e

step-chain :
    (first : String) (c : Car) (x : Call)
    → chain (some first) c.events ≡ some c.owner_uuid
    → chain (some first) (step c x).events ≡ some (step c x).owner_uuid
unfolding step transfer_to reprice retire
step-chain first c (transfers owner now) h = ground (
  arith,
  chain-append (some first) c.events (car_transferred c.uuid c.owner_uuid owner),
  eq_refl c.owner_uuid,
)
step-chain first c (reprices price now) h =
    ground
      (arith, chain-append (some first) c.events (car_repriced c.uuid price.amount price.currency))
step-chain first c (retires reason now) h =
    ground (arith, chain-append (some first) c.events (car_retired c.uuid reason))

-- The events of a car tell its owner: along any history of calls, from a car without recorded
-- events, each transfer that was recorded begins at the owner known before, and the last known owner
-- is the owner of the car.
pub run-chain :
    (c : Car) (xs : List Call)
    → c.events ≡ []
    → chain (some c.owner_uuid) (run c xs).events ≡ some (run c xs).owner_uuid
unfolding run chain
run-chain c xs h = go c xs (rw h refl)
  where
    go :
        (d : Car) (ys : List Call)
        → chain (some c.owner_uuid) d.events ≡ some d.owner_uuid
        → chain (some c.owner_uuid) (run d ys).events ≡ some (run d ys).owner_uuid
    go d [] e = e
    go d (y ∷ ys) e = go (step d y) ys (step-chain c.owner_uuid d y e)
