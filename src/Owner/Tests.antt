-- ===== src/Owner/Tests.antt =====
-- Runs of the owners and of their handlers (src/modules/owner) on small inputs.
use nest_kit.Effects.{ok}
use nest_kit.Owner.DateOfBirth as DateOfBirth
use nest_kit.Base.{ℕ, ◌≡◌, refl, some, List, [], ◌∷◌}
use nest_kit.Events.{owner_registered}
use nest_kit.Owner.{Owner, active, normalise_address, register}
use nest_kit.Owner.History.{Call, moves, deactivates, reactivates, run, IsValid, register-run}

abbrev same : List ℕ → List ℕ
same address = address

abbrev owner : Owner
owner = record {
  uuid = "o1";
  user_uuid = "u1";
  address = 65 ∷ [];
  date_of_birth = 3;
  status = active;
  created_at = 9;
  updated_at = 9;
  events = owner_registered "o1" "u1" ∷ [];
}

abbrev history : List Call
history =
    moves [] 10
    ∷ moves (66 ∷ []) 11
    ∷ deactivates "left" 12
    ∷ moves (67 ∷ []) 13
    ∷ reactivates 14
    ∷ []

register-run_example : IsValid (run same owner history)
unfolding register normalise_address
register-run_example = register-run same "o1" "u1" (65 ∷ []) 3 9 owner history refl

abbrev today : DateOfBirth.Date
today = record { time = 900; year = 2026; month = 5; day = 14 }

abbrev birth : DateOfBirth.Date
birth = record { time = 100; year = 2008; month = 5; day = 14 }

birth_accepted : DateOfBirth.date_of_birth_of (some birth) today ≡ ok birth
unfolding DateOfBirth.date_of_birth_of DateOfBirth.age_in
birth_accepted = refl

date_of_birth_of-HasTurned_example :
    DateOfBirth.HasTurned 18 birth today × (¬ DateOfBirth.HasTurned 121 birth today)
date_of_birth_of-HasTurned_example =
    DateOfBirth.date_of_birth_of-HasTurned (some birth) today birth birth_accepted
