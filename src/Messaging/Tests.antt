-- ===== src/Messaging/Tests.antt =====
-- Runs of a durable consumer (src/platform/messaging) with a handler that counts its calls.
use nest_kit.Base.{
  ℕ, ◌+◌, String, ◌≡◌, refl, ap, Bool, true, false, Option, none, some, List, [], ◌∷◌, ◌++◌, ◌=ₛ◌,
  if◌then◌else◌,
}
use nest_kit.Errors.{AppError, app_error, internal}
use nest_kit.Effects.{Exec, returned, threw}
use nest_kit.Messaging.Consumer.{
  Parsed, object, EventMessage, Message, Consumer, was_processed, as_event_message, deliver, pump,
  discard,
}
use nest_kit.Messaging.Consumer.Runs.{pump_exactly_once}
use nest_kit.Messaging.Consumer.Poison.{
  IsClean, redeliver, sent_back, redeliver_dead_letters, deliver-discard,
}

abbrev parse : String → Option Parsed
parse body =
    if body =ₛ "{"
    then none
    else some (
        object
          (record { name = some "user.deleted"; idempotency_key = some "k1"; payload = some body }))

abbrev event : EventMessage
event = record { name = "user.deleted"; idempotency_key = "k1"; payload = "u1" }

abbrev counts : EventMessage → Exec ℕ (Unit {0})
counts e n = returned tt (n + 1)

abbrev broken : AppError
broken = app_error internal "BROKEN"

-- It writes before it throws.
abbrev breaks : EventMessage → Exec ℕ (Unit {0})
breaks e n = threw broken (n + 1)

abbrev describe : AppError → List ℕ
describe e = 98 ∷ []

abbrev message : ℕ → Message
message n = record { body = "u1"; delivery_count = n }

abbrev idle : Consumer ℕ
idle = record {
  tables = record { processed = []; app = 0 };
  dead_letters = [];
  verdicts = [];
  metrics = [];
}

-- The last one comes after a shutdown.
abbrev arrivals : List (Bool × Message)
arrivals = (false, message 2) ∷ (true, message 1) ∷ []

pump_exactly_once_example :
    (pump describe 5 "owners" counts parse ((false, message 1) ∷ arrivals) idle).tables
    ≡ record { processed = [] ++ ("owners", "k1") ∷ []; app = 1 }
unfolding was_processed as_event_message
pump_exactly_once_example =
    pump_exactly_once parse describe 5 "owners" counts event (message 1) arrivals idle 1 refl refl
      refl (refl, (refl, tt))

redeliver_dead_letters_example :
    ((redeliver describe 3 "owners" breaks event 3 1 idle).tables
      ≡ record { processed = []; app = 0 })
    × ((redeliver describe 3 "owners" breaks event 3 1 idle).dead_letters
        ≡ []
          ++ record { consumer = "owners"; event = event; error = 98 ∷ []; delivery_count = 3 }
            ∷ [])
    × ((redeliver describe 3 "owners" breaks event 3 1 idle).verdicts ≡ [] ++ sent_back 2)
unfolding was_processed
redeliver_dead_letters_example =
    redeliver_dead_letters describe 2 "owners" breaks event broken 1 idle refl refl tt

deliver-discard_example :
    ((deliver describe 5 "owners" counts event 1
        (discard "owners" "k1" (redeliver describe 3 "owners" breaks event 3 1 idle))).tables.app
      ≡ 1)
    × IsClean "owners" "k1"
        (deliver describe 5 "owners" counts event 1 (
          discard "owners" "k1" (redeliver describe 3 "owners" breaks event 3 1 idle))).dead_letters
deliver-discard_example =
    deliver-discard describe 5 1 "owners" counts event
      (redeliver describe 3 "owners" breaks event 3 1 idle) 1
      (ap (λ t. returned tt (t.app + 1)) redeliver_dead_letters_example.0)
