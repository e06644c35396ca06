-- ===== src/Messaging/Consumer/Runs.antt =====
-- Runs of deliveries (src/platform/messaging/durable-consumer.service.ts): a handler takes effect
-- exactly once for an event, however often the event is delivered.
use nest_kit.Messaging.Consumer.{
  AppError, settle, handle_once, deliver_valid, deliver_parsed, Parsed, EventMessage, Message,
  Verdict, ack, nak, term, Tables, Consumer, as_event_message, was_processed, deliver, dispatch,
  pump,
}
use nest_kit.Base.{
  ℕ, ◌+◌, String, ◌≡◌, refl, sym, ap, ◌∙◌, subst, Bool, true, false, Option, none, some, List, [],
  ◌∷◌, ◌++◌, map, arith, length, length-append, All,
}
use nest_kit.Effects.{Exec, Outcome, returned, threw}
use nest_kit.Transactions.{transaction}
use nest_kit.Messaging.Consumer.Once.{was_processed-append, deliver_seen, deliver_returned}

-- The event that a message carries, if any.
abbrev pub carried : (String → Option Parsed) → Message → Option EventMessage
carried parse m = elim (parse m.body) [ none ↦ none | some p ↦ as_event_message p ]

module _ {ℓ} {A : Type ℓ} (parse : String → Option Parsed) (describe : AppError → List ℕ)
    (max_deliver : ℕ) (consumer : String) (handle : EventMessage → Exec A (Unit {0})) where
  dispatch-carried :
      (event : EventMessage) (m : Message) (c : Consumer A)
      → carried parse m ≡ some event
      → dispatch describe max_deliver consumer handle parse m c
        ≡ deliver describe max_deliver consumer handle event m.delivery_count c
  unfolding dispatch
  dispatch-carried event m c e = ground arith

  answer-verdicts :
      (v : Verdict) (c : Consumer A) → length (c.verdicts ++ v ∷ []) ≡ length c.verdicts + 1
  answer-verdicts v c = length-append c.verdicts (v ∷ [])

  settle-verdicts :
      (event : EventMessage) (n : ℕ) (c : Consumer A) (o : Outcome (Tables A) Bool)
      → length (settle describe max_deliver consumer handle event n c o).verdicts
        ≡ length c.verdicts + 1
  settle-verdicts event n c (returned b t) = answer-verdicts ack c
  settle-verdicts event n c (threw e t) =
      ground (arith, answer-verdicts nak c, answer-verdicts term c)

  deliver-verdicts :
      (event : EventMessage) (n : ℕ) (c : Consumer A)
      → length (deliver describe max_deliver consumer handle event n c).verdicts
        ≡ length c.verdicts + 1
  unfolding deliver
  deliver-verdicts event n c =
      settle-verdicts event n c (transaction (handle_once consumer handle event) c.tables)

  deliver_valid-verdicts :
      (n : ℕ) (e : Option EventMessage) (c : Consumer A)
      → length (deliver_valid describe max_deliver consumer handle n e c).verdicts
        ≡ length c.verdicts + 1
  deliver_valid-verdicts n none c = answer-verdicts term c
  deliver_valid-verdicts n (some event) c = deliver-verdicts event n c

  deliver_parsed-verdicts :
      (n : ℕ) (p : Option Parsed) (c : Consumer A)
      → length (deliver_parsed describe max_deliver consumer handle n p c).verdicts
        ≡ length c.verdicts + 1
  deliver_parsed-verdicts n none c = answer-verdicts term c
  deliver_parsed-verdicts n (some p) c = deliver_valid-verdicts n (as_event_message p) c

  dispatch-verdicts :
      (m : Message) (c : Consumer A)
      → length (dispatch describe max_deliver consumer handle parse m c).verdicts
        ≡ length c.verdicts + 1
  unfolding dispatch
  dispatch-verdicts m c = deliver_parsed-verdicts m.delivery_count (parse m.body) c

-- Messages that come before a shutdown
abbrev in_time : List Message → List (Bool × Message)
in_time ms = map (λ m. (false, m)) ms

-- Every message of a run before a shutdown gets exactly one verdict: it is acknowledged, sent back
-- or terminated.
pub pump-verdicts {ℓ} :
    {A : Type ℓ} (parse : String → Option Parsed) (describe : AppError → List ℕ) (max_deliver : ℕ)
    (consumer : String) (handle : EventMessage → Exec A (Unit {0})) (ms : List Message)
    (c : Consumer A)
    → length (pump describe max_deliver consumer handle parse (in_time ms) c).verdicts
      ≡ length c.verdicts + length ms
unfolding pump
pump-verdicts parse describe max_deliver consumer handle [] c = omega arith
pump-verdicts parse describe max_deliver consumer handle (m ∷ ms) c = omega (
  arith,
  dispatch-verdicts parse describe max_deliver consumer handle m c,
  pump-verdicts parse describe max_deliver consumer handle ms
      (dispatch describe max_deliver consumer handle parse m c),
)

module _ {ℓ} {A : Type ℓ} (parse : String → Option Parsed) (describe : AppError → List ℕ)
    (max_deliver : ℕ) (consumer : String) (handle : EventMessage → Exec A (Unit {0}))
    (event : EventMessage) where
  abbrev pub Carries : Message → Type 0
  Carries m = carried parse m ≡ some event

  pump_seen :
      (ms : List (Bool × Message)) (c : Consumer A)
      → was_processed consumer event.idempotency_key c.tables.processed ≡ true
      → All (λ x. Carries x.1) ms
      → (pump describe max_deliver consumer handle parse ms c).tables ≡ c.tables
  unfolding pump
  pump_seen [] c seen h = refl
  pump_seen ((true, m) ∷ ms) c seen (e, h) = refl
  pump_seen ((false, m) ∷ ms) c seen (e, h) =
      let d = dispatch describe max_deliver consumer handle parse m c in
      let same : d.tables ≡ c.tables =
        ap (λ x. x.tables) (dispatch-carried parse describe max_deliver consumer handle event m c e)
        ∙ (deliver_seen describe max_deliver consumer handle event m.delivery_count c seen).0 in
      pump_seen ms d
        (subst (λ t. was_processed consumer event.idempotency_key t.processed ≡ true) (sym same)
          seen)
        h
      ∙ same

-- If an event was not processed yet and the handler returns on the application's tables, then after
-- any positive number of messages that carry the event, the first of which comes before a shutdown,
-- the handler has taken effect exactly once: the application's tables are what one call of it made
-- them, and one marker was added.
pub pump_exactly_once {ℓ} :
    {A : Type ℓ} (parse : String → Option Parsed) (describe : AppError → List ℕ) (max_deliver : ℕ)
    (consumer : String) (handle : EventMessage → Exec A (Unit {0})) (event : EventMessage)
    (m : Message) (ms : List (Bool × Message)) (c : Consumer A) (a : A)
    → was_processed consumer event.idempotency_key c.tables.processed ≡ false
    → handle event c.tables.app ≡ returned tt a
    → carried parse m ≡ some event
    → All (λ x. carried parse x.1 ≡ some event) ms
    → (pump describe max_deliver consumer handle parse ((false, m) ∷ ms) c).tables
      ≡ record { processed = c.tables.processed ++ (consumer, event.idempotency_key) ∷ []; app = a }
unfolding pump
pump_exactly_once parse describe max_deliver consumer handle event m ms c a fresh ran e h =
    let d = dispatch describe max_deliver consumer handle parse m c in
    let once : d.tables ≡ record {
      processed = c.tables.processed ++ (consumer, event.idempotency_key) ∷ [];
      app = a;
    } =
      ap (λ x. x.tables) (dispatch-carried parse describe max_deliver consumer handle event m c e)
      ∙ (deliver_returned describe max_deliver consumer handle event m.delivery_count c a fresh
          ran).0 in
    pump_seen parse describe max_deliver consumer handle event ms d
      (subst (λ t. was_processed consumer event.idempotency_key t.processed ≡ true) (sym once)
        (was_processed-append consumer event.idempotency_key c.tables.processed))
      h
    ∙ once
