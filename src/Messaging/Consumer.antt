-- ===== src/Messaging/Consumer.antt =====
-- src/platform/messaging/durable-consumer.service.ts, with processed-event.repository.ts and
-- dead-letter.repository.ts. `JSON.parse`, the handler and the text of an error are arguments; the
-- handler works on the application's tables, of any type.
pub mod Once
pub mod Runs
pub mod Poison
use nest_kit.Base.{
  ℕ, zero, suc, ◌+◌, ◌-◌, ◌*◌, ◌/◌, ◌%◌, ◌^◌, ◌≤◌, ◌<◌, min, max, String, ◌≡◌, refl, sym, ap, ◌∙◌,
  subst, ◌≡⟨◌⟩◌, ◌∎, ◌≢◌, ◌↔◌, ◌⊎◌, inl, inr, Bool, true, false, not, ◌&&◌, ◌||◌, Option, none,
  some, List, [], ◌∷◌, ◌++◌, map, append_assoc, append-nil, arith, eq_iff, eq_refl, dec_lt,
  ℕ_discrete, ◌=ₛ◌, ltb, leb, ◌==◌, if◌then◌else◌, ltb→lt, lt→ltb, leb→le, le→leb, ==_iff, tests,
  Bool-cases, Option-cases, length, take, all, any, length-append, length-take-le, length-map, All,
  All-append, ne_of_test, some_inj, and_left, and_right, or_true, or_false,
}
use nest_kit.Errors.{AppError}
use nest_kit.Effects.{Exec, Outcome, returned, threw, ◌>>=◌, gets}
use nest_kit.Transactions.{transaction}

-- What `JSON.parse` gives: the fields of an object that are of the type the envelope wants, or
-- another value.
pub record Candidate : Type 0 where
  pub name : Option String
  pub idempotency_key : Option String
  pub payload : Option String

pub data Parsed : Type 0 where
  other : Parsed
  object : Candidate → Parsed

pub record EventMessage : Type 0 where
  pub name : String
  pub idempotency_key : String
  pub payload : String

pub record Message : Type 0 where
  pub body : String
  pub delivery_count : ℕ

pub data Verdict : Type 0 where
  ack nak term : Verdict

pub data Label : Type 0 where
  is_ok duplicate failed dead_lettered : Label

-- Its time of creation is left out.
pub record DeadLetter : Type 0 where
  pub consumer : String
  pub event : EventMessage
  pub error : List ℕ
  pub delivery_count : ℕ

-- The tables that the transaction of a delivery writes.
pub record Tables {ℓ} (A : Type ℓ) : Type ℓ where
  pub processed : List (String × String)
  pub app : A

pub record Consumer {ℓ} (A : Type ℓ) : Type ℓ where
  pub tables : Tables A
  pub dead_letters : List DeadLetter
  pub verdicts : List Verdict
  pub metrics : List (String × Label)

abbrev valid_name : Option String → Option String
valid_name none = none
valid_name (some s) = if s =ₛ "" then none else some s

-- `isEventMessage`, giving the message.
abbrev message_from : Option String → Option String → Option String → Option EventMessage
message_from (some n) (some k) (some p) =
    some (record { name = n; idempotency_key = k; payload = p })
message_from (some n) (some k) none = none
message_from (some n) none p = none
message_from none k p = none

unfoldable pub as_event_message : Parsed → Option EventMessage
as_event_message other = none
as_event_message (object c) =
    message_from (valid_name c.name) (valid_name c.idempotency_key) c.payload

unfoldable pub was_processed : String → String → List (String × String) → Bool
was_processed consumer key [] = false
was_processed consumer key ((c, k) ∷ rows) =
    (c =ₛ consumer && k =ₛ key) || was_processed consumer key rows

module _ {ℓ} {A : Type ℓ} where
  -- `claim`: INSERT … ON CONFLICT DO NOTHING, and whether a row came back.
  unfoldable pub claim : String → String → Exec (Tables A) Bool
  unfolding was_processed
  claim consumer key t =
      if was_processed consumer key t.processed
      then returned false t
      else returned true (record t { processed = t.processed ++ (consumer, key) ∷ [] })

  abbrev on_app : Tables A → Outcome A (Unit {0}) → Outcome (Tables A) Bool
  on_app t (returned u a) = returned false (record t { app = a })
  on_app t (threw e a) = threw e (record t { app = a })

  -- The work of the transaction; it returns `duplicate`.
  abbrev pub handle_once :
      String → (EventMessage → Exec A (Unit {0})) → EventMessage → Exec (Tables A) Bool
  handle_once consumer handle event = do
    fresh ← claim consumer event.idempotency_key
    if fresh then (λ t. on_app t (handle event t.app)) else (λ t. returned true t)

abbrev is_row : String → String → DeadLetter → Bool
is_row consumer key d = d.consumer =ₛ consumer && d.event.idempotency_key =ₛ key

-- `record`: ON CONFLICT (consumer_name, idempotency_key) DO UPDATE of the error and the count.
unfoldable pub record_dead_letter : DeadLetter → List DeadLetter → List DeadLetter
record_dead_letter d [] = d ∷ []
record_dead_letter d (x ∷ rows) =
    if is_row d.consumer d.event.idempotency_key x
    then record x { error = d.error; delivery_count = d.delivery_count } ∷ rows
    else x ∷ record_dead_letter d rows

module _ {ℓ} {A : Type ℓ} (describe : AppError → List ℕ) (max_deliver : ℕ) (consumer : String)
    (handle : EventMessage → Exec A (Unit {0})) where
  abbrev pub answer : Verdict → Consumer A → Consumer A
  answer v c = record c { verdicts = c.verdicts ++ v ∷ [] }

  abbrev pub count : EventMessage → Label → Consumer A → Consumer A
  count event label c = record c { metrics = c.metrics ++ (event.name, label) ∷ [] }

  abbrev pub after_failure : EventMessage → ℕ → AppError → Consumer A → Consumer A
  after_failure event deliveries e c =
      if leb max_deliver deliveries
      then answer term (
          count event dead_lettered (record c {
            dead_letters =
                record_dead_letter
                  (record {
                    consumer = consumer;
                    event = event;
                    error = take 2000 (describe e);
                    delivery_count = deliveries;
                  })
                  c.dead_letters;
          }))
      else answer nak c

  abbrev pub settle : EventMessage → ℕ → Consumer A → Outcome (Tables A) Bool → Consumer A
  settle event deliveries c (returned seen t) =
      count event (if seen then duplicate else is_ok) (answer ack (record c { tables = t }))
  settle event deliveries c (threw e t) =
      after_failure event deliveries e (count event failed (record c { tables = t }))

  unfoldable pub deliver : EventMessage → ℕ → Consumer A → Consumer A
  deliver event deliveries c =
      settle event deliveries c (transaction (handle_once consumer handle event) c.tables)

  abbrev pub deliver_valid : ℕ → Option EventMessage → Consumer A → Consumer A
  deliver_valid deliveries none c = answer term c
  deliver_valid deliveries (some event) c = deliver event deliveries c

  abbrev pub deliver_parsed : ℕ → Option Parsed → Consumer A → Consumer A
  deliver_parsed deliveries none c = answer term c
  deliver_parsed deliveries (some parsed) c = deliver_valid deliveries (as_event_message parsed) c

  unfoldable pub dispatch : (String → Option Parsed) → Message → Consumer A → Consumer A
  dispatch parse message c = deliver_parsed message.delivery_count (parse message.body) c

  -- The loop of `pump`. With each message goes whether `stopped` was set when it came.
  unfoldable pub pump : (String → Option Parsed) → List (Bool × Message) → Consumer A → Consumer A
  pump parse [] c = c
  pump parse ((true, message) ∷ messages) c = c
  pump parse ((false, message) ∷ messages) c = pump parse messages (dispatch parse message c)

unfoldable pub discard_processed : String → String → List (String × String) → List (String × String)
discard_processed consumer key [] = []
discard_processed consumer key ((c, k) ∷ rows) =
    let rest = discard_processed consumer key rows in
    if c =ₛ consumer && k =ₛ key then rest else (c, k) ∷ rest

unfoldable pub discard_dead_letter : String → String → List DeadLetter → List DeadLetter
discard_dead_letter consumer key [] = []
discard_dead_letter consumer key (d ∷ rows) =
    let rest = discard_dead_letter consumer key rows in
    if is_row consumer key d then rest else d ∷ rest

-- `discard`: the dead letter goes, and the processed marker with it.
unfoldable pub discard {ℓ} : {A : Type ℓ} → String → String → Consumer A → Consumer A
unfolding discard_processed discard_dead_letter
discard consumer key c = record c {
  dead_letters = discard_dead_letter consumer key c.dead_letters;
  tables = record {
    processed = discard_processed consumer key c.tables.processed;
    app = c.tables.app;
  };
}
