-- ===== src/Messaging/Consumer/Once.antt =====
-- One delivery of an event to a consumer, in each of the ways in which it can go
-- (src/platform/messaging/durable-consumer.service.ts).
use nest_kit.Messaging.Consumer.{
  after_failure, EventMessage, Verdict, ack, nak, term, Tables, Consumer, was_processed, claim,
  handle_once, deliver,
}
use nest_kit.Base.{
  ℕ, String, ◌≡◌, refl, true, false, List, [], ◌∷◌, ◌++◌, arith, eq_refl, leb, if◌then◌else◌,
}
use nest_kit.Errors.{AppError}
use nest_kit.Effects.{◌>>=◌, Exec, returned, threw}
use nest_kit.Transactions.{transaction, transaction_returned, transaction_threw}

pub was_processed-append :
    (consumer key : String) (rows : List (String × String))
    → was_processed consumer key (rows ++ (consumer, key) ∷ []) ≡ true
unfolding was_processed
was_processed-append consumer key [] = ground (arith, eq_refl consumer, eq_refl key)
was_processed-append consumer key ((c, k) ∷ rows) =
    ground (arith, was_processed-append consumer key rows)

-- The answer to a failed delivery.
abbrev pub verdict_of : ℕ → ℕ → Verdict
verdict_of max_deliver deliveries = if leb max_deliver deliveries then term else nak

module _ {ℓ} {A : Type ℓ} (consumer : String) (handle : EventMessage → Exec A (Unit {0}))
    (event : EventMessage) (t : Tables A) where
  abbrev key : String
  key = event.idempotency_key

  claim_seen :
      was_processed consumer key t.processed ≡ true → claim consumer key t ≡ returned false t
  unfolding claim
  claim_seen h = rw h

  claim_fresh :
      was_processed consumer key t.processed ≡ false
      → claim consumer key t
        ≡ returned true (record t { processed = t.processed ++ (consumer, key) ∷ [] })
  unfolding claim
  claim_fresh h = rw h

  pub transaction_seen :
      was_processed consumer key t.processed ≡ true
      → transaction (handle_once consumer handle event) t ≡ returned true t
  transaction_seen h =
      transaction_returned (handle_once consumer handle event) t true t (rw (claim_seen h, ◌>>=◌))

  pub transaction_handled :
      (a : A)
      → was_processed consumer key t.processed ≡ false
      → handle event t.app ≡ returned tt a
      → transaction (handle_once consumer handle event) t
        ≡ returned false (record { processed = t.processed ++ (consumer, key) ∷ []; app = a })
  transaction_handled a h e =
      transaction_returned (handle_once consumer handle event) t false
        (record { processed = t.processed ++ (consumer, key) ∷ []; app = a })
        (rw (claim_fresh h, ◌>>=◌, e))

  pub transaction_failed :
      (e : AppError) (a : A)
      → was_processed consumer key t.processed ≡ false
      → handle event t.app ≡ threw e a
      → transaction (handle_once consumer handle event) t ≡ threw e t
  transaction_failed e a h thrown =
      transaction_threw (handle_once consumer handle event) t e
        (record { processed = t.processed ++ (consumer, key) ∷ []; app = a })
        (rw (claim_fresh h, ◌>>=◌, thrown))

module _ {ℓ} {A : Type ℓ} (describe : AppError → List ℕ) (max_deliver : ℕ) (consumer : String)
    (handle : EventMessage → Exec A (Unit {0})) where
  pub deliver_seen :
      (event : EventMessage) (n : ℕ) (c : Consumer A)
      → was_processed consumer event.idempotency_key c.tables.processed ≡ true
      → let d = deliver describe max_deliver consumer handle event n c in
        (d.tables ≡ c.tables)
        × (d.verdicts ≡ c.verdicts ++ ack ∷ [])
        × (d.dead_letters ≡ c.dead_letters)
  unfolding deliver
  deliver_seen event n c h =
      rw (transaction_seen consumer handle event c.tables h) (refl, refl, refl)

  pub deliver_returned :
      (event : EventMessage) (n : ℕ) (c : Consumer A) (a : A)
      → was_processed consumer event.idempotency_key c.tables.processed ≡ false
      → handle event c.tables.app ≡ returned tt a
      → let d = deliver describe max_deliver consumer handle event n c in
        (d.tables ≡ record {
          processed = c.tables.processed ++ (consumer, event.idempotency_key) ∷ [];
          app = a;
        })
        × (d.verdicts ≡ c.verdicts ++ ack ∷ [])
        × (d.dead_letters ≡ c.dead_letters)
  unfolding deliver
  deliver_returned event n c a h e =
      rw (transaction_handled consumer handle event c.tables a h e) (refl, refl, refl)

  after_failure_tables :
      (event : EventMessage) (n : ℕ) (e : AppError) (c : Consumer A)
      → let d = after_failure describe max_deliver consumer handle event n e c in
        (d.tables ≡ c.tables) × (d.verdicts ≡ c.verdicts ++ verdict_of max_deliver n ∷ [])
  after_failure_tables event n e c = ground arith

  pub deliver_threw :
      (event : EventMessage) (n : ℕ) (c : Consumer A) (e : AppError) (a : A)
      → was_processed consumer event.idempotency_key c.tables.processed ≡ false
      → handle event c.tables.app ≡ threw e a
      → let d = deliver describe max_deliver consumer handle event n c in
        (d.tables ≡ c.tables) × (d.verdicts ≡ c.verdicts ++ verdict_of max_deliver n ∷ [])
  unfolding deliver
  deliver_threw event n c e a h t =
      rw (transaction_failed consumer handle event c.tables e a h t)
        (after_failure_tables event n e _)
