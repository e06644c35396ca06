-- ===== src/Messaging/Consumer/Poison.antt =====
-- An event whose handler keeps throwing (src/platform/messaging/durable-consumer.service.ts), and
-- the way back from a dead letter (src/platform/messaging/dead-letter.repository.ts).
use nest_kit.Base.{
  ℕ, zero, suc, ◌+◌, ◌<◌, String, ◌≡◌, refl, sym, ap, ◌∙◌, subst, false, List, [], ◌∷◌, ◌++◌,
  append_assoc, arith, take, All,
}
use native.Mathlib.Numerals.{add-one}
use nest_kit.Errors.{AppError}
use nest_kit.Effects.{Exec, returned, threw}
use nest_kit.Messaging.Consumer.{
  EventMessage, Verdict, nak, term, Consumer, DeadLetter, was_processed, deliver, discard,
  discard_processed, discard_dead_letter, record_dead_letter, is_row, after_failure,
}
use nest_kit.Messaging.Consumer.Once.{transaction_failed, deliver_returned}

-- No dead letter of this consumer and key.
abbrev pub IsClean : String → String → List DeadLetter → Type 0
IsClean consumer key rows = All (λ d. is_row consumer key d ≡ false) rows

record-clean :
    (d : DeadLetter) (rows : List DeadLetter)
    → IsClean d.consumer d.event.idempotency_key rows
    → record_dead_letter d rows ≡ rows ++ d ∷ []
unfolding record_dead_letter
record-clean d [] h = refl
record-clean d (x ∷ rows) (e, h) = rw (e, record-clean d rows h)

-- `k` deliveries of one event, whose counts begin at `n`.
pub redeliver {ℓ} :
    {A : Type ℓ}
    → (AppError → List ℕ)
    → ℕ
    → String
    → (EventMessage → Exec A (Unit {0}))
    → EventMessage
    → ℕ
    → ℕ
    → Consumer A
    → Consumer A
redeliver describe most consumer handle event zero n c = c
redeliver describe most consumer handle event (suc k) n c =
    redeliver describe most consumer handle event k (n + 1)
      (deliver describe most consumer handle event n c)

abbrev pub sent_back : ℕ → List Verdict
sent_back zero = term ∷ []
sent_back (suc k) = nak ∷ sent_back k

module _ {ℓ} {A : Type ℓ} (describe : AppError → List ℕ) (most : ℕ) (consumer : String)
    (handle : EventMessage → Exec A (Unit {0})) (event : EventMessage) (e : AppError) where
  abbrev letter : DeadLetter
  letter = record {
    consumer = consumer;
    event = event;
    error = take 2000 (describe e);
    delivery_count = most;
  }

  -- What a run of failing deliveries ends in.
  record Buried (k : ℕ) (c d : Consumer A) : Type ℓ where
    tables : d.tables ≡ c.tables
    letters : d.dead_letters ≡ c.dead_letters ++ letter ∷ []
    verdicts : d.verdicts ≡ c.verdicts ++ sent_back k

  failure_retried :
      (n : ℕ) (c : Consumer A)
      → n < most
      → let d = after_failure describe most consumer handle event n e c in
        (d.tables ≡ c.tables)
        × (d.dead_letters ≡ c.dead_letters)
        × (d.verdicts ≡ c.verdicts ++ nak ∷ [])
  failure_retried n c h = ground arith

  failure_buried :
      (c : Consumer A)
      → IsClean consumer event.idempotency_key c.dead_letters
      → let d = after_failure describe most consumer handle event most e c in
        (d.tables ≡ c.tables)
        × (d.dead_letters ≡ c.dead_letters ++ letter ∷ [])
        × (d.verdicts ≡ c.verdicts ++ term ∷ [])
  failure_buried c h = ground (arith, record-clean letter c.dead_letters h)

  module _ (a : A) (c : Consumer A)
      (fresh : was_processed consumer event.idempotency_key c.tables.processed ≡ false)
      (throws : handle event c.tables.app ≡ threw e a) where
    deliver_retried :
        (n : ℕ)
        → n < most
        → let d = deliver describe most consumer handle event n c in
          (d.tables ≡ c.tables)
          × (d.dead_letters ≡ c.dead_letters)
          × (d.verdicts ≡ c.verdicts ++ nak ∷ [])
    unfolding deliver
    deliver_retried n h =
        rw (transaction_failed consumer handle event c.tables e a fresh throws)
          (failure_retried n _ h)

    deliver_buried :
        IsClean consumer event.idempotency_key c.dead_letters
        → let d = deliver describe most consumer handle event most c in
          (d.tables ≡ c.tables)
          × (d.dead_letters ≡ c.dead_letters ++ letter ∷ [])
          × (d.verdicts ≡ c.verdicts ++ term ∷ [])
    unfolding deliver
    deliver_buried h =
        rw (transaction_failed consumer handle event c.tables e a fresh throws) (failure_buried _ h)

  redeliver-Buried :
      (k n : ℕ) (a : A) (c : Consumer A)
      → was_processed consumer event.idempotency_key c.tables.processed ≡ false
      → handle event c.tables.app ≡ threw e a
      → IsClean consumer event.idempotency_key c.dead_letters
      → n + k ≡ most
      → Buried k c (redeliver describe most consumer handle event (suc k) n c)
  unfolding redeliver
  redeliver-Buried zero n a c fresh throws clean total =
      let last : n ≡ most = omega arith in
      let (same, added, told) = deliver_buried a c fresh throws clean in
      rw last (record { tables = same; letters = added; verdicts = told })
  redeliver-Buried (suc k) n a c fresh throws clean total =
      let d = deliver describe most consumer handle event n c in
      let (same, kept, told) = deliver_retried a c fresh throws n (omega arith) in
      let rest =
        redeliver-Buried k (n + 1) a d
          (subst (λ t. was_processed consumer event.idempotency_key t.processed ≡ false) (sym same)
            fresh)
          (subst (λ t. handle event t.app ≡ threw e a) (sym same) throws)
          (subst (λ ls. IsClean consumer event.idempotency_key ls) (sym kept) clean)
          (omega arith) in
      record {
        tables = rest.tables ∙ same;
        letters = rest.letters ∙ ap (λ ls. ls ++ letter ∷ []) kept;
        verdicts =
            rest.verdicts
            ∙ ap (λ vs. vs ++ sent_back k) told
            ∙ append_assoc c.verdicts (nak ∷ []) (sent_back k);
      }

-- If the handler throws on the application's tables and the event has no dead letter yet, then the
-- deliveries numbered 1 to `maxDeliver` change no table; all but the last are sent back, the last is
-- terminated and leaves one dead letter, with the text of the error and the number of deliveries.
pub redeliver_dead_letters {ℓ} :
    {A : Type ℓ} (describe : AppError → List ℕ) (k : ℕ) (consumer : String)
    (handle : EventMessage → Exec A (Unit {0})) (event : EventMessage) (e : AppError) (a : A)
    (c : Consumer A)
    → was_processed consumer event.idempotency_key c.tables.processed ≡ false
    → handle event c.tables.app ≡ threw e a
    → IsClean consumer event.idempotency_key c.dead_letters
    → let d = redeliver describe (k + 1) consumer handle event (k + 1) 1 c in
      (d.tables ≡ c.tables)
      × (d.dead_letters
          ≡ c.dead_letters
            ++ record {
              consumer = consumer;
              event = event;
              error = take 2000 (describe e);
              delivery_count = k + 1;
            }
              ∷ [])
      × (d.verdicts ≡ c.verdicts ++ sent_back k)
redeliver_dead_letters describe k consumer handle event e a c fresh throws clean = rw add-one (
    let b =
      redeliver-Buried describe (suc k) consumer handle event e k 1 a c fresh throws clean
        (omega arith) in
    (b.tables, b.letters, b.verdicts))

discard_processed-fresh :
    (consumer key : String) (rows : List (String × String))
    → was_processed consumer key (discard_processed consumer key rows) ≡ false
unfolding was_processed discard_processed
discard_processed-fresh consumer key [] = refl
discard_processed-fresh consumer key ((c, k) ∷ rows) =
    ground (arith, discard_processed-fresh consumer key rows)

discard_dead_letter-IsClean :
    (consumer key : String) (rows : List DeadLetter)
    → IsClean consumer key (discard_dead_letter consumer key rows)
unfolding discard_dead_letter
discard_dead_letter-IsClean consumer key [] = tt
discard_dead_letter-IsClean consumer key (d ∷ rows) =
    ground (arith, discard_dead_letter-IsClean consumer key rows)

-- After a discard no dead letter of the event is left, and the next delivery is handled afresh,
-- whatever was processed before: if the handler returns, its effect is on the tables.
pub deliver-discard {ℓ} :
    {A : Type ℓ} (describe : AppError → List ℕ) (most n : ℕ) (consumer : String)
    (handle : EventMessage → Exec A (Unit {0})) (event : EventMessage) (c : Consumer A) (a : A)
    → handle event c.tables.app ≡ returned tt a
    → let d =
        deliver describe most consumer handle event n (discard consumer event.idempotency_key c) in
      (d.tables.app ≡ a) × IsClean consumer event.idempotency_key d.dead_letters
deliver-discard describe most n consumer handle event c a ran =
    let c' = discard consumer event.idempotency_key c in
    let (tables, verdicts, letters) =
      deliver_returned describe most consumer handle event n c' a
        (unfold discard in
          discard_processed-fresh consumer event.idempotency_key c.tables.processed)
        (unfold discard in ran) in
    (
      ap (λ t. t.app) tables,
      subst (λ ls. IsClean consumer event.idempotency_key ls) (sym letters)
          (unfold discard in
            discard_dead_letter-IsClean consumer event.idempotency_key c.dead_letters),
    )
