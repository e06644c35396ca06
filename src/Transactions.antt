-- ===== src/Transactions.antt =====
-- src/platform/database/typeorm-unit-of-work.ts and src/platform/eventbus/outbox-event-bus.ts. The
-- tables that a transaction may write are one value, which a throw gives back as it was.
use nest_kit.Base.{◌≡◌, refl, Bool, true, false, Option, none, some, List, [], ◌++◌}
use nest_kit.Errors.{AppError}
use nest_kit.Effects.{
  Result, ok, err, Exec, Outcome, returned, threw, lift, or_throw, throw_if, state_of,
}

-- What `DataSource.transaction` does: a throw rolls every write back.
abbrev rolled_back {ℓ κ} : {S : Type ℓ} {A : Type κ} → S → Outcome S A → Outcome S A
rolled_back s (returned a t) = returned a t
rolled_back s (threw e t) = threw e s

unfoldable pub transaction {ℓ κ} : {S : Type ℓ} {A : Type κ} → Exec S A → Exec S A
transaction work s = rolled_back s (work s)

module _ {ℓ κ} {S : Type ℓ} {A : Type κ} (work : Exec S A) (s : S) where
  pub transaction_returned :
      (a : A) (t : S) → work s ≡ returned a t → transaction work s ≡ returned a t
  unfolding transaction
  transaction_returned a t e = rw e

  pub transaction_threw :
      (e : AppError) (t : S) → work s ≡ threw e t → transaction work s ≡ threw e s
  unfolding transaction
  transaction_threw e t thrown = rw thrown

-- The scope of a transaction: the tables, and the events collected for the outbox.
pub record Scope {ℓ κ} (D : Type ℓ) (E : Type κ) : Type (ℓ ⊔ κ) where
  pub db : D
  pub events : List E

-- Outside transactions: the tables, the outbox in order, and what in-process handlers were given.
pub record World {ℓ κ} (D : Type ℓ) (E : Type κ) : Type (ℓ ⊔ κ) where
  pub db : D
  pub outbox : List E
  pub dispatched : List E

module _ {ℓ κ μ} {D : Type ℓ} {E : Type κ} {A : Type μ} where
  abbrev committed : World D E → Outcome (Scope D E) A → Outcome (World D E) A
  committed w (returned a s) =
      returned a
        (record { db = s.db; outbox = w.outbox ++ s.events; dispatched = w.dispatched ++ s.events })
  committed w (threw e s) = threw e w

  -- `withTransaction`, called outside any transaction. Every event has a key of its own, so the
  -- outbox takes each of them. A nested call is its work alone.
  unfoldable pub with_transaction : Exec (Scope D E) A → Exec (World D E) A
  with_transaction work w = committed w (work (record { db = w.db; events = [] }))

module _ {ℓ κ} {D : Type ℓ} {E : Type κ} where
  -- `publishAll` of the outbox's event bus, inside a transaction.
  abbrev pub publish_all : List E → Exec (Scope D E) (Unit {0})
  publish_all events s = returned tt (record s { events = s.events ++ events })

  -- A read of the tables.
  abbrev pub reads {μ} : {A : Type μ} → (D → A) → Exec (Scope D E) A
  reads f s = returned (f s.db) s

  -- A write of the tables.
  abbrev pub writes : (D → D) → Exec (Scope D E) (Unit {0})
  writes f s = returned tt (record s { db = f s.db })

module _ {ℓ κ μ} {S : Type ℓ} {A : Type κ} where
  -- What holds of a value and a state when a computation returns.
  abbrev pub Post : (A → S → Type μ) → Outcome S A → Type μ
  Post P (returned a s) = P a s
  Post P (threw e s) = Unit

module _ {ℓ κ λ_ μ} {S : Type ℓ} {A : Type κ} {B : Type λ_} where
  pub bind-Post :
      (P : A → S → Type μ) (Q : B → S → Type μ) (o : Outcome S A) (f : A → Exec S B)
      → Post P o
      → ((a : A) (s : S) → P a s → Post Q (f a s))
      → Post Q (elim o [ returned a s ↦ f a s | threw e s ↦ threw e s ])
  bind-Post P Q (returned a s) f h k = k a s h
  bind-Post P Q (threw e s) f h k = tt

module _ {ℓ κ} {S : Type ℓ} {A : Type κ} where
  pub lift-Post : (r : Result A) (s : S) → Post (λ a t. (t ≡ s) × (r ≡ ok a)) (lift r s)
  lift-Post (ok a) s = (refl, refl)
  lift-Post (err e) s = tt

  pub or_throw-Post :
      (e : AppError) (o : Option A) (s : S) → Post (λ a t. (t ≡ s) × (o ≡ some a)) (or_throw e o s)
  or_throw-Post e none s = tt
  or_throw-Post e (some a) s = (refl, refl)

module _ {ℓ} {S : Type ℓ} where
  pub throw_if-Post :
      (b : Bool) (e : AppError) (s : S) → Post (λ _ t. (t ≡ s) × (b ≡ false)) (throw_if b e s)
  throw_if-Post true e s = tt
  throw_if-Post false e s = (refl, refl)

module _ {ℓ κ μ ν} {D : Type ℓ} {E : Type κ} {A : Type μ} where
  -- A predicate of the tables that a transaction keeps when it returns is kept in any case.
  pub committed-Post :
      (P : D → Type ν) (work : Exec (Scope D E) A) (w : World D E)
      → P w.db
      → Post (λ _ t. P t.db) (work (record { db = w.db; events = [] }))
      → P (state_of (with_transaction work w)).db
  unfolding with_transaction
  committed-Post P work w before after = ends (work (record { db = w.db; events = [] })) after
    where
      ends : (o : Outcome (Scope D E) A) → Post (λ _ t. P t.db) o → P (state_of (committed w o)).db
      ends (returned a t) h = h
      ends (threw e t) h = before
