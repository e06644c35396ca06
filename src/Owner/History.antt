-- ===== src/Owner/History.antt =====
-- Histories of calls on one owner (src/modules/owner/domain/owner.ts).
use nest_kit.Base.{ℕ, ◌≤◌, ◌<◌, String, ◌≡◌, refl, List, [], ◌∷◌, ◌++◌, arith, length}
use nest_kit.Effects.{state_of, Result, ok, err}
use nest_kit.Events.{DomainEvent, owner_deactivated, owner_reactivated, owner_address_changed}
use nest_kit.Owner.{
  Owner, OwnerStatus, active, inactive, normalise_address, change_address, deactivate, reactivate,
  moved, register, registered,
}

pub data Call : Type 0 where
  moves : List ℕ → ℕ → Call
  deactivates : String → ℕ → Call
  reactivates : ℕ → Call

module _ (collapse : List ℕ → List ℕ) where
  -- The owner after a call, whether it threw or not.
  unfoldable pub step : Owner → Call → Owner
  step o (moves address now) = state_of (change_address collapse address now o)
  step o (deactivates reason now) = deactivate reason now o
  step o (reactivates now) = reactivate now o

  unfoldable pub run : Owner → List Call → Owner
  run o [] = o
  run o (c ∷ cs) = run (step o c) cs

-- The status that a list of events leaves, from the one at its beginning.
abbrev pub after_event : OwnerStatus → DomainEvent → OwnerStatus
after_event s (owner_deactivated uuid reason) = inactive
after_event s (owner_reactivated uuid) = active
after_event s _ = s

pub replay : OwnerStatus → List DomainEvent → OwnerStatus
replay s [] = s
replay s (e ∷ es) = replay (after_event s e) es

replay-append :
    (s : OwnerStatus) (es : List DomainEvent) (e : DomainEvent)
    → replay s (es ++ e ∷ []) ≡ after_event (replay s es) e
unfolding replay
replay-append s [] e = refl
replay-append s (x ∷ es) e = replay-append (after_event s x) es e

-- A consumer that knows the events alone knows the status.
pub record IsValid (o : Owner) : Type 0 where
  pub told : replay active o.events ≡ o.status
  pub short_address : (0 < length o.address) × (length o.address ≤ 512)

normalise_address_ok :
    (collapse : List ℕ → List ℕ) (address next : List ℕ)
    → normalise_address collapse address ≡ ok next
    → (0 < length next) × (length next ≤ 512)
unfolding normalise_address
normalise_address_ok collapse address next e = ground arith

module _ (collapse : List ℕ → List ℕ) where
  moved-IsValid :
      (o : Owner) (now : ℕ) (r : Result (List ℕ))
      → ((next : List ℕ) → r ≡ ok next → (0 < length next) × (length next ≤ 512))
      → IsValid o
      → IsValid (state_of (moved now r o))
  moved-IsValid o now (err e) h v = v
  moved-IsValid o now (ok next) h v =
      let bounded = h next refl in
      ground (arith, replay-append active o.events (owner_address_changed o.uuid next))

  step-IsValid : (o : Owner) (c : Call) → IsValid o → IsValid (step collapse o c)
  unfolding step change_address deactivate reactivate
  step-IsValid o (moves address now) v = ground (
    arith,
    moved-IsValid o now (normalise_address collapse address) (normalise_address_ok collapse address)
        v,
  )
  step-IsValid o (deactivates reason now) v =
      ground (arith, replay-append active o.events (owner_deactivated o.uuid reason))
  step-IsValid o (reactivates now) v =
      ground (arith, replay-append active o.events (owner_reactivated o.uuid))

  run-IsValid_from : (o : Owner) (cs : List Call) → IsValid o → IsValid (run collapse o cs)
  unfolding run
  run-IsValid_from o [] v = v
  run-IsValid_from o (c ∷ cs) v = run-IsValid_from (step collapse o c) cs (step-IsValid o c v)

  register-IsValid :
      (uuid user_uuid : String) (address : List ℕ) (born now : ℕ) (o : Owner)
      → register collapse uuid user_uuid address born now ≡ ok o
      → IsValid o
  unfolding register replay
  register-IsValid uuid user_uuid address born now o e =
      go (normalise_address collapse address) (normalise_address_ok collapse address) e
    where
      go :
          (r : Result (List ℕ))
          → ((next : List ℕ) → r ≡ ok next → (0 < length next) × (length next ≤ 512))
          → registered uuid user_uuid born now r ≡ ok o
          → IsValid o
      go (err e') h e'' = cc
      go (ok next) h e'' = let bounded = h next refl in ground arith

-- Whatever is done to an owner that was registered, its status is the one that its recorded events
-- tell, and its address has 1 to 512 code units.
pub register-run :
    (collapse : List ℕ → List ℕ) (uuid user_uuid : String) (address : List ℕ) (born now : ℕ)
    (o : Owner) (cs : List Call)
    → register collapse uuid user_uuid address born now ≡ ok o
    → IsValid (run collapse o cs)
register-run collapse uuid user_uuid address born now o cs e =
    run-IsValid_from collapse o cs (register-IsValid collapse uuid user_uuid address born now o e)
