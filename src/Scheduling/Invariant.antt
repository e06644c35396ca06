-- ===== src/Scheduling/Invariant.antt =====
-- What holds of the replicas of src/platform/scheduling after every step, and how a step that changes
-- one tick keeps it.
use nest_kit.Queries.{first-select, first}
use nest_kit.Base.{
  ℕ, ◌≤◌, ◌<◌, String, ◌≡◌, refl, sym, ◌∙◌, subst, inl, inr, true, false, not, some, List, [], ◌∷◌,
  ◌++◌, arith, eq_iff, eq_refl, ◌=ₛ◌, lt→ltb, Bool-cases, any, All, some_inj, and_left,
}
use nest_kit.Scheduling.{Lock, is_held, drop_key, Replica, has_name, Phase}
use nest_kit.Scheduling.Exclusion.{Tick, System, is_tick, update, moved, is_running, lock_of}

-- The lock of a tick is there while its lifetime lasts.
abbrev pub IsLocked : ℕ → List Lock → Tick → Type 0
IsLocked now locks t =
    (until : ℕ)
    → lock_of t.phase ≡ some until
    → now < until
    → (l : Lock) × (first (is_held t.name now) locks ≡ some l)
      × (l.holder ≡ t.holder)
      × (l.expires_at ≡ until)

-- A replica knows which of its ticks run.
abbrev pub IsKnown : (String → Replica) → Tick → Type 0
IsKnown replicas t =
    is_running t.phase ≡ true → has_name t.name (replicas t.holder).in_flight ≡ true

abbrev pub HasDistinctTicks : List Tick → Type 0
HasDistinctTicks [] = Unit
HasDistinctTicks (t ∷ ts) = (any (is_tick t.name t.holder) ts ≡ false) × HasDistinctTicks ts

pub record IsSound (s : System) : Type 0 where
  pub locked : All (IsLocked s.clock s.locks) s.ticks
  pub known : All (IsKnown s.replicas) s.ticks
  pub distinct : HasDistinctTicks s.ticks
  pub named : (h : String) → (s.replicas h).holder ≡ h

abbrev pub IsApart : Tick → Tick → Type 0
IsApart t a = is_tick t.name t.holder a ≡ false

IsApart_sym : (t a : Tick) → is_tick a.name a.holder t ≡ false → is_tick t.name t.holder a ≡ false
IsApart_sym t a h = ground (
  arith,
  eq_iff t.name a.name,
  eq_iff a.name t.name,
  eq_iff t.holder a.holder,
  eq_iff a.holder t.holder,
)

module _ (t : Tick) (P Q : Tick → Type 0) (k : (a : Tick) → IsApart t a → P a → Q a) where
  -- The other ticks, which are of other tasks or replicas
  All-others :
      (after : List Tick) → any (is_tick t.name t.holder) after ≡ false → All P after → All Q after
  All-others [] d h = tt
  All-others (a ∷ after) d (p, h) = (k a ground arith p, All-others after ground arith h)

  IsApart-of :
      (x : Tick) (before after : List Tick)
      → any (is_tick x.name x.holder) (before ++ t ∷ after) ≡ false
      → IsApart t x
  IsApart-of x [] after d = IsApart_sym t x ground arith
  IsApart-of x (b ∷ before) after d = IsApart-of x before after ground arith

  -- One tick becomes another one.
  pub All-moved :
      (new : Tick) (before after : List Tick)
      → (P t → Q new)
      → HasDistinctTicks (before ++ t ∷ after)
      → All P (before ++ t ∷ after)
      → All Q (before ++ new ∷ after)
  All-moved new [] after n (d, rest) (p, h) = (n p, All-others after d h)
  All-moved new (b ∷ before) after n (d, rest) (p, h) =
      (k b (IsApart-of b before after d) p, All-moved new before after n rest h)

  -- One tick goes.
  pub All-removed :
      (before after : List Tick)
      → HasDistinctTicks (before ++ t ∷ after)
      → All P (before ++ t ∷ after)
      → All Q (before ++ after)
  All-removed [] after (d, rest) (p, h) = All-others after d h
  All-removed (b ∷ before) after (d, rest) (p, h) =
      (k b (IsApart-of b before after d) p, All-removed before after rest h)

module _ (t : Tick) (phase : Phase) where
  any-moved :
      (name holder : String) (before after : List Tick)
      → any (is_tick name holder) (before ++ moved phase t ∷ after)
        ≡ any (is_tick name holder) (before ++ t ∷ after)
  any-moved name holder [] after = refl
  any-moved name holder (b ∷ before) after = rw (any-moved name holder before after) refl

  pub HasDistinctTicks-moved :
      (before after : List Tick)
      → HasDistinctTicks (before ++ t ∷ after)
      → HasDistinctTicks (before ++ moved phase t ∷ after)
  HasDistinctTicks-moved [] after h = h
  HasDistinctTicks-moved (b ∷ before) after (d, h) =
      (any-moved b.name b.holder before after ∙ d, HasDistinctTicks-moved before after h)

any-removed :
    (t : Tick) (name holder : String) (before after : List Tick)
    → any (is_tick name holder) (before ++ t ∷ after) ≡ false
    → any (is_tick name holder) (before ++ after) ≡ false
any-removed t name holder [] after d = ground arith
any-removed t name holder (b ∷ before) after d =
    let later = any-removed t name holder before after ground arith in ground (arith, later)

pub HasDistinctTicks-removed :
    (t : Tick) (before after : List Tick)
    → HasDistinctTicks (before ++ t ∷ after)
    → HasDistinctTicks (before ++ after)
HasDistinctTicks-removed t [] after (d, h) = h
HasDistinctTicks-removed t (b ∷ before) after (d, h) =
    (any-removed t b.name b.holder before after d, HasDistinctTicks-removed t before after h)

-- The lock that is live now is the first live one later, while it lives.
first-is_held-later :
    (name : String) (clock now : ℕ) (locks : List Lock) (l : Lock)
    → clock ≤ now
    → first (is_held name clock) locks ≡ some l
    → now < l.expires_at
    → first (is_held name now) locks ≡ some l
unfolding first
first-is_held-later name clock now [] l le e live = cc
first-is_held-later name clock now (m ∷ locks) l le e live =
    elim (Bool-cases (is_held name clock m)) [
      | inl hit ↦
          let same : m ≡ l = some_inj (rw hit at e) in
          let held = subst (λ x. is_held name clock x ≡ true) same hit in
          rw (same, and_left (l.name =ₛ name) _ held, lt→ltb now l.expires_at live) refl
      | inr miss ↦
          let gone : is_held name now m ≡ false = ground arith in
          rw gone (first-is_held-later name clock now locks l le (rw miss at e) live)
    ]

pub IsLocked-later :
    (clock now : ℕ) (locks : List Lock) (t : Tick)
    → clock ≤ now
    → IsLocked clock locks t
    → IsLocked now locks t
IsLocked-later clock now locks t le h until e live =
    let (l, here, hold, exp) = h until e (omega (arith, le, live)) in
    (l, first-is_held-later t.name clock now locks l le here (omega (arith, live, exp)), hold, exp)

-- The entries of other keys are found as before.
pub first-drop_key :
    (name other : String) (now : ℕ) (locks : List Lock)
    → (other =ₛ name) ≡ false
    → first (is_held other now) (drop_key name locks) ≡ first (is_held other now) locks
unfolding drop_key
first-drop_key name other now locks ne =
    first-select (is_held other now) (λ l. not (l.name =ₛ name)) true locks
      (λ l h.
        let its : l.name ≡ other = (eq_iff l.name other).0 (and_left (l.name =ₛ other) _ h) in
        rw (its, ne) refl)

pub first-set_nx :
    (name holder other : String) (until now : ℕ) (locks : List Lock)
    → (other =ₛ name) ≡ false
    → first
        (is_held other now)
        (record { name = name; holder = holder; expires_at = until } ∷ drop_key name locks)
      ≡ first (is_held other now) locks
unfolding first
first-set_nx name holder other until now locks ne =
    ground (arith, first-drop_key name other now locks ne, eq_iff name other, eq_iff other name)

pub first-set_nx_self :
    (name holder : String) (until now : ℕ) (locks : List Lock)
    → now < until
    → first
        (is_held name now)
        (record { name = name; holder = holder; expires_at = until } ∷ drop_key name locks)
      ≡ some (record { name = name; holder = holder; expires_at = until })
unfolding first
first-set_nx_self name holder until now locks live = rw (eq_refl name, lt→ltb now until live) refl

pub update-holder :
    (replicas : String → Replica) (holder : String) (r : Replica)
    → r.holder ≡ holder
    → ((h : String) → (replicas h).holder ≡ h)
    → (h : String) → (update replicas holder r h).holder ≡ h
update-holder replicas holder r e k h = elim (Bool-cases (h =ₛ holder)) [
  | inl same ↦ rw same (e ∙ sym ((eq_iff h holder).0 same))
  | inr other ↦ rw other (k h)
]
