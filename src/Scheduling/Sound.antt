-- ===== src/Scheduling/Sound.antt =====
-- That each step of the replicas of src/platform/scheduling keeps the invariant.
use nest_kit.Base.{
  ℕ, ◌+◌, ◌≤◌, String, ◌≡◌, refl, sym, ap, ◌∙◌, subst, inl, inr, Bool, true, false, not, ◌&&◌, none,
  some, List, [], ◌∷◌, ◌++◌, arith, eq_iff, eq_refl, ◌=ₛ◌, Bool-cases, Option-cases, any, All,
  some_inj, and_left, and_right, or_true,
}
use nest_kit.Queries.{first, found, All_imp, any-select}
use nest_kit.Scheduling.{
  Lock, is_held, holder_of, drop_key, acquire, is_holder, release, Replica, has_name, skips,
  begin_run, end_run, shut_down, Phase, asking, won, lost, running, leaving,
}
use nest_kit.Scheduling.Exclusion.{
  Tick, System, is_tick, update, moved, waits, is_running, lock_of, asked,
}
use nest_kit.Scheduling.Invariant.{
  IsLocked, IsKnown, HasDistinctTicks, IsSound, IsApart, All-moved, All-removed,
  HasDistinctTicks-moved, HasDistinctTicks-removed, IsLocked-later, first-drop_key, first-set_nx,
  first-set_nx_self, update-holder,
}

waits_or_runs : (p : Phase) → waits p ≡ false → is_running p ≡ true
waits_or_runs asking h = cc
waits_or_runs (won until) h = cc
waits_or_runs lost h = cc
waits_or_runs (running until) h = refl
waits_or_runs leaving h = cc

-- A task that a replica does not know to run, and that waits for nothing there, has no tick.
no_tick :
    (replicas : String → Replica) (name holder : String) (ticks : List Tick)
    → has_name name (replicas holder).in_flight ≡ false
    → any (λ t. is_tick name holder t && waits t.phase) ticks ≡ false
    → All (IsKnown replicas) ticks
    → any (is_tick name holder) ticks ≡ false
no_tick replicas name holder [] free paced h = refl
no_tick replicas name holder (t ∷ ticks) free paced (k, h) =
    let rest = no_tick replicas name holder ticks free ground arith h in
    elim (Bool-cases (is_tick name holder t)) [
      | inl hit ↦
          let n = (eq_iff t.name name).0 (and_left (t.name =ₛ name) _ hit) in
          let o = (eq_iff t.holder holder).0 (and_right (t.name =ₛ name) _ hit) in
          let idle : waits t.phase ≡ false = ground arith in
          cc (
            free,
            subst (λ x. has_name x (replicas holder).in_flight ≡ true) n
                (subst (λ x. has_name t.name (replicas x).in_flight ≡ true) o
                  (k (waits_or_runs t.phase idle))),
          )
      | inr miss ↦ rw (miss, rest) refl
    ]

holder_of-none :
    (name : String) (now : ℕ) (locks : List Lock)
    → holder_of name now locks ≡ none
    → first (is_held name now) locks ≡ none
unfolding holder_of
holder_of-none name now locks e = elim (Option-cases (first (is_held name now) locks)) [
  | inl gone ↦ gone
  | inr (l, here) ↦ cc (rw here at e)
]

IsKnown-begin_run :
    (replicas : String → Replica) (name holder : String) (a : Tick)
    → IsKnown replicas a
    → IsKnown (update replicas holder (begin_run name (replicas holder))) a
unfolding begin_run
IsKnown-begin_run replicas name holder a k runs = elim (Bool-cases (a.holder =ₛ holder)) [
  | inl same ↦
      let e = (eq_iff a.holder holder).0 same in
      let there : has_name a.name (replicas holder).in_flight ≡ true =
        subst (λ x. has_name a.name (replicas x).in_flight ≡ true) e (k runs) in
      rw (same, there) (or_true (name =ₛ a.name))
  | inr other ↦ rw other (k runs)
]

IsKnown-end_run :
    (replicas : String → Replica) (t a : Tick)
    → IsApart t a
    → IsKnown replicas a
    → IsKnown (update replicas t.holder (end_run t.name (replicas t.holder))) a
unfolding end_run
IsKnown-end_run replicas t a apart k runs = elim (Bool-cases (a.holder =ₛ t.holder)) [
  | inl same ↦
      let e = (eq_iff a.holder t.holder).0 same in
      let there : has_name a.name (replicas t.holder).in_flight ≡ true =
        subst (λ x. has_name a.name (replicas x).in_flight ≡ true) e (k runs) in
      rw same (
        any-select (λ n. n =ₛ a.name) (λ n. not (n =ₛ t.name)) (replicas t.holder).in_flight
          (λ n its. ground (arith, eq_iff n a.name, eq_iff n t.name, eq_iff a.name t.name))
        ∙ there)
  | inr other ↦ rw other (k runs)
]

IsKnown-shut_down :
    (replicas : String → Replica) (holder : String) (a : Tick)
    → IsKnown replicas a
    → IsKnown (update replicas holder (shut_down (replicas holder))) a
unfolding shut_down
IsKnown-shut_down replicas holder a k runs = elim (Bool-cases (a.holder =ₛ holder)) [
  | inl same ↦ rw same (
      subst (λ x. has_name a.name (replicas x).in_flight ≡ true) ((eq_iff a.holder holder).0 same)
        (k runs))
  | inr other ↦ rw other (k runs)
]

-- The locks of the other ticks after a lock was set
IsLocked-set_nx :
    (name holder : String) (until clock now : ℕ) (locks : List Lock) (t : Tick)
    → clock ≤ now
    → first (is_held name now) locks ≡ none
    → IsLocked clock locks t
    → IsLocked now
        (record { name = name; holder = holder; expires_at = until } ∷ drop_key name locks)
        t
IsLocked-set_nx name holder until clock now locks t le free h end e live =
    let (l, here, hold, exp) = IsLocked-later clock now locks t le h end e live in
    elim (Bool-cases (t.name =ₛ name)) [
      | inl same ↦
          cc (sym here ∙ ap (λ x. first (is_held x now) locks) ((eq_iff t.name name).0 same) ∙ free)
      | inr other ↦ (l, first-set_nx name holder t.name until now locks other ∙ here, hold, exp)
    ]

and_false : (b : Bool) → (b && false) ≡ false
and_false b = ground arith

-- A release leaves the locks of other ticks.
IsLocked-release :
    (reached : Bool) (name holder : String) (clock now : ℕ) (locks : List Lock) (t : Tick)
    → clock ≤ now
    → is_tick name holder t ≡ false
    → IsLocked clock locks t
    → IsLocked now (release reached name holder now locks) t
unfolding release holder_of
IsLocked-release reached name holder clock now locks t le apart k end e live =
    let (l, here, hold, exp) = IsLocked-later clock now locks t le k end e live in
    elim (Bool-cases (t.name =ₛ name)) [
      | inl same ↦
          let n = (eq_iff t.name name).0 same in
          let found_ : first (is_held name now) locks ≡ some l =
            ap (λ x. first (is_held x now) locks) (sym n) ∙ here in
          let other : (l.holder =ₛ holder) ≡ false = rw hold (rw same at apart) in
          rw (found_, other, and_false reached) (l, here, hold, exp)
      | inr differs ↦
          elim (Bool-cases (
            reached
            && is_holder holder
                (found (λ (m : Lock). m.holder) (first (is_held name now) locks)))) [
                  | inl drops ↦
                      rw drops (l, first-drop_key name t.name now locks differs ∙ here, hold, exp)
                  | inr keeps ↦ rw keeps (l, here, hold, exp)
                ]
    ]

module _ (ttl_ms : ℕ) (s : System) (h : IsSound s) where
  same_locks : (now : ℕ) → s.clock ≤ now → All (IsLocked now s.locks) s.ticks
  same_locks now le = All_imp (λ t k. IsLocked-later s.clock now s.locks t le k) s.ticks h.locked

  pub begins-IsSound :
      (name holder : String)
      → skips name (s.replicas holder) ≡ false
      → any (λ t. is_tick name holder t && waits t.phase) s.ticks ≡ false
      → IsSound
          (record s { ticks = record { name = name; holder = holder; phase = asking } ∷ s.ticks })
  unfolding skips
  begins-IsSound name holder free paced = record {
    locked = (λ until e. cc, h.locked);
    known = (λ runs. cc, h.known);
    distinct = (no_tick s.replicas name holder s.ticks ground arith paced h.known, h.distinct);
    named = h.named;
  }

  module _ (before : List Tick) (t : Tick) (after : List Tick)
      (e : s.ticks ≡ before ++ t ∷ after) where
    here-IsLocked : All (IsLocked s.clock s.locks) (before ++ t ∷ after)
    here-IsLocked = subst (All (IsLocked s.clock s.locks)) e h.locked

    here-IsKnown : All (IsKnown s.replicas) (before ++ t ∷ after)
    here-IsKnown = subst (All (IsKnown s.replicas)) e h.known

    here-HasDistinctTicks : HasDistinctTicks (before ++ t ∷ after)
    here-HasDistinctTicks = subst HasDistinctTicks e h.distinct

    lost-IsSound :
        (now : ℕ) → s.clock ≤ now → IsSound (asked ttl_ms now s before t after (false, s.locks))
    lost-IsSound now le = record {
      locked =
          All-moved t (IsLocked s.clock s.locks) (IsLocked now s.locks)
            (λ a apart k. IsLocked-later s.clock now s.locks a le k) (moved lost t) before after
            (λ k until q. cc) here-HasDistinctTicks here-IsLocked;
      known =
          All-moved t (IsKnown s.replicas) (IsKnown s.replicas) (λ a apart k. k) (moved lost t)
            before after (λ k q. cc) here-HasDistinctTicks here-IsKnown;
      distinct = HasDistinctTicks-moved t lost before after here-HasDistinctTicks;
      named = h.named;
    }

    won-IsSound :
        (now : ℕ)
        → s.clock ≤ now
        → first (is_held t.name now) s.locks ≡ none
        → IsSound (
            asked ttl_ms now s before t after (
              true,
              record {
                name = t.name;
                holder = (s.replicas t.holder).holder;
                expires_at = now + ttl_ms;
              }
                  ∷ drop_key t.name s.locks,
            ))
    won-IsSound now le free = record {
      locked =
          All-moved t (IsLocked s.clock s.locks) _
            (λ a apart k.
              IsLocked-set_nx t.name (s.replicas t.holder).holder (now + ttl_ms) s.clock now s.locks
                a le free k)
            (moved (won (now + ttl_ms)) t) before after
            (λ k until q live.
              let same : now + ttl_ms ≡ until = some_inj q in
              (
                _,
                first-set_nx_self t.name (s.replicas t.holder).holder (now + ttl_ms) now s.locks
                    (omega (arith, same, live)),
                h.named t.holder,
                same,
              ))
            here-HasDistinctTicks here-IsLocked;
      known =
          All-moved t (IsKnown s.replicas) (IsKnown s.replicas) (λ a apart k. k)
            (moved (won (now + ttl_ms)) t) before after (λ k q. cc) here-HasDistinctTicks
            here-IsKnown;
      distinct = HasDistinctTicks-moved t (won (now + ttl_ms)) before after here-HasDistinctTicks;
      named = h.named;
    }

    pub asks-IsSound :
        (reached : Bool) (now : ℕ)
        → s.clock ≤ now
        → IsSound (
            asked ttl_ms now s before t after
              (acquire reached t.name (s.replicas t.holder).holder ttl_ms now s.locks))
    unfolding acquire
    asks-IsSound reached now le = elim (Bool-cases reached) [
      | inl yes_ ↦ elim (Option-cases (holder_of t.name now s.locks)) [
        | inl gone ↦ rw (yes_, gone) (won-IsSound now le (holder_of-none t.name now s.locks gone))
        | inr (other, held) ↦ rw (yes_, held) (lost-IsSound now le)
      ]
      | inr no_ ↦ rw no_ (lost-IsSound now le)
    ]

    pub starts-IsSound :
        (until : ℕ)
        → t.phase ≡ won until
        → IsSound (record s {
          replicas = update s.replicas t.holder (begin_run t.name (s.replicas t.holder));
          ticks = before ++ moved (running until) t ∷ after;
        })
    starts-IsSound until p = record {
      locked =
          All-moved t (IsLocked s.clock s.locks) (IsLocked s.clock s.locks) (λ a apart k. k)
            (moved (running until) t) before after (λ k end q. k end (ap lock_of p ∙ q))
            here-HasDistinctTicks here-IsLocked;
      known =
          All-moved t (IsKnown s.replicas) _
            (λ a apart k. IsKnown-begin_run s.replicas t.name t.holder a k)
            (moved (running until) t) before after
            (λ k q. unfold begin_run in rw (eq_refl t.holder, eq_refl t.name) refl)
            here-HasDistinctTicks here-IsKnown;
      distinct = HasDistinctTicks-moved t (running until) before after here-HasDistinctTicks;
      named =
          update-holder s.replicas t.holder (begin_run t.name (s.replicas t.holder))
            (unfold begin_run in h.named t.holder) h.named;
    }

    pub gives_up-IsSound : IsSound (record s { ticks = before ++ after })
    gives_up-IsSound = record {
      locked =
          All-removed t (IsLocked s.clock s.locks) (IsLocked s.clock s.locks) (λ a apart k. k)
            before after here-HasDistinctTicks here-IsLocked;
      known =
          All-removed t (IsKnown s.replicas) (IsKnown s.replicas) (λ a apart k. k) before after
            here-HasDistinctTicks here-IsKnown;
      distinct = HasDistinctTicks-removed t before after here-HasDistinctTicks;
      named = h.named;
    }

    pub ends-IsSound : IsSound (record s {
      replicas = update s.replicas t.holder (end_run t.name (s.replicas t.holder));
      ticks = before ++ moved leaving t ∷ after;
    })
    ends-IsSound = record {
      locked =
          All-moved t (IsLocked s.clock s.locks) (IsLocked s.clock s.locks) (λ a apart k. k)
            (moved leaving t) before after (λ k until q. cc) here-HasDistinctTicks here-IsLocked;
      known =
          All-moved t (IsKnown s.replicas) _ (λ a apart k. IsKnown-end_run s.replicas t a apart k)
            (moved leaving t) before after (λ k q. cc) here-HasDistinctTicks here-IsKnown;
      distinct = HasDistinctTicks-moved t leaving before after here-HasDistinctTicks;
      named =
          update-holder s.replicas t.holder (end_run t.name (s.replicas t.holder))
            (unfold end_run in h.named t.holder) h.named;
    }

    pub releases-IsSound :
        (reached : Bool) (now : ℕ)
        → s.clock ≤ now
        → IsSound (record {
          replicas = s.replicas;
          locks = release reached t.name (s.replicas t.holder).holder now s.locks;
          ticks = before ++ after;
          clock = now;
        })
    releases-IsSound reached now le = record {
      locked =
          All-removed t (IsLocked s.clock s.locks) _
            (λ a apart k.
              subst (λ x. IsLocked now (release reached t.name x now s.locks) a)
                (sym (h.named t.holder))
                (IsLocked-release reached t.name t.holder s.clock now s.locks a le apart k))
            before after here-HasDistinctTicks here-IsLocked;
      known =
          All-removed t (IsKnown s.replicas) (IsKnown s.replicas) (λ a apart k. k) before after
            here-HasDistinctTicks here-IsKnown;
      distinct = HasDistinctTicks-removed t before after here-HasDistinctTicks;
      named = h.named;
    }

  pub shuts-IsSound :
      (holder : String)
      → IsSound (record s { replicas = update s.replicas holder (shut_down (s.replicas holder)) })
  shuts-IsSound holder = record {
    locked = h.locked;
    known = All_imp (λ a k. IsKnown-shut_down s.replicas holder a k) s.ticks h.known;
    distinct = h.distinct;
    named =
        update-holder s.replicas holder (shut_down (s.replicas holder))
          (unfold shut_down in h.named holder) h.named;
  }

  pub passes-IsSound : (now : ℕ) → s.clock ≤ now → IsSound (record s { clock = now })
  passes-IsSound now le = record {
    locked = same_locks now le;
    known = h.known;
    distinct = h.distinct;
    named = h.named;
  }
