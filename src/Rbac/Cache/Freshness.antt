-- ===== src/Rbac/Cache/Freshness.antt =====
-- How old an answer of redis-access-control.ts may be, whatever is called and whatever fails.
use nest_kit.Queries.{All_imp, first, All-first, All-select, first_sound, first-select}
use nest_kit.Base.{
  ℕ, ◌+◌, ◌≤◌, ◌<◌, String, ◌≡◌, refl, sym, ap, ◌∙◌, subst, inl, inr, Bool, true, false, not, some,
  List, [], ◌∷◌, arith, eq_iff, ◌=ₛ◌, ltb→lt, Bool-cases, Option-cases, any, All, some_inj,
  and_left, and_right,
}
use nest_kit.Rbac.Grants.{Grants}
use nest_kit.Rbac.Cache.{
  Entry, Course, is_live, is_entry_of, names, read, write, cached_grants_for, invalidate,
}

-- The entries, and the time of the last call
pub record State : Type 0 where
  pub entries : List Entry
  pub clock : ℕ

-- The answers of the repository over time, and the longest time between a read of the database and
-- the write that follows it.
module _ (stored : ℕ → String → Grants) (ttl_seconds lag : ℕ) where
  -- A call of `grantsFor` or of `invalidate`.
  pub data Step (s : State) : State → Type 0 where
    reads :
        (c : Course) (user_uuid : String)
        → s.clock ≤ c.now
        → c.now ≤ c.later
        → c.later ≤ c.now + lag
        → Step s (record {
          entries =
              (cached_grants_for ttl_seconds c user_uuid (stored c.now user_uuid) s.entries).1;
          clock = c.later;
        })
    invalidates :
        (reached : Bool) (user_uuids : List String) (now : ℕ)
        → s.clock ≤ now
        → Step s (record { entries = invalidate reached user_uuids s.entries; clock = now })

  pub data Reach : State → Type 0 where
    start : (now : ℕ) → Reach (record { entries = []; clock = now })
    later : {s t : State} → Reach s → Step s t → Reach t

  -- An answer that the repository gave at a time from which it may be served until `until`.
  abbrev pub IsStored : String → ℕ → ℕ → Grants → Type 0
  IsStored user_uuid clock until grants =
      (at : ℕ) × (stored at user_uuid ≡ grants) × (at ≤ clock) × (until ≤ at + lag + ttl_seconds)

  abbrev IsSound : ℕ → Entry → Type 0
  IsSound clock e =
      (grants : Grants) → e.parsed ≡ some grants → IsStored e.user_uuid clock e.expires_at grants

  IsSound-later :
      (clock now : ℕ) (entries : List Entry)
      → clock ≤ now
      → All (IsSound clock) entries
      → All (IsSound now) entries
  IsSound-later clock now entries le h =
      All_imp
        (λ e sound grants p. let (at, a, b, c) = sound grants p in (at, a, omega (arith, b, le), c))
        entries h

  Step-IsSound :
      {s t : State} → Step s t → All (IsSound s.clock) s.entries → All (IsSound t.clock) t.entries
  unfolding cached_grants_for write invalidate
  Step-IsSound {s} (reads c user_uuid le le1 le2) h =
      let now_sound = IsSound-later s.clock c.later s.entries (omega (arith, le, le1)) h in
      elim (Option-cases (read c.get_reached user_uuid c.now s.entries)) [
        | inl miss ↦ elim (Bool-cases c.set_reached) [
          | inl yes_ ↦
              rw (miss, yes_)
                (
                  (λ grants p. (c.now, some_inj p, omega (arith, le1), omega (arith, le2))),
                  All-select (IsSound c.later) (λ e. not (is_entry_of user_uuid e)) s.entries
                      now_sound,
                )
          | inr no_ ↦ rw (miss, no_) now_sound
        ]
        | inr (grants, hit) ↦ rw hit now_sound
      ]
  Step-IsSound {s} (invalidates reached user_uuids now le) h = kept reached user_uuids
    where
      sound : All (IsSound now) s.entries
      sound = IsSound-later s.clock now s.entries le h

      kept : (r : Bool) (us : List String) → All (IsSound now) (invalidate r us s.entries)
      kept r [] = sound
      kept true (u ∷ us) = All-select (IsSound now) (λ e. not (names (u ∷ us) e)) s.entries sound
      kept false (u ∷ us) = sound

  Reach-IsSound : {s : State} → Reach s → All (IsSound s.clock) s.entries
  Reach-IsSound (start now) = tt
  Reach-IsSound (later r step) = Step-IsSound step (Reach-IsSound r)

  hit-IsStored :
      (entries : List Entry) (clock now : ℕ) (reached : Bool) (user_uuid : String) (grants : Grants)
      → All (IsSound clock) entries
      → read reached user_uuid now entries ≡ some grants
      → IsStored user_uuid clock now grants
  unfolding read
  hit-IsStored entries clock now false user_uuid grants h e = cc
  hit-IsStored entries clock now true user_uuid grants h e =
      elim (Option-cases (first (is_live user_uuid now) entries)) [
        | inl gone ↦ cc (rw gone at e)
        | inr (entry, there) ↦
            let live = first_sound (is_live user_uuid now) entries entry there in
            let its : entry.user_uuid ≡ user_uuid =
              (eq_iff entry.user_uuid user_uuid).0
                (and_left (entry.user_uuid =ₛ user_uuid) _ live) in
            let before : now < entry.expires_at =
              ltb→lt now entry.expires_at (and_right (entry.user_uuid =ₛ user_uuid) _ live) in
            let (at, a, b, c) =
              All-first (IsSound clock) (is_live user_uuid now) entries entry there h grants
                (rw there at e) in
            (at, ap (stored at) (sym its) ∙ a, b, omega (arith, before, c))
      ]

  -- Whatever calls were made before, whichever of them Redis failed, an answer is one that the
  -- repository gave at most the time to live and the lag of a write before the call.
  pub cached_grants_for-IsStored :
      (s : State) (c : Course) (user_uuid : String)
      → Reach s
      → s.clock ≤ c.now
      → IsStored user_uuid c.now c.now
          (cached_grants_for ttl_seconds c user_uuid (stored c.now user_uuid) s.entries).0
  unfolding cached_grants_for
  cached_grants_for-IsStored s c user_uuid r le =
      elim (Option-cases (read c.get_reached user_uuid c.now s.entries)) [
        | inl miss ↦ rw miss (c.now, refl, omega arith, omega arith)
        | inr (grants, hit) ↦
            let (at, a, b, d) =
              hit-IsStored s.entries s.clock c.now c.get_reached user_uuid grants (Reach-IsSound r)
                hit in
            rw hit (at, a, omega (arith, b, le), d)
      ]

-- After an invalidation that reached Redis, each user that it names gets the answer of the database.
pub cached_grants_for-invalidate :
    (ttl_seconds : ℕ) (c : Course) (user_uuid : String) (user_uuids : List String) (stored : Grants)
    (entries : List Entry)
    → any (λ u. user_uuid =ₛ u) user_uuids ≡ true
    → (cached_grants_for ttl_seconds c user_uuid stored (invalidate true user_uuids entries)).0
      ≡ stored
unfolding cached_grants_for invalidate read
cached_grants_for-invalidate ttl_seconds c user_uuid [] stored entries h = cc
cached_grants_for-invalidate ttl_seconds c user_uuid (u ∷ us) stored entries h =
    let gone =
      first-select (is_live user_uuid c.now) (λ e. not (names (u ∷ us) e)) false entries
        (λ e live.
          subst (λ x. not (any (λ v. x =ₛ v) (u ∷ us)) ≡ false)
            (sym ((eq_iff e.user_uuid user_uuid).0 (and_left (e.user_uuid =ₛ user_uuid) _ live)))
            (rw h refl)) in
    elim (Bool-cases c.get_reached) [ inl yes_ ↦ rw (yes_, gone) refl | inr no_ ↦ rw no_ refl ]
