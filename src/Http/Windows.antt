-- ===== src/Http/Windows.antt =====
-- How many requests of one client src/platform/http/guards/rate-limit.guard.ts lets pass in a window.
use nest_kit.Base.{
  ℕ, suc, ◌+◌, ◌-◌, ◌<◌, min, ◌≡◌, refl, sym, ap, ◌∙◌, subst, inl, inr, Bool, true, false, not,
  ◌&&◌, Option, none, some, List, [], ◌∷◌, arith, ltb, if◌then◌else◌, lt→ltb, Bool-cases, All,
  and_left,
}
use nest_kit.Texts.{Text, same, same_iff}
use nest_kit.Queries.{first, first-select}
use nest_kit.Effects.{Result, ok, err}
use nest_kit.Http.{Budget, Counter, is_counter, hit, fixed_window, stored, admit}

-- A request that reached Redis, by the key of its scope and client
pub record Ask : Type 0 where
  pub budget : Budget
  pub key : Text
  pub now : ℕ

abbrev is_ok : Result (Unit {0}) → Bool
is_ok (ok u) = true
is_ok (err e) = false

abbrev counted : Bool → ℕ → ℕ
counted b n = if b then suc n else n

-- The requests of a key that pass, among those of all clients
unfoldable pub admitted : Text → List Ask → List Counter → ℕ
admitted key [] counters = 0
admitted key (q ∷ asks) counters =
    let p = admit true q.budget q.key q.now counters in
    counted (same q.key key && is_ok p.verdict) (admitted key asks p.counters)

-- The requests of a key
unfoldable pub asked : Text → List Ask → ℕ
asked key [] = 0
asked key (q ∷ asks) = counted (same q.key key) (asked key asks)

-- Before a time, and under one limit for the key
abbrev pub IsWithin : Text → ℕ → ℕ → Ask → Type 0
IsWithin key limit until q = (q.now < until) × (same q.key key ≡ true → q.budget.limit ≡ limit)

-- The counter of the key until it expires
abbrev Shows : Text → Counter → List Counter → Type 0
Shows key c counters = (now : ℕ) → now < c.expires_at → first (is_counter key now) counters ≡ some c

Shows-stored :
    (key : Text) (c : Counter) (counters : List Counter)
    → same c.key key ≡ true
    → Shows key c (stored c counters)
unfolding stored first
Shows-stored key c counters its now live = rw (its, lt→ltb now c.expires_at live) refl

Shows-stored_other :
    (key : Text) (c d : Counter) (counters : List Counter)
    → same d.key key ≡ false
    → Shows key c counters
    → Shows key c (stored d counters)
unfolding stored first
Shows-stored_other key c d counters apart h now live =
    let kept =
      first-select (is_counter key now) (λ e. not (same e.key d.key)) true counters
        (λ e its. other e (and_left (same e.key key) _ its)) in
    rw (apart, kept) (h now live)
  where
    other : (e : Counter) → same e.key key ≡ true → not (same e.key d.key) ≡ true
    other e its = ground (arith, same_iff e.key key, same_iff e.key d.key, same_iff d.key key)

is_ok-admit :
    (budget : Budget) (key : Text) (now : ℕ) (counters : List Counter)
    → is_ok (admit true budget key now counters).verdict
      ≡ not (ltb budget.limit (fixed_window key budget.window_seconds now counters).count)
unfolding admit
is_ok-admit budget key now counters =
    elim (Bool-cases
      (ltb budget.limit (fixed_window key budget.window_seconds now counters).count)) [
        | inl over ↦ rw over refl
        | inr under ↦ rw under refl
      ]

counters-admit :
    (budget : Budget) (key : Text) (now : ℕ) (counters : List Counter)
    → (admit true budget key now counters).counters
      ≡ stored (fixed_window key budget.window_seconds now counters) counters
unfolding admit
counters-admit budget key now counters = refl

fixed_window_at :
    (key : Text) (w now : ℕ) (o : Option Counter) (counters : List Counter)
    → first (is_counter key now) counters ≡ o
    → fixed_window key w now counters ≡ hit key w now o
unfolding fixed_window
fixed_window_at key w now o counters e = ap (hit key w now) e

-- One more request that counts
counted_once :
    (limit count n : ℕ)
    → counted (not (ltb limit (suc count))) (min n (limit - suc count))
      ≡ min (suc n) (limit - count)
counted_once limit count n = ground arith

counted_first : (limit n : ℕ) → counted (not (ltb limit 1)) (min n (limit - 1)) ≡ min (suc n) limit
counted_first limit n = ground arith

key-hit : (key : Text) (w now : ℕ) (o : Option Counter) → (hit key w now o).key ≡ key
key-hit key w now none = refl
key-hit key w now (some c) = refl

key-fixed_window :
    (key : Text) (w now : ℕ) (counters : List Counter) → (fixed_window key w now counters).key ≡ key
unfolding fixed_window
key-fixed_window key w now counters = key-hit key w now (first (is_counter key now) counters)

admitted_within :
    (key : Text) (limit until : ℕ) (c : Counter) (asks : List Ask) (counters : List Counter)
    → c.key ≡ key
    → c.expires_at ≡ until
    → Shows key c counters
    → All (IsWithin key limit until) asks
    → admitted key asks counters ≡ min (asked key asks) (limit - c.count)
unfolding admitted asked
admitted_within key limit until c [] counters k e h w = omega arith
admitted_within key limit until c (q ∷ asks) counters k e h ((before, same_limit), w) =
    elim (Bool-cases (same q.key key)) [
      | inl mine ↦
          let its = (same_iff q.key key).0 mine in
          let c' : Counter = record {
            key = q.key;
            count = suc c.count;
            expires_at = c.expires_at;
          } in
          let now_c : fixed_window q.key q.budget.window_seconds q.now counters ≡ c' =
            fixed_window_at q.key q.budget.window_seconds q.now (some c) counters (
              ap (λ x. first (is_counter x q.now) counters) its
              ∙ h q.now (subst (λ x. q.now < x) (sym e) before)) in
          rw
            (
              is_ok-admit q.budget q.key q.now counters,
              counters-admit q.budget q.key q.now counters,
              mine,
              now_c,
              same_limit mine,
              admitted_within key limit until c' asks (stored c' counters) its e
                  (Shows-stored key c' counters mine) w,
            )
            (counted_once limit c.count (asked key asks))
      | inr other ↦
          let d = fixed_window q.key q.budget.window_seconds q.now counters in
          let apart : same d.key key ≡ false =
            ap (λ x. same x key) (key-fixed_window q.key q.budget.window_seconds q.now counters)
            ∙ other in
          rw (other, counters-admit q.budget q.key q.now counters)
            (admitted_within key limit until c asks (stored d counters) k e
              (Shows-stored_other key c d counters apart h) w)
    ]

-- Of the requests of a client in a window, exactly the first ones up to the limit pass, however
-- many other clients there are. The window begins with the client's first request, when no counter
-- of it is live, all requests reach Redis within it, and the limit is the same for all of them.
pub admitted-min :
    (key : Text) (limit : ℕ) (q : Ask) (asks : List Ask) (counters : List Counter)
    → q.key ≡ key
    → first (is_counter key q.now) counters ≡ none
    → All (IsWithin key limit (q.now + q.budget.window_seconds)) (q ∷ asks)
    → admitted key (q ∷ asks) counters ≡ min (asked key (q ∷ asks)) limit
unfolding admitted asked
admitted-min key limit q asks counters its free ((before, same_limit), w) =
    let mine = (same_iff q.key key).1 its in
    let c : Counter = record {
      key = q.key;
      count = 1;
      expires_at = q.now + q.budget.window_seconds;
    } in
    let now_c : fixed_window q.key q.budget.window_seconds q.now counters ≡ c =
      fixed_window_at q.key q.budget.window_seconds q.now none counters
        (ap (λ x. first (is_counter x q.now) counters) its ∙ free) in
    rw
      (
        is_ok-admit q.budget q.key q.now counters,
        counters-admit q.budget q.key q.now counters,
        mine,
        now_c,
        same_limit mine,
        admitted_within key limit (q.now + q.budget.window_seconds) c asks (stored c counters) its
            refl (Shows-stored key c counters mine) w,
      )
      (counted_first limit (asked key asks))
