-- ===== src/Upstream/Client/Retries.antt =====
-- What a call of `send` (src/platform/upstream/fetch-http-client.ts) does about retries, and what it
-- tells the breaker of the host.
use nest_kit.Base.{
  ℕ, zero, suc, ◌+◌, ◌≤◌, ◌<◌, String, ◌≡◌, refl, ◌∙◌, subst, Bool, true, false, Option, some, List,
  [], ◌∷◌, ◌++◌, arith, eq_refl, ltb, leb, lt→ltb,
}
use nest_kit.Errors.{AppError}
use nest_kit.Effects.{Result, ok, err, Outcome, state_of, result_of}
use nest_kit.Upstream.Breaker.{CircuitBreaker}
use nest_kit.Upstream.Request.{UpstreamResponse}
use nest_kit.Upstream.Client.{
  UpstreamConfig, Fetched, response, rejected, Surroundings, Client, once, find_breaker,
  set_breaker, breaker_for, store, settle, count_fetch, pause, answer, report_failed, rounds,
}

-- A 5xx response or no response: what a retry is for.
abbrev pub is_bad : Fetched → Bool
is_bad (response r) = leb 500 r.status
is_bad (rejected timed_out) = true

find-set_breaker :
    (host : String) (b : CircuitBreaker) (bs : List (String × CircuitBreaker))
    → find_breaker host (set_breaker host b bs) ≡ some b
unfolding find_breaker set_breaker
find-set_breaker host b [] = simp eq_refl
find-set_breaker host b ((h, c) ∷ bs) = ground (arith, eq_refl host, find-set_breaker host b bs)

pub breaker_for-store :
    (config : UpstreamConfig) (host : String) (b : CircuitBreaker) (c : Client)
    → breaker_for config host (store host b c) ≡ b
unfolding breaker_for
breaker_for-store config host b c = rw (find-set_breaker host b c.breakers)

ltb_self : (n : ℕ) → ltb n n ≡ false
ltb_self n = ground arith

module _ (config : UpstreamConfig) (env : Surroundings) (host : String) where
  rounds_step :
      (left attempts attempt : ℕ) (e : Option AppError) (c : Client)
      → rounds config env host (suc left) attempts attempt e c
        ≡ settle config env host
            (ltb attempt attempts)
            e
            (rounds config env host left attempts (attempt + 1))
            attempt
            (once (env.fetch attempt))
            (count_fetch c)
  unfolding rounds
  rounds_step left attempts attempt e c = refl

  settle-fetches :
      (more : Bool) (last : Option AppError)
      (again : Option AppError → Client → Outcome Client UpstreamResponse) (n attempt : ℕ)
      (res : Result UpstreamResponse) (c : Client)
      → ((e : Option AppError) (d : Client) → (state_of (again e d)).fetches ≤ d.fetches + n)
      → (state_of (settle config env host more last again attempt res c)).fetches ≤ c.fetches + n
  settle-fetches more last again n attempt (ok r) c h =
      ground (arith, h last (pause config env host attempt c))
  settle-fetches more last again n attempt (err e) c h =
      ground (arith, h (some e) (pause config env host attempt c))

  pub rounds-fetches :
      (left attempts attempt : ℕ) (e : Option AppError) (c : Client)
      → (state_of (rounds config env host left attempts attempt e c)).fetches ≤ c.fetches + left
  rounds-fetches zero attempts attempt e c = unfold rounds in omega arith
  rounds-fetches (suc left) attempts attempt e c = rw (rounds_step left attempts attempt e c) (
      omega (
        arith,
        settle-fetches (ltb attempt attempts) e (rounds config env host left attempts (attempt + 1))
            left attempt (once (env.fetch attempt)) (count_fetch c)
            (rounds-fetches left attempts (attempt + 1)),
      ))

  -- A round that gets no good answer and is not the last goes on to the next round.
  settle_bad :
      (last : Option AppError) (again : Option AppError → Client → Outcome Client UpstreamResponse)
      (attempt : ℕ) (f : Fetched) (c : Client)
      → is_bad f ≡ true
      → (e : Option AppError) × (settle config env host true last again attempt (once f) c
          ≡ again e (pause config env host attempt c))
  unfolding once
  settle_bad last again attempt (response r) c h = (last, ground arith)
  settle_bad last again attempt (rejected true) c h = (_, refl)
  settle_bad last again attempt (rejected false) c h = (_, refl)

  round_bad :
      (left attempts attempt : ℕ) (e : Option AppError) (c : Client)
      → attempt < attempts
      → is_bad (env.fetch attempt) ≡ true
      → (e' : Option AppError) × (rounds config env host (suc left) attempts attempt e c
          ≡ rounds config env host left attempts
              (attempt + 1)
              e'
              (pause config env host attempt (count_fetch c)))
  round_bad left attempts attempt e c early bad =
      let (e', go_on) =
        settle_bad e (rounds config env host left attempts (attempt + 1)) attempt
          (env.fetch attempt) (count_fetch c) bad in
      (e', rw (rounds_step left attempts attempt e c, lt→ltb attempt attempts early) go_on)

  settle_good :
      (more : Bool) (last : Option AppError)
      (again : Option AppError → Client → Outcome Client UpstreamResponse) (attempt : ℕ)
      (r : UpstreamResponse) (c : Client)
      → r.status < 500
      → settle config env host more last again attempt (ok r) c ≡ answer config env host r c
  settle_good more last again attempt r c h = ground arith

  round_good :
      (left attempts attempt : ℕ) (r : UpstreamResponse) (e : Option AppError) (c : Client)
      → env.fetch attempt ≡ response r
      → r.status < 500
      → rounds config env host (suc left) attempts attempt e c
        ≡ answer config env host r (count_fetch c)
  unfolding once
  round_good left attempts attempt r e c good status =
      rw (rounds_step left attempts attempt e c, good)
        (settle_good (ltb attempt attempts) e (rounds config env host left attempts (attempt + 1))
          attempt r (count_fetch c) status)

  -- The rounds go on through bad answers to the first good one.
  pub rounds_first_good :
      (k left attempts attempt : ℕ) (r : UpstreamResponse) (e : Option AppError) (c : Client)
      → attempts ≡ attempt + left
      → k ≤ left
      → ((i : ℕ) → i < k → is_bad (env.fetch (i + attempt)) ≡ true)
      → env.fetch (k + attempt) ≡ response r
      → r.status < 500
      → (d : Client) × (rounds config env host (suc left) attempts attempt e c
          ≡ answer config env host r d)
        × (d.fetches ≡ c.fetches + k + 1)
        × (d.breakers ≡ c.breakers)
        × (d.reports ≡ c.reports)
  rounds_first_good zero left attempts attempt r e c total fits bad good status = (
    count_fetch c,
    round_good left attempts attempt r e c
        (subst (λ n. env.fetch n ≡ response r) (omega arith) good) status,
    omega arith,
    refl,
    refl,
  )
  rounds_first_good (suc k) (suc left) attempts attempt r e c total fits bad good status =
      let bad_now : is_bad (env.fetch attempt) ≡ true =
        subst (λ n. is_bad (env.fetch n) ≡ true) (omega arith) (bad 0 (omega arith)) in
      let (e', go_on) = round_bad (suc left) attempts attempt e c (omega arith) bad_now in
      let (d, same, fetched, kept, untold) =
        rounds_first_good k left attempts (attempt + 1) r e'
          (pause config env host attempt (count_fetch c)) (omega arith) (omega arith)
          (λ i h.
            subst (λ n. is_bad (env.fetch n) ≡ true) (omega arith) (bad (suc i) (omega arith)))
          (subst (λ n. env.fetch n ≡ response r) (omega arith) good) status in
      (d, go_on ∙ same, omega arith, kept, untold)
  rounds_first_good (suc k) zero attempts attempt r e c total fits bad good status =
      absurd (omega arith)

  -- After the last round.
  settle_last :
      (last : Option AppError) (again : Option AppError → Client → Outcome Client UpstreamResponse)
      (attempt : ℕ) (f : Fetched) (c : Client)
      → is_bad f ≡ true
      → let out = settle config env host false last again attempt (once f) c in
        (result_of out ≡ once f)
        × ((state_of out).fetches ≡ c.fetches)
        × ((state_of out).breakers ≡ (report_failed config env host c).breakers)
        × ((state_of out).reports ≡ c.reports ++ (host, false) ∷ [])
  unfolding once
  settle_last last again attempt (response r) c h = ground arith
  settle_last last again attempt (rejected true) c h = (refl, refl, refl, refl)
  settle_last last again attempt (rejected false) c h = (refl, refl, refl, refl)

  pub rounds_all_bad :
      (left attempts attempt : ℕ) (e : Option AppError) (c : Client)
      → attempts ≡ attempt + left
      → ((i : ℕ) → i ≤ left → is_bad (env.fetch (i + attempt)) ≡ true)
      → let out = rounds config env host (suc left) attempts attempt e c in
        (result_of out ≡ once (env.fetch attempts))
        × ((state_of out).fetches ≡ c.fetches + left + 1)
        × ((state_of out).breakers ≡ (report_failed config env host c).breakers)
        × ((state_of out).reports ≡ c.reports ++ (host, false) ∷ [])
  unfolding breaker_for
  rounds_all_bad zero attempts attempt e c total bad =
      let same : attempts ≡ attempt = omega arith in
      let bad_now : is_bad (env.fetch attempt) ≡ true =
        subst (λ n. is_bad (env.fetch n) ≡ true) (omega arith) (bad 0 (omega arith)) in
      let (result, fetched, told, once_) =
        settle_last e (rounds config env host zero attempt (attempt + 1)) attempt
          (env.fetch attempt) (count_fetch c) bad_now in
      rw (same, rounds_step zero attempt attempt e c, ltb_self attempt)
        (result, omega arith, told, once_)
  rounds_all_bad (suc left) attempts attempt e c total bad =
      let bad_now : is_bad (env.fetch attempt) ≡ true =
        subst (λ n. is_bad (env.fetch n) ≡ true) (omega arith) (bad 0 (omega arith)) in
      let (e', go_on) = round_bad (suc left) attempts attempt e c (omega arith) bad_now in
      let (result, fetched, told, once_) =
        rounds_all_bad left attempts (attempt + 1) e'
          (pause config env host attempt (count_fetch c)) (omega arith)
          (λ i h.
            subst (λ n. is_bad (env.fetch n) ≡ true) (omega arith) (bad (suc i) (omega arith))) in
      rw go_on (result, omega arith, told, once_)
