-- ===== src/Upstream/Client/Calls.antt =====
-- One whole call of `send` (src/platform/upstream/fetch-http-client.ts).
use nest_kit.Base.{
  ℕ, zero, suc, ◌+◌, ◌≤◌, ◌<◌, String, ◌≡◌, refl, ap, ◌∙◌, inl, inr, Bool, true, false, none, some,
  [], ◌∷◌, ◌++◌, arith, if◌then◌else◌, Bool-cases,
}
use nest_kit.Effects.{ok, err, state_of, result_of}
use nest_kit.Upstream.Breaker.{CircuitBreaker, allow, succeeded, failed}
use nest_kit.Upstream.Request.{
  UpstreamRequest, UpstreamResponse, is_retryable, upstream_circuit_open,
}
use nest_kit.Upstream.Client.{
  UpstreamConfig, response, Surroundings, Client, once, breaker_for, store, answer, report_failed,
  rounds, attempts_for, send_to, send,
}
use nest_kit.Upstream.Client.Retries.{
  is_bad, breaker_for-store, rounds-fetches, rounds_first_good, rounds_all_bad,
}

module _ (config : UpstreamConfig) (env : Surroundings) (request : UpstreamRequest) (host : String)
    (c : Client) where
  -- What the breaker of the host says when the call begins.
  abbrev pub asked : CircuitBreaker × Bool
  asked = allow env.times.asked (breaker_for config host c)

  send-send_to :
      env.host_of request.url ≡ some host
      → send config env request c ≡ send_to config env request host c
  unfolding send
  send-send_to known = rw known

  send_to_allowed :
      asked.1 ≡ true
      → send_to config env request host c
        ≡ rounds config env host
            (attempts_for config request)
            (attempts_for config request)
            1
            none
            (store host asked.0 c)
  unfolding send_to
  send_to_allowed h = rw h

  send_to_refused :
      asked.1 ≡ false
      → ((state_of (send_to config env request host c)).fetches ≡ c.fetches)
        × (result_of (send_to config env request host c) ≡ err upstream_circuit_open)
  unfolding send_to
  send_to_refused h = ground arith

  send_to-fetches :
      (state_of (send_to config env request host c)).fetches
      ≤ c.fetches + attempts_for config request
  send_to-fetches = elim (Bool-cases asked.1) [
    | inl let_through ↦ rw (send_to_allowed let_through) (
        rounds-fetches config env host (attempts_for config request) (attempts_for config request) 1
          none (store host asked.0 c))
    | inr refused ↦ omega (arith, (send_to_refused refused).0)
  ]

module _ (config : UpstreamConfig) (env : Surroundings) (host : String) (c : Client) where
  same_breaker :
      (d : Client) → d.breakers ≡ c.breakers → breaker_for config host d ≡ breaker_for config host c
  unfolding breaker_for
  same_breaker d e = rw e

  told_success :
      (d : Client) (r : UpstreamResponse)
      → d.breakers ≡ c.breakers
      → breaker_for config host (state_of (answer config env host r d))
        ≡ succeeded (breaker_for config host c)
  unfolding breaker_for
  told_success d r e =
      breaker_for-store config host (succeeded (breaker_for config host d)) d
      ∙ ap succeeded (same_breaker d e)

  told_failure :
      (d : Client)
      → d.breakers ≡ (report_failed config env host c).breakers
      → breaker_for config host d ≡ failed env.times.reported (breaker_for config host c)
  unfolding breaker_for
  told_failure d e = rw e (
      unfold breaker_for in
      breaker_for-store config host (failed env.times.reported (breaker_for config host c)) c)

  loop_first_good :
      (n k : ℕ) (r : UpstreamResponse)
      → k < n
      → ((i : ℕ) → i < k → is_bad (env.fetch (i + 1)) ≡ true)
      → env.fetch (k + 1) ≡ response r
      → r.status < 500
      → let out = rounds config env host n n 1 none c in
        (result_of out ≡ ok r)
        × ((state_of out).fetches ≡ c.fetches + k + 1)
        × (breaker_for config host (state_of out) ≡ succeeded (breaker_for config host c))
        × ((state_of out).reports ≡ c.reports ++ (host, true) ∷ [])
  loop_first_good zero k r fits bad good status = absurd (omega arith)
  loop_first_good (suc left) k r fits bad good status =
      let (d, same, fetched, kept, untold) =
        rounds_first_good config env host k left (suc left) 1 r none c (omega arith) (omega arith)
          bad good status in
      rw same (refl, fetched, told_success d r kept, ap (λ x. x ++ (host, true) ∷ []) untold)

  loop_all_bad :
      (n : ℕ)
      → 0 < n
      → ((i : ℕ) → i < n → is_bad (env.fetch (i + 1)) ≡ true)
      → let out = rounds config env host n n 1 none c in
        (result_of out ≡ once (env.fetch n))
        × ((state_of out).fetches ≡ c.fetches + n)
        × (breaker_for config host (state_of out)
            ≡ failed env.times.reported (breaker_for config host c))
        × ((state_of out).reports ≡ c.reports ++ (host, false) ∷ [])
  loop_all_bad zero pos bad = absurd (omega arith)
  loop_all_bad (suc left) pos bad =
      let (result, fetched, told, once_) =
        rounds_all_bad config env host left (suc left) 1 none c (omega arith)
          (λ i h. bad i (omega arith)) in
      (result, omega arith, told_failure _ told, once_)

-- A call makes at most `maxAttempts` fetches if the request is retryable, and at most one if it is
-- not.
pub send-fetches_le :
    (config : UpstreamConfig) (env : Surroundings) (request : UpstreamRequest) (host : String)
    (c : Client)
    → env.host_of request.url ≡ some host
    → (state_of (send config env request c)).fetches
      ≤ c.fetches + (if is_retryable request then config.max_attempts else 1)
send-fetches_le config env request host c known =
    rw (send-send_to config env request host c known) (send_to-fetches config env request host c)

-- While the breaker of the host refuses, a call makes no fetch and throws the circuit-open error.
pub send_refused :
    (config : UpstreamConfig) (env : Surroundings) (request : UpstreamRequest) (host : String)
    (c : Client)
    → env.host_of request.url ≡ some host
    → (allow env.times.asked (breaker_for config host c)).1 ≡ false
    → ((state_of (send config env request c)).fetches ≡ c.fetches)
      × (result_of (send config env request c) ≡ err upstream_circuit_open)
send_refused config env request host c known refused =
    rw (send-send_to config env request host c known)
      (send_to_refused config env request host c refused)

-- If the breaker lets the call through and attempt k + 1, one of the attempts allowed, is the first
-- to get a response below 500, then the call returns that response after exactly k + 1 fetches, and
-- the breaker of the host is told once, that the call succeeded.
pub send_first_good :
    (config : UpstreamConfig) (env : Surroundings) (request : UpstreamRequest) (host : String)
    (c : Client) (k : ℕ) (r : UpstreamResponse)
    → env.host_of request.url ≡ some host
    → (allow env.times.asked (breaker_for config host c)).1 ≡ true
    → k < attempts_for config request
    → ((i : ℕ) → i < k → is_bad (env.fetch (i + 1)) ≡ true)
    → env.fetch (k + 1) ≡ response r
    → r.status < 500
    → let out = send config env request c in
      (result_of out ≡ ok r)
      × ((state_of out).fetches ≡ c.fetches + k + 1)
      × (breaker_for config host (state_of out)
          ≡ succeeded (allow env.times.asked (breaker_for config host c)).0)
      × ((state_of out).reports ≡ c.reports ++ (host, true) ∷ [])
send_first_good config env request host c k r known let_through fits bad good status =
    let b = (allow env.times.asked (breaker_for config host c)).0 in
    let looped =
      loop_first_good config env host (store host b c) (attempts_for config request) k r fits bad
        good status in
    rw
      (
        send-send_to config env request host c known,
        send_to_allowed config env request host c let_through,
      )
      (looped.0, looped.1, looped.2 ∙ ap succeeded (breaker_for-store config host b c), looped.3)

-- If the breaker lets the call through and every attempt allowed gets a 5xx response or none, then
-- the call makes them all, gives back what the last one gave, a response or an error, and the
-- breaker of the host is told once, that the call failed.
pub send_all_bad :
    (config : UpstreamConfig) (env : Surroundings) (request : UpstreamRequest) (host : String)
    (c : Client)
    → env.host_of request.url ≡ some host
    → (allow env.times.asked (breaker_for config host c)).1 ≡ true
    → 0 < attempts_for config request
    → ((i : ℕ) → i < attempts_for config request → is_bad (env.fetch (i + 1)) ≡ true)
    → let out = send config env request c in
      (result_of out ≡ once (env.fetch (attempts_for config request)))
      × ((state_of out).fetches ≡ c.fetches + attempts_for config request)
      × (breaker_for config host (state_of out)
          ≡ failed env.times.reported (allow env.times.asked (breaker_for config host c)).0)
      × ((state_of out).reports ≡ c.reports ++ (host, false) ∷ [])
send_all_bad config env request host c known let_through pos bad =
    let b = (allow env.times.asked (breaker_for config host c)).0 in
    let looped =
      loop_all_bad config env host (store host b c) (attempts_for config request) pos bad in
    rw
      (
        send-send_to config env request host c known,
        send_to_allowed config env request host c let_through,
      )
      (
        looped.0,
        looped.1,
        looped.2 ∙ ap (failed env.times.reported) (breaker_for-store config host b c),
        looped.3,
      )
