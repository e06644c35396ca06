-- ===== src/Outbox/Relay/Settled.antt =====
-- What a drain (src/platform/outbox/outbox.relay.ts) settles.
use nest_kit.Outbox.Relay.{
  IsAlive, start, finish, Reply, acked, died, refused, OutboxConfig, Drain, after_reply,
  publish_all, drain, RelayState, tick,
}
use nest_kit.Base.{
  ℕ, ◌+◌, String, ◌≡◌, refl, ◌∙◌, ◌⊎◌, inl, inr, Bool, true, false, not, ◌&&◌, ◌||◌, List, [], ◌∷◌,
  ◌++◌, arith, eq_iff, eq_refl, ◌=ₛ◌, leb, if◌then◌else◌, Bool-cases, All,
}
use nest_kit.Outbox.Rows.{
  OutboxRow, is_set, id_in, bump, takes, left, claimed, after_claim, mark_published, record_failure,
}

-- No attempt is left, and the row is neither published nor dead-lettered.
abbrev pub is_stranded : ℕ → OutboxRow → Bool
is_stranded most r =
    not (is_set r.published_at) && (not (is_set r.dead_lettered_at) && leb most r.attempts)

abbrev ids : List OutboxRow → List String
ids [] = []
ids (r ∷ rows) = r.id ∷ ids rows

-- A row that may be stranded for now is one whose turn comes, or one that was published.
abbrev IsTracked : ℕ → List String → List String → OutboxRow → Type 0
IsTracked most waiting published r =
    (is_stranded most r ≡ false) ⊎ ((id_in r.id waiting ≡ true) ⊎ (id_in r.id published ≡ true))

abbrev pub IsUnstranded : ℕ → OutboxRow → Type 0
IsUnstranded most r = is_stranded most r ≡ false

module _ (locked : String → Bool) (most : ℕ) where
  weaken :
      (i : String) (waiting : List String) (rows : List OutboxRow)
      → All (IsTracked most waiting []) rows
      → All (IsTracked most (i ∷ waiting) []) rows
  weaken i waiting [] h = tt
  weaken i waiting (r ∷ rows) (t, h) = (ground arith, weaken i waiting rows h)

  one-IsTracked :
      (b : Bool) (r : OutboxRow) (taken after : List OutboxRow)
      → IsUnstranded most r
      → All (IsTracked most (ids taken) []) after
      → All
          (IsTracked most (ids (if b then bump r ∷ taken else taken)) [])
          ((if b then bump r else r) ∷ after)
  one-IsTracked true r taken after u h =
      (ground (arith, eq_refl r.id), weaken r.id (ids taken) after h)
  one-IsTracked false r taken after u h = (inl u, h)

  after_claim-IsTracked :
      (limit : ℕ) (rows : List OutboxRow)
      → All (IsUnstranded most) rows
      → All
          (IsTracked most (ids (claimed locked most limit rows)) [])
          (after_claim locked most limit rows)
  unfolding claimed after_claim
  after_claim-IsTracked limit [] h = tt
  after_claim-IsTracked limit (r ∷ rows) (u, h) =
      one-IsTracked (takes locked most limit r) r
        (claimed locked most (left locked most limit r) rows)
        (after_claim locked most (left locked most limit r) rows) u
        (after_claim-IsTracked (left locked most limit r) rows h)

module _ (config : OutboxConfig) (now : ℕ) where
  record_failure-IsTracked :
      (id : String) (error : List ℕ) (waiting published : List String) (rows : List OutboxRow)
      → All (IsTracked config.max_attempts (id ∷ waiting) published) rows
      → All
          (IsTracked config.max_attempts waiting published)
          (record_failure now id error config.max_attempts rows)
  unfolding record_failure
  record_failure-IsTracked id error waiting published [] h = tt
  record_failure-IsTracked id error waiting published (r ∷ rows) (t, h) = (
    ground (arith, eq_iff r.id id, eq_iff id r.id),
    record_failure-IsTracked id error waiting published rows h,
  )

  any-append :
      (k : String) (xs : List String) (i : String) → id_in k (xs ++ i ∷ []) ≡ (id_in k xs || i =ₛ k)
  any-append k [] i = ground arith
  any-append k (x ∷ xs) i = ground (arith, any-append k xs i)

  acked-IsTracked :
      (id : String) (waiting published : List String) (rows : List OutboxRow)
      → All (IsTracked config.max_attempts (id ∷ waiting) published) rows
      → All (IsTracked config.max_attempts waiting (published ++ id ∷ [])) rows
  acked-IsTracked id waiting published [] h = tt
  acked-IsTracked id waiting published (r ∷ rows) (t, h) =
      (ground (arith, any-append r.id published id), acked-IsTracked id waiting published rows h)

  mark-IsUnstranded :
      (published : List String) (rows : List OutboxRow)
      → All (IsTracked config.max_attempts [] published) rows
      → All (IsUnstranded config.max_attempts) (mark_published now published rows)
  unfolding mark_published
  mark-IsUnstranded published [] h = tt
  mark-IsUnstranded published (r ∷ rows) (t, h) = (ground arith, mark-IsUnstranded published rows h)

  after_reply-IsTracked :
      (reply : Reply) (row : OutboxRow) (waiting : List String) (d : Drain)
      → IsAlive reply
      → All (IsTracked config.max_attempts (row.id ∷ waiting) d.published) d.rows
      → All
          (IsTracked config.max_attempts waiting (after_reply config now reply row d).published)
          (after_reply config now reply row d).rows
  after_reply-IsTracked acked row waiting d live h =
      acked-IsTracked row.id waiting d.published d.rows h
  after_reply-IsTracked (refused error) row waiting d live h =
      record_failure-IsTracked row.id error waiting d.published d.rows h
  after_reply-IsTracked died row waiting d live h = absurd live

  after_reply-alive :
      (reply : Reply) (row : OutboxRow) (d : Drain)
      → IsAlive reply
      → (after_reply config now reply row d).alive ≡ d.alive
  after_reply-alive acked row d live = refl
  after_reply-alive (refused error) row d live = refl
  after_reply-alive died row d live = absurd live

  publish_all-IsTracked :
      (reply : ℕ → Reply) (i : ℕ) (batch : List OutboxRow) (d : Drain)
      → ((j : ℕ) → IsAlive (reply j))
      → d.alive ≡ true
      → All (IsTracked config.max_attempts (ids batch) d.published) d.rows
      → let e = publish_all config now reply i batch d in
        (e.alive ≡ true) × All (IsTracked config.max_attempts [] e.published) e.rows
  unfolding publish_all
  publish_all-IsTracked reply i [] d live alive h = (alive, h)
  publish_all-IsTracked reply i (row ∷ batch) d live alive h =
      let next = after_reply config now (reply i) row d in
      let go_on : (if d.alive then next else d) ≡ next = simp alive in
      simp go_on (
        publish_all-IsTracked reply (i + 1) batch next live
          (after_reply-alive (reply i) row d (live i) ∙ alive)
          (after_reply-IsTracked (reply i) row (ids batch) d (live i) h))

  finish_alive :
      (d : Drain)
      → d.alive ≡ true
      → (finish config now d).rows ≡ mark_published now d.published d.rows
  finish_alive d alive = simp alive

  drain-IsUnstranded :
      (locked : String → Bool) (reply : ℕ → Reply) (rows : List OutboxRow)
      → ((j : ℕ) → IsAlive (reply j))
      → All (IsUnstranded config.max_attempts) rows
      → All (IsUnstranded config.max_attempts) (drain config now locked reply rows).rows
  unfolding drain
  drain-IsUnstranded locked reply rows live h =
      let batch = claimed locked config.max_attempts config.batch_size rows in
      let d = publish_all config now reply 0 batch (start config now locked rows) in
      let (alive, tracked) =
        publish_all-IsTracked reply 0 batch (start config now locked rows) live refl
          (after_claim-IsTracked locked config.max_attempts config.batch_size rows h) in
      rw (finish_alive d alive) (mark-IsUnstranded d.published d.rows tracked)

-- A tick that is not abandoned leaves no row stranded: if every row is published, dead-lettered or
-- has an attempt left, then so it is after the tick, whatever the broker answered to each message.
pub tick-IsUnstranded :
    (config : OutboxConfig) (now : ℕ) (relay : RelayState) (locked : String → Bool)
    (reply : ℕ → Reply) (rows : List OutboxRow)
    → ((j : ℕ) → IsAlive (reply j))
    → All (IsUnstranded config.max_attempts) rows
    → All (IsUnstranded config.max_attempts) (tick config now relay locked reply rows).rows
unfolding tick
tick-IsUnstranded config now relay locked reply rows live h =
    elim (Bool-cases (relay.running || (relay.stopped || not relay.ready))) [
      | inl idle ↦ simp idle h
      | inr busy ↦ simp busy (drain-IsUnstranded config now locked reply rows live h)
    ]
