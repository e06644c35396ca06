-- ===== src/Outbox/Relay/Stranded.antt =====
-- What becomes of a row whose last attempt was abandoned between the claim and the record of its
-- outcome (src/platform/outbox/outbox.relay.ts, src/platform/outbox/outbox.repository.ts).
use nest_kit.Table.{find, HasDistinctKeys, IsFresh}
use nest_kit.Base.{
  ℕ, ◌+◌, String, ◌≡◌, refl, subst, ◌≢◌, ◌⊎◌, inl, inr, Bool, true, false, some, List, [], ◌∷◌,
  ◌++◌, arith, eq_iff, ◌=ₛ◌, if◌then◌else◌, Bool-cases, All,
}
use nest_kit.Outbox.Rows.{
  OutboxRow, id_of, id_in, claimed, after_claim, mark_published, record_failure,
  replay_dead_lettered,
}
use nest_kit.Outbox.Relay.{
  Reply, acked, died, refused, OutboxConfig, Drain, after_reply, publish_all, finish, start, drain,
  RelayState, tick,
}
use nest_kit.Outbox.Relay.Settled.{is_stranded}
use nest_kit.Outbox.Relay.Untouched.{
  Stands, Stands-Untouched, after_claim-Untouched, claimed-IsFresh, record_failure-Untouched,
  mark_published-Untouched, replay-Untouched,
}

-- Work on the outbox: a tick of any relay, and a replay of dead letters.
pub data Work : Type 0 where
  ticks : ℕ → RelayState → (String → Bool) → (ℕ → Reply) → Work
  replays : List String → Work

unfoldable pub work : OutboxConfig → List OutboxRow → Work → List OutboxRow
unfolding tick drain
work config rows (ticks now relay locked reply) = (tick config now relay locked reply rows).rows
work config rows (replays ids) = replay_dead_lettered ids rows

unfoldable pub work_all : OutboxConfig → List OutboxRow → List Work → List OutboxRow
work_all config rows [] = rows
work_all config rows (w ∷ ws) = work_all config (work config rows w) ws

-- In a drain, the row stands and its id is not among those published.
record IsKept (r : OutboxRow) (d : Drain) : Type 0 where
  stands : Stands r d.rows
  unpublished : id_in r.id d.published ≡ false

module _ (config : OutboxConfig) (r : OutboxRow)
    (stuck : is_stranded config.max_attempts r ≡ true) where
  any-append_ne :
      (ids : List String) (i : String)
      → i ≢ r.id
      → id_in r.id ids ≡ false
      → id_in r.id (ids ++ i ∷ []) ≡ false
  any-append_ne [] i ne h = ground (arith, eq_iff i r.id)
  any-append_ne (x ∷ ids) i ne h = ground (arith, any-append_ne ids i ne)

  after_reply-IsKept :
      (now : ℕ) (reply : Reply) (row : OutboxRow) (d : Drain)
      → row.id ≢ r.id
      → IsKept r d
      → IsKept r (after_reply config now reply row d)
  after_reply-IsKept now acked row d ne k = record {
    stands = k.stands;
    unpublished = any-append_ne d.published row.id ne k.unpublished;
  }
  after_reply-IsKept now (refused error) row d ne k = record {
    stands =
        Stands-Untouched r d.rows (record_failure now row.id error config.max_attempts d.rows)
          (record_failure-Untouched r.id now row.id error config.max_attempts d.rows ne) k.stands;
    unpublished = k.unpublished;
  }
  after_reply-IsKept now died row d ne k = record { stands = k.stands; unpublished = k.unpublished }

  if-IsKept : (b : Bool) (d e : Drain) → IsKept r d → IsKept r e → IsKept r (if b then d else e)
  if-IsKept true d e kd ke = kd
  if-IsKept false d e kd ke = ke

  publish_all-IsKept :
      (now : ℕ) (reply : ℕ → Reply) (i : ℕ) (batch : List OutboxRow) (d : Drain)
      → IsFresh id_of r.id batch
      → IsKept r d
      → IsKept r (publish_all config now reply i batch d)
  unfolding publish_all
  publish_all-IsKept now reply i [] d f k = k
  publish_all-IsKept now reply i (row ∷ batch) d (ne, f) k =
      publish_all-IsKept now reply (i + 1) batch
        (if d.alive then after_reply config now (reply i) row d else d) f
        (if-IsKept d.alive (after_reply config now (reply i) row d) d
          (after_reply-IsKept now (reply i) row d ne k) k)

  finish-Stands : (now : ℕ) (d : Drain) → IsKept r d → Stands r (finish config now d).rows
  finish-Stands now d k = go d.alive
    where
      go :
          (b : Bool)
          → Stands r
              (if b then record d { rows = mark_published now d.published d.rows } else d).rows
      go true =
          Stands-Untouched r d.rows (mark_published now d.published d.rows)
            (mark_published-Untouched r.id now d.published d.rows k.unpublished) k.stands
      go false = k.stands

  drain-Stands :
      (now : ℕ) (locked : String → Bool) (reply : ℕ → Reply) (rows : List OutboxRow)
      → Stands r rows
      → Stands r (drain config now locked reply rows).rows
  unfolding drain
  drain-Stands now locked reply rows s = finish-Stands now _ (
      publish_all-IsKept now reply 0 (claimed locked config.max_attempts config.batch_size rows)
        (start config now locked rows)
        (claimed-IsFresh r config.max_attempts stuck locked config.batch_size rows s.only)
        (record {
          stands =
              Stands-Untouched r rows
                (after_claim locked config.max_attempts config.batch_size rows)
                (after_claim-Untouched r config.max_attempts stuck locked config.batch_size rows
                  s.only)
                s;
          unpublished = refl;
        }))

  work-Stands : (rows : List OutboxRow) (w : Work) → Stands r rows → Stands r (work config rows w)
  unfolding work
  work-Stands rows (ticks now relay locked reply) s =
      ground (arith, drain-Stands now locked reply rows s)
  work-Stands rows (replays ids) s =
      Stands-Untouched r rows (replay_dead_lettered ids rows)
        (replay-Untouched r ids rows (ground arith) s.only) s

  work_all-Stands :
      (rows : List OutboxRow) (ws : List Work) → Stands r rows → Stands r (work_all config rows ws)
  unfolding work_all
  work_all-Stands rows [] s = s
  work_all-Stands rows (w ∷ ws) s = work_all-Stands (work config rows w) ws (work-Stands rows w s)

only_one :
    (r : OutboxRow) (rows : List OutboxRow)
    → HasDistinctKeys id_of rows
    → find id_of r.id rows ≡ some r
    → All (λ x. (x.id ≢ r.id) ⊎ (x ≡ r)) rows
unfolding find
only_one r [] d e = tt
only_one r (x ∷ rows) (f, d) e = elim (Bool-cases (x.id =ₛ r.id)) [
  | inl same ↦
      let same_id : x.id ≡ r.id = (eq_iff x.id r.id).0 same in
      let same_row : x ≡ r = ground arith in
      (inr same_row, others rows (subst (λ k. IsFresh id_of k rows) same_id f))
  | inr other ↦
      let e' : find id_of r.id rows ≡ some r = ground arith in
      (inl (λ p. cc (other, (eq_iff x.id r.id).1 p)), only_one r rows d e')
]
  where
    others :
        (ys : List OutboxRow) → IsFresh id_of r.id ys → All (λ x'. (x'.id ≢ r.id) ⊎ (x' ≡ r)) ys
    others [] g = tt
    others (y ∷ ys) (ne, g) = (inl ne, others ys g)

-- A row that is neither published nor dead-lettered and has no attempt left stays so for ever: no
-- sequence of ticks, of any relays and with any answers of the broker, and of replays of dead
-- letters changes anything in it.
pub work_all-stranded :
    (config : OutboxConfig) (rows : List OutboxRow) (ws : List Work) (r : OutboxRow)
    → HasDistinctKeys id_of rows
    → find id_of r.id rows ≡ some r
    → is_stranded config.max_attempts r ≡ true
    → find id_of r.id (work_all config rows ws) ≡ some r
work_all-stranded config rows ws r d e stuck =
    (work_all-Stands config r stuck rows ws
      (record { only = only_one r rows d e; found = e })).found
