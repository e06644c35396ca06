-- ===== src/Outbox/Rows.antt =====
-- src/platform/outbox/outbox.repository.ts, each statement as a function on the rows of
-- `outbox.events` in the order of their ids. `NOW()` is an argument, and so is whether another
-- transaction holds a row's lock.
use nest_kit.Base.{
  ℕ, ◌+◌, ◌-◌, String, Bool, true, false, not, ◌&&◌, ◌||◌, Option, none, some, List, [], ◌∷◌, ◌++◌,
  ◌=ₛ◌, ltb, leb, if◌then◌else◌, take, any,
}

-- The wire payload is opaque text.
pub record SerializedEvent : Type 0 where
  pub name : String
  pub version : String
  pub idempotency_key : String
  pub occurred_at : ℕ
  pub payload : String

pub record OutboxRow : Type 0 where
  pub id : String
  pub event : SerializedEvent
  pub open event use *
  pub attempts : ℕ
  pub last_error : Option (List ℕ)
  pub published_at : Option ℕ
  pub dead_lettered_at : Option ℕ
  pub created_at : ℕ

abbrev pub id_of : OutboxRow → String
id_of r = r.id

abbrev pub is_set {ℓ} : {A : Type ℓ} → Option A → Bool
is_set none = false
is_set (some a) = true

abbrev pub id_in : String → List String → Bool
id_in k ids = any (λ i. i =ₛ k) ids

abbrev fresh_row : String → ℕ → SerializedEvent → OutboxRow
fresh_row id now e = record {
  id = id;
  event = e;
  attempts = 0;
  last_error = none;
  published_at = none;
  dead_lettered_at = none;
  created_at = now;
}

unfoldable pub has_key : String → List OutboxRow → Bool
has_key key [] = false
has_key key (r ∷ rows) = r.idempotency_key =ₛ key || has_key key rows

-- `append`: ON CONFLICT (idempotency_key) DO NOTHING. Each event comes with the id that the sequence
-- gives its row.
unfoldable pub append : ℕ → List (String × SerializedEvent) → List OutboxRow → List OutboxRow
unfolding has_key
append now [] rows = rows
append now ((id, e) ∷ events) rows =
    append now events
      (if has_key e.idempotency_key rows then rows else rows ++ fresh_row id now e ∷ [])

-- The WHERE clause of `claimBatch`.
abbrev pub is_claimable : ℕ → OutboxRow → Bool
is_claimable max_attempts r =
    not (is_set r.published_at) && (not (is_set r.dead_lettered_at) && ltb r.attempts max_attempts)

abbrev pub bump : OutboxRow → OutboxRow
bump r = record r { attempts = r.attempts + 1 }

module _ (locked : String → Bool) (max_attempts : ℕ) where
  -- Whether a row is taken while `limit` more may be: rows locked elsewhere are skipped.
  abbrev pub takes : ℕ → OutboxRow → Bool
  takes limit r = ltb 0 limit && (is_claimable max_attempts r && not (locked r.id))

  abbrev pub left : ℕ → OutboxRow → ℕ
  left limit r = if takes limit r then limit - 1 else limit

  -- The rows that `claimBatch` returns, and the table that it leaves.
  unfoldable pub claimed : ℕ → List OutboxRow → List OutboxRow
  claimed limit [] = []
  claimed limit (r ∷ rows) =
      let rest = claimed (left limit r) rows in if takes limit r then bump r ∷ rest else rest

  unfoldable pub after_claim : ℕ → List OutboxRow → List OutboxRow
  after_claim limit [] = []
  after_claim limit (r ∷ rows) =
      (if takes limit r then bump r else r) ∷ after_claim (left limit r) rows

unfoldable pub mark_published : ℕ → List String → List OutboxRow → List OutboxRow
mark_published now ids [] = []
mark_published now ids (r ∷ rows) =
    (if id_in r.id ids then record r { published_at = some now; last_error = none } else r)
    ∷ mark_published now ids rows

unfoldable pub record_failure : ℕ → String → List ℕ → ℕ → List OutboxRow → List OutboxRow
record_failure now id error max_attempts [] = []
record_failure now id error max_attempts (r ∷ rows) =
    (if r.id =ₛ id
      then record r {
        last_error = some (take 2000 error);
        dead_lettered_at = if leb max_attempts r.attempts then some now else none;
      }
      else r)
    ∷ record_failure now id error max_attempts rows

abbrev pub is_pending : OutboxRow → Bool
is_pending r = not (is_set r.published_at) && not (is_set r.dead_lettered_at)

-- The counts of `stats`, and `countPending`.
unfoldable pub count_pending : List OutboxRow → ℕ
count_pending [] = 0
count_pending (r ∷ rows) = (if is_pending r then 1 else 0) + count_pending rows

unfoldable pub count_dead_lettered : List OutboxRow → ℕ
count_dead_lettered [] = 0
count_dead_lettered (r ∷ rows) =
    (if is_set r.dead_lettered_at then 1 else 0) + count_dead_lettered rows

abbrev no_ids : List String → Bool
no_ids [] = true
no_ids (i ∷ ids) = false

abbrev pub is_revived : List String → OutboxRow → Bool
is_revived ids r = is_set r.dead_lettered_at && (no_ids ids || id_in r.id ids)

-- `replayDeadLettered`: the table and the number of rows; no ids at all means every row.
unfoldable pub replay_dead_lettered : List String → List OutboxRow → List OutboxRow
replay_dead_lettered ids [] = []
replay_dead_lettered ids (r ∷ rows) =
    (if is_revived ids r
      then record r { dead_lettered_at = none; attempts = 0; last_error = none }
      else r)
    ∷ replay_dead_lettered ids rows

unfoldable pub replayed : List String → List OutboxRow → ℕ
replayed ids [] = 0
replayed ids (r ∷ rows) = (if is_revived ids r then 1 else 0) + replayed ids rows
