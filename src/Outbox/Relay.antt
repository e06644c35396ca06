-- ===== src/Outbox/Relay.antt =====
-- src/platform/outbox/outbox.relay.ts: one tick of a relay. What the broker does with each message
-- of a drain is an argument. `died` abandons the drain: the process ends, or the database does not
-- answer, and `tick` catches that error.
pub mod Settled
pub mod Untouched
pub mod Stranded
use nest_kit.Base.{ℕ, ◌+◌, String, Bool, true, false, not, ◌||◌, List, [], ◌∷◌, ◌++◌, if◌then◌else◌}
use nest_kit.Outbox.Rows.{
  SerializedEvent, OutboxRow, claimed, after_claim, mark_published, record_failure,
}

pub data Reply : Type 0 where
  acked died : Reply
  refused : List ℕ → Reply

abbrev pub IsAlive : Reply → Type 0
IsAlive died = ⊥
IsAlive _ = Unit

pub record OutboxConfig : Type 0 where
  pub batch_size : ℕ
  pub max_attempts : ℕ

-- The table, the messages that the broker acknowledged, the ids published in this drain, and whether
-- the process still runs.
pub record Drain : Type 0 where
  pub rows : List OutboxRow
  pub messages : List SerializedEvent
  pub published : List String
  pub alive : Bool

module _ (config : OutboxConfig) (now : ℕ) where
  abbrev pub after_reply : Reply → OutboxRow → Drain → Drain
  after_reply acked row d = record d {
    messages = d.messages ++ row.event ∷ [];
    published = d.published ++ row.id ∷ [];
  }
  after_reply (refused error) row d = record d {
    rows = record_failure now row.id error config.max_attempts d.rows;
  }
  after_reply died row d = record d { alive = false }

  -- The loop over the claimed rows.
  unfoldable pub publish_all : (ℕ → Reply) → ℕ → List OutboxRow → Drain → Drain
  publish_all reply i [] d = d
  publish_all reply i (row ∷ batch) d =
      publish_all reply (i + 1) batch (if d.alive then after_reply (reply i) row d else d)

  abbrev pub finish : Drain → Drain
  finish d = if d.alive then record d { rows = mark_published now d.published d.rows } else d

  -- The claim, with which a drain begins.
  abbrev pub start : (String → Bool) → List OutboxRow → Drain
  start locked rows = record {
    rows = after_claim locked config.max_attempts config.batch_size rows;
    messages = [];
    published = [];
    alive = true;
  }

  -- `drain`. With nothing claimed the two updates do nothing.
  unfoldable pub drain : (String → Bool) → (ℕ → Reply) → List OutboxRow → Drain
  drain locked reply rows = finish (
      publish_all reply 0 (claimed locked config.max_attempts config.batch_size rows)
        (start locked rows))

pub record RelayState : Type 0 where
  pub running : Bool
  pub stopped : Bool
  pub ready : Bool

-- `tick`: nothing happens while another tick runs, after shutdown, or without a broker.
unfoldable pub tick :
    OutboxConfig → ℕ → RelayState → (String → Bool) → (ℕ → Reply) → List OutboxRow → Drain
tick config now relay locked reply rows =
    if relay.running || (relay.stopped || not relay.ready)
    then record { rows = rows; messages = []; published = []; alive = true }
    else drain config now locked reply rows
