-- ===== src/Notification/Dispatcher.antt =====
-- src/modules/notification/infrastructure/notification-dispatcher.task.ts, over the table of
-- typeorm-notification.repository.ts. What the transport does with each mail of a sweep, and the
-- clock, are arguments. A process that dies while it sends ends the sweep.
pub mod Rows
pub mod Mails
use nest_kit.Base.{ℕ, ◌+◌, String, Bool, false, not, List, [], ◌∷◌, ◌++◌, ◌=ₛ◌, if◌then◌else◌, take}
use nest_kit.Table.{upsert}
use nest_kit.Notification.{
  Notification, is_queued, begin_attempt, mark_sent, mark_failed, mark_unconfigured,
}

pub record Mail : Type 0 where
  pub to : String
  pub subject : String
  pub body : String

pub data Reply : Type 0 where
  accepted died : Reply
  refused : List ℕ → Reply

-- One notification's turn: the transport's reply, and the clock at the first and the last reading.
pub record Turn : Type 0 where
  pub reply : Reply
  pub begun : ℕ
  pub ended : ℕ

pub record DispatchConfig : Type 0 where
  pub batch : ℕ
  pub max_attempts : ℕ
  pub configured : Bool

-- The table, the mails handed to the transport, and whether the process still runs.
pub record Sweep : Type 0 where
  pub rows : List Notification
  pub mails : List Mail
  pub alive : Bool

abbrev pub uuid_of : Notification → String
uuid_of n = n.uuid

unfoldable pub save : Notification → Sweep → Sweep
save n s = record s { rows = upsert uuid_of n s.rows }

-- `listQueued`: the first `limit` rows with status QUEUED, in the order of their ids.
unfoldable pub queued_rows : List Notification → List Notification
queued_rows [] = []
queued_rows (n ∷ rows) = if is_queued n.status then n ∷ queued_rows rows else queued_rows rows

unfoldable pub list_queued : ℕ → List Notification → List Notification
unfolding queued_rows
list_queued limit rows = take limit (queued_rows rows)

abbrev pub mail_of : Notification → Mail
mail_of n = record { to = n.recipient_address; subject = n.subject; body = n.body }

-- After the call of the transport.
abbrev settle : DispatchConfig → Turn → Reply → Notification → Sweep → Sweep
settle config turn accepted n s = save (mark_sent turn.ended n) s
settle config turn (refused error) n s = save (mark_failed error config.max_attempts turn.ended n) s
settle config turn died n s = record s { alive = false }

abbrev attempt : DispatchConfig → Turn → Notification → Sweep → Sweep
attempt config turn n s =
    let begun = begin_attempt turn.begun n in
    let saved = save begun s in
    settle config turn turn.reply begun (record saved { mails = saved.mails ++ mail_of begun ∷ [] })

-- `deliver`; the error text of an unsupported channel is the second argument.
unfoldable pub deliver : DispatchConfig → List ℕ → Turn → Notification → Sweep → Sweep
unfolding save
deliver config unsupported turn n s =
    if not config.configured
    then save (mark_unconfigured turn.begun n) s
    else if not (n.channel =ₛ "email")
    then save (mark_failed unsupported 0 turn.begun n) s
    else attempt config turn n s

-- The loop of `run`, until the process dies.
unfoldable pub deliver_all :
    DispatchConfig → List ℕ → (ℕ → Turn) → ℕ → List Notification → Sweep → Sweep
deliver_all config unsupported turns i [] s = s
deliver_all config unsupported turns i (n ∷ batch) s =
    deliver_all config unsupported turns (i + 1) batch
      (if s.alive then deliver config unsupported (turns i) n s else s)

unfoldable pub run : DispatchConfig → List ℕ → (ℕ → Turn) → Sweep → Sweep
unfolding deliver_all list_queued
run config unsupported turns s =
    deliver_all config unsupported turns 0 (list_queued config.batch s.rows) s
