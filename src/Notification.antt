-- ===== src/Notification.antt =====
-- src/modules/notification/domain/notification.ts. Texts whose length matters are lists of UTF-16
-- code units; times are milliseconds.
pub mod Lifecycle
pub mod Dispatcher
mod Tests
use nest_kit.Base.{
  ℕ, ◌+◌, String, Bool, true, false, not, Option, none, some, List, leb, if◌then◌else◌, take,
}
use nest_kit.Effects.{Exec, returned}

pub data DeliveryStatus : Type 0 where
  queued sent failed unconfigured : DeliveryStatus

pub record Notification : Type 0 where
  pub uuid : String
  pub recipient_uuid : String
  pub recipient_address : String
  pub channel : String
  pub subject : String
  pub body : String
  pub status : DeliveryStatus
  pub attempts : ℕ
  pub last_error : Option (List ℕ)
  pub sent_at : Option ℕ
  pub created_at : ℕ
  pub updated_at : ℕ

abbrev pub max_error_length : ℕ
max_error_length = 512

-- `Notification.queue`; the uuid that `uuidv7()` returns is the first argument.
unfoldable pub queue : String → String → String → String → String → String → ℕ → Notification
queue uuid recipient_uuid recipient_address channel subject body now = record {
  uuid = uuid;
  recipient_uuid = recipient_uuid;
  recipient_address = recipient_address;
  channel = channel;
  subject = subject;
  body = body;
  status = queued;
  attempts = 0;
  last_error = none;
  sent_at = none;
  created_at = now;
  updated_at = now;
}

abbrev pub is_sent : DeliveryStatus → Bool
is_sent sent = true
is_sent _ = false

abbrev pub is_queued : DeliveryStatus → Bool
is_queued queued = true
is_queued _ = false

unfoldable pub is_deliverable : Notification → Bool
is_deliverable n = not (is_sent n.status)

unfoldable pub begin_attempt : ℕ → Notification → Notification
begin_attempt now n =
    if is_sent n.status then n else record n { attempts = n.attempts + 1; updated_at = now }

unfoldable pub mark_sent : ℕ → Notification → Notification
mark_sent now n =
    if is_sent n.status
    then n
    else record n { status = sent; sent_at = some now; last_error = none; updated_at = now }

unfoldable pub mark_failed : List ℕ → ℕ → ℕ → Notification → Notification
mark_failed error max_attempts now n = if is_sent n.status then n else record n {
  last_error = some (take max_error_length error);
  status = if leb max_attempts n.attempts then failed else queued;
  updated_at = now;
}

unfoldable pub mark_unconfigured : ℕ → Notification → Notification
mark_unconfigured now n =
    if is_sent n.status then n else record n { status = unconfigured; updated_at = now }
