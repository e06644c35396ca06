-- ===== src/Outbox/Tests.antt =====
-- Runs of the outbox's relay (src/platform/outbox) on small tables.
use nest_kit.Base.{
  ℕ, zero, suc, String, ◌≡◌, refl, Bool, true, false, none, some, List, [], ◌∷◌, All, ne_of_test,
}
use nest_kit.Table.{find}
use nest_kit.Outbox.Rows.{OutboxRow, id_of}
use nest_kit.Outbox.Relay.{Reply, acked, refused, OutboxConfig, RelayState, tick, IsAlive}
use nest_kit.Outbox.Relay.Settled.{IsUnstranded, tick-IsUnstranded}
use nest_kit.Outbox.Relay.Stranded.{ticks, replays, work_all, work_all-stranded}

abbrev row : String → ℕ → OutboxRow
row id attempts = record {
  id = id;
  event = record {
    name = "car.sold";
    version = "1";
    idempotency_key = id;
    occurred_at = 1;
    payload = "";
  };
  attempts = attempts;
  last_error = none;
  published_at = none;
  dead_lettered_at = none;
  created_at = 1;
}

abbrev config : OutboxConfig
config = record { batch_size = 2; max_attempts = 3 }

abbrev ready : RelayState
ready = record { running = false; stopped = false; ready = true }

abbrev unlocked : String → Bool
unlocked id = false

abbrev first_refused : ℕ → Reply
first_refused zero = refused (111 ∷ [])
first_refused (suc j) = acked

first_refused-live : (j : ℕ) → IsAlive (first_refused j)
first_refused-live zero = tt
first_refused-live (suc j) = tt

abbrev rows : List OutboxRow
rows = row "a" 2 ∷ row "b" 0 ∷ row "c" 1 ∷ []

tick-IsUnstranded_example :
    All (IsUnstranded 3) (tick config 50 ready unlocked first_refused rows).rows
tick-IsUnstranded_example =
    tick-IsUnstranded config 50 ready unlocked first_refused rows first_refused-live
      (refl, (refl, (refl, tt)))

-- The relay died during the third attempt of row "a".
abbrev left_over : List OutboxRow
left_over = row "a" 3 ∷ row "b" 0 ∷ []

work_all-stranded_example :
    find id_of "a" (
      work_all config left_over (
        ticks 50 ready unlocked first_refused
        ∷ replays []
        ∷ ticks 60 ready unlocked first_refused
        ∷ []))
    ≡ some (row "a" 3)
unfolding find
work_all-stranded_example =
    work_all-stranded config left_over
      (ticks 50 ready unlocked first_refused
        ∷ replays []
        ∷ ticks 60 ready unlocked first_refused
        ∷ [])
      (row "a" 3) ((ne_of_test "b" "a" refl, tt), (tt, tt)) refl refl
