-- ===== src/Notification/Tests.antt =====
-- Runs of the notifications and of their dispatcher (src/modules/notification) on small inputs.
use nest_kit.Base.{
  ℕ, zero, suc, String, ◌≡◌, refl, true, some, List, [], ◌∷◌, ◌++◌, map, arith, take, All,
  ne_of_test,
}
use nest_kit.Table.{find}
use nest_kit.Notification.{Notification, queue, mark_unconfigured}
use nest_kit.Notification.Lifecycle.{
  Call, begins, sends, fails, IsValid, queue-IsValid, run_sent, run-IsValid,
}
use nest_kit.Notification.Lifecycle
use nest_kit.Notification.Dispatcher.{
  accepted, refused, Turn, DispatchConfig, Sweep, uuid_of, queued_rows, mail_of, run,
}
use nest_kit.Notification.Dispatcher.Rows.{run-unqueued_unchanged}
use nest_kit.Notification.Dispatcher.Mails.{IsAlive, by_mail, IsCapped, run-mails, run-IsCapped}

abbrev welcome : String → Notification
welcome uuid = queue uuid "u1" "ada@example.com" "email" "Welcome" "Hello" 5

abbrev failing : List Call
failing = begins 10 ∷ fails (104 ∷ 105 ∷ []) 2 11 ∷ begins 20 ∷ sends 21 ∷ []

run-IsValid_example : IsValid (Lifecycle.run (welcome "n1") failing)
run-IsValid_example =
    run-IsValid (welcome "n1") failing
      (queue-IsValid "n1" "u1" "ada@example.com" "email" "Welcome" "Hello" 5)

abbrev config : DispatchConfig
config = record { batch = 20; max_attempts = 5; configured = true }

-- The first mail is refused and the later ones are accepted.
abbrev turns : ℕ → Turn
turns j = record {
  reply = elim j [ zero ↦ refused (53 ∷ 53 ∷ []) | suc i ↦ accepted ];
  begun = 100;
  ended = 101;
}

abbrev sweep : Sweep
sweep = record {
  rows = welcome "n1" ∷ mark_unconfigured 6 (welcome "n2") ∷ welcome "n3" ∷ [];
  mails = [];
  alive = true;
}

turns-live : (j : ℕ) → IsAlive (turns j).reply
turns-live zero = tt
turns-live (suc j) = tt

run-mails_example :
    (run config [] turns sweep).mails
    ≡ [] ++ map mail_of (by_mail (take 20 (queued_rows sweep.rows)))
run-mails_example = run-mails config [] turns sweep turns-live refl

welcome-IsCapped : (uuid : String) → IsCapped 5 (welcome uuid)
unfolding queue
welcome-IsCapped uuid = ground arith

run-IsCapped_example : All (IsCapped 5) (run config [] turns sweep).rows
run-IsCapped_example = run-IsCapped config [] turns sweep turns-live (
  welcome-IsCapped "n1",
  (unfold mark_unconfigured queue in ground arith, (welcome-IsCapped "n3", tt)),
)

run-unqueued_unchanged_example :
    find uuid_of "n2" (run config [] turns sweep).rows ≡ some (mark_unconfigured 6 (welcome "n2"))
unfolding find mark_unconfigured queue
run-unqueued_unchanged_example =
    run-unqueued_unchanged config [] turns sweep "n2" (mark_unconfigured 6 (welcome "n2"))
      (
        (ne_of_test "n2" "n1" refl, (ne_of_test "n3" "n1" refl, tt)),
        ((ne_of_test "n3" "n2" refl, tt), (tt, tt)),
      )
      refl (ground arith)
