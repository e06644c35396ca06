-- ===== src/Notification/Dispatcher/Mails.antt =====
-- The mails of a sweep, and the cap on attempts
-- (src/modules/notification/infrastructure/notification-dispatcher.task.ts).
use nest_kit.Notification.Dispatcher.Rows.{deliver-rows, written}
use nest_kit.Notification.Dispatcher.{
  uuid_of, Mail, Reply, accepted, died, refused, Turn, DispatchConfig, Sweep, save, queued_rows,
  list_queued, mail_of, deliver, deliver_all, run,
}
use nest_kit.Base.{
  ℕ, zero, suc, ◌+◌, ◌≤◌, ◌<◌, ◌≡◌, refl, sym, ◌∙◌, inl, inr, Bool, true, false, List, [], ◌∷◌,
  ◌++◌, map, append_assoc, append-nil, arith, ◌=ₛ◌, if◌then◌else◌, Bool-cases, take, All,
}
use nest_kit.Notification.{
  queued, Notification, begin_attempt, mark_sent, mark_failed, mark_unconfigured,
}
use nest_kit.Table.{All-upsert}

-- The notifications of a batch that go by mail.
unfoldable pub by_mail : List Notification → List Notification
by_mail [] = []
by_mail (n ∷ batch) = if n.channel =ₛ "email" then n ∷ by_mail batch else by_mail batch

abbrev pub IsAlive : Reply → Type 0
IsAlive died = ⊥
IsAlive _ = Unit

module _ (config : DispatchConfig) (unsupported : List ℕ) where
  begin-mail : (now : ℕ) (n : Notification) → mail_of (begin_attempt now n) ≡ mail_of n
  unfolding begin_attempt
  begin-mail now n = ground arith

  abbrev mails_of : List Notification → List Mail
  mails_of batch = if config.configured then map mail_of (by_mail batch) else []

  deliver-mails_to :
      (turn : Turn) (r : Reply) (n : Notification) (s : Sweep)
      → turn.reply ≡ r
      → IsAlive r
      → config.configured ≡ true
      → (n.channel =ₛ "email") ≡ true
      → let t = deliver config unsupported turn n s in
        (t.mails ≡ s.mails ++ mail_of n ∷ []) × (t.alive ≡ s.alive)
  unfolding deliver save
  deliver-mails_to turn accepted n s e live on ch =
      rw (e, on, ch, begin-mail turn.begun n) (refl, refl)
  deliver-mails_to turn (refused error) n s e live on ch =
      rw (e, on, ch, begin-mail turn.begun n) (refl, refl)
  deliver-mails_to turn died n s e live on ch = absurd live

  deliver-mails :
      (turn : Turn) (n : Notification) (s : Sweep)
      → IsAlive turn.reply
      → let t = deliver config unsupported turn n s in
        (t.mails ≡ s.mails ++ mails_of (n ∷ [])) × (t.alive ≡ s.alive)
  unfolding by_mail
  deliver-mails turn n s live = elim (Bool-cases config.configured) [
    | inr off ↦ unfold deliver save in rw (off, append-nil) (refl, refl)
    | inl on ↦ elim (Bool-cases (n.channel =ₛ "email")) [
      | inr other ↦ unfold deliver save in rw (on, other, append-nil) (refl, refl)
      | inl email ↦ simp (on, email) (deliver-mails_to turn turn.reply n s refl live on email)
    ]
  ]

  mails_of-nil : (mails : List Mail) → mails ++ mails_of [] ≡ mails
  unfolding by_mail
  mails_of-nil mails = ground (arith, append-nil mails)

  mails_of-cons :
      (n : Notification) (batch : List Notification)
      → mails_of (n ∷ batch) ≡ mails_of (n ∷ []) ++ mails_of batch
  unfolding by_mail
  mails_of-cons n batch = ground arith

  deliver_all-mails :
      (turns : ℕ → Turn) (i : ℕ) (batch : List Notification) (s : Sweep)
      → ((j : ℕ) → IsAlive (turns j).reply)
      → s.alive ≡ true
      → (deliver_all config unsupported turns i batch s).mails ≡ s.mails ++ mails_of batch
  unfolding deliver_all
  deliver_all-mails turns i [] s live alive = sym (mails_of-nil s.mails)
  deliver_all-mails turns i (n ∷ batch) s live alive =
      let (mailed, still) = deliver-mails (turns i) n s (live i) in
      let rest =
        deliver_all-mails turns (i + 1) batch (deliver config unsupported (turns i) n s) live
          (still ∙ alive) in
      simp alive (rest ∙ rw (mailed, append_assoc, ← mails_of-cons n batch))

-- If a transport is configured and the process lives through the sweep, a sweep hands it exactly
-- one mail for each of the first `batch` QUEUED notifications whose channel is email, in their
-- order; with no transport configured it hands over none.
pub run-mails :
    (config : DispatchConfig) (unsupported : List ℕ) (turns : ℕ → Turn) (s : Sweep)
    → ((j : ℕ) → IsAlive (turns j).reply)
    → s.alive ≡ true
    → (run config unsupported turns s).mails
      ≡ s.mails
        ++ (if config.configured
            then map mail_of (by_mail (take config.batch (queued_rows s.rows)))
            else [])
unfolding run list_queued
run-mails config unsupported turns s live alive =
    deliver_all-mails config unsupported turns 0 (take config.batch (queued_rows s.rows)) s live
      alive

-- At most `max_attempts` attempts were made, and fewer for one that is still queued.
pub record IsCapped (most : ℕ) (n : Notification) : Type 0 where
  pub capped : n.attempts ≤ most
  pub spare : n.status ≡ queued → n.attempts < most

abbrev IsReady : ℕ → Notification → Type 0
IsReady most n = IsCapped most n × (n.status ≡ queued)

module _ (config : DispatchConfig) (unsupported : List ℕ) where
  written-IsCapped :
      (turn : Turn) (r : Reply) (n : Notification)
      → turn.reply ≡ r
      → IsAlive r
      → IsReady config.max_attempts n
      → IsCapped config.max_attempts (written config unsupported turn n)
  unfolding written begin_attempt mark_sent mark_failed mark_unconfigured
  written-IsCapped turn accepted n e live (c, q) = ground arith
  written-IsCapped turn (refused error) n e live (c, q) = ground arith
  written-IsCapped turn died n e live (c, q) = absurd live

  deliver-IsCapped :
      (turn : Turn) (n : Notification) (s : Sweep)
      → IsAlive turn.reply
      → IsReady config.max_attempts n
      → All (IsCapped config.max_attempts) s.rows
      → All (IsCapped config.max_attempts) (deliver config unsupported turn n s).rows
  deliver-IsCapped turn n s live ready h = rw (deliver-rows config unsupported turn n s) (
      All-upsert uuid_of (IsCapped config.max_attempts) (written config unsupported turn n) s.rows
        (written-IsCapped turn turn.reply n refl live ready) h)

  deliver_all-IsCapped :
      (turns : ℕ → Turn) (i : ℕ) (batch : List Notification) (s : Sweep)
      → ((j : ℕ) → IsAlive (turns j).reply)
      → All (IsReady config.max_attempts) batch
      → All (IsCapped config.max_attempts) s.rows
      → All (IsCapped config.max_attempts) (deliver_all config unsupported turns i batch s).rows
  unfolding deliver_all
  deliver_all-IsCapped turns i [] s live ready h = h
  deliver_all-IsCapped turns i (n ∷ batch) s live (r, ready) h =
      deliver_all-IsCapped turns (i + 1) batch
        (if s.alive then deliver config unsupported (turns i) n s else s) live ready
        (if_either s.alive _ (deliver-IsCapped (turns i) n s (live i) r h) h)
    where
      if_either :
          (b : Bool) (t : Sweep)
          → All (IsCapped config.max_attempts) t.rows
          → All (IsCapped config.max_attempts) s.rows
          → All (IsCapped config.max_attempts) (if b then t else s).rows
      if_either true t ht hs = ht
      if_either false t ht hs = hs

queued_rows-IsReady :
    (most : ℕ) (rows : List Notification)
    → All (IsCapped most) rows
    → All (IsReady most) (queued_rows rows)
unfolding queued_rows
queued_rows-IsReady most [] h = tt
queued_rows-IsReady most (n ∷ rows) (c, h) = ground (arith, queued_rows-IsReady most rows h)

take-IsReady :
    (most k : ℕ) (rows : List Notification)
    → All (IsReady most) rows
    → All (IsReady most) (take k rows)
take-IsReady most zero rows h = tt
take-IsReady most (suc k) [] h = tt
take-IsReady most (suc k) (n ∷ rows) (c, h) = (c, take-IsReady most k rows h)

-- Sweeps that the process lives through keep the cap on attempts: if every notification has at most
-- `max_attempts` attempts behind it, and every QUEUED one fewer, then the same holds after a sweep.
pub run-IsCapped :
    (config : DispatchConfig) (unsupported : List ℕ) (turns : ℕ → Turn) (s : Sweep)
    → ((j : ℕ) → IsAlive (turns j).reply)
    → All (IsCapped config.max_attempts) s.rows
    → All (IsCapped config.max_attempts) (run config unsupported turns s).rows
unfolding run list_queued
run-IsCapped config unsupported turns s live h =
    deliver_all-IsCapped config unsupported turns 0 (take config.batch (queued_rows s.rows)) s live
      (take-IsReady config.max_attempts config.batch (queued_rows s.rows)
        (queued_rows-IsReady config.max_attempts s.rows h))
      h
