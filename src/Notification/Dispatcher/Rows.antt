-- ===== src/Notification/Dispatcher/Rows.antt =====
-- What a sweep of the dispatcher
-- (src/modules/notification/infrastructure/notification-dispatcher.task.ts) writes to the table.
use nest_kit.Base.{
  ℕ, zero, suc, ◌+◌, String, ◌≡◌, refl, sym, ◌∙◌, subst, ◌≢◌, inl, inr, true, false, not, some,
  List, [], ◌∷◌, arith, eq_iff, ◌=ₛ◌, if◌then◌else◌, Bool-cases, take,
}
use nest_kit.Table.{find, upsert, find-upsert_ne, upsert-upsert, HasDistinctKeys, IsFresh}
use nest_kit.Notification.{
  queued, Notification, is_queued, begin_attempt, mark_sent, mark_failed, mark_unconfigured,
}
use nest_kit.Notification.Dispatcher.{
  Reply, accepted, died, refused, Turn, DispatchConfig, Sweep, uuid_of, queued_rows, list_queued,
  deliver, deliver_all, run,
}

module _ (config : DispatchConfig) (unsupported : List ℕ) where
  abbrev settled : Turn → Reply → Notification → Notification
  settled turn accepted n = mark_sent turn.ended n
  settled turn (refused error) n = mark_failed error config.max_attempts turn.ended n
  settled turn died n = n

  -- The row that a turn leaves behind.
  unfoldable pub written : Turn → Notification → Notification
  written turn n =
      if not config.configured
      then mark_unconfigured turn.begun n
      else if not (n.channel =ₛ "email")
      then mark_failed unsupported 0 turn.begun n
      else settled turn turn.reply (begin_attempt turn.begun n)

  begin-uuid : (now : ℕ) (n : Notification) → (begin_attempt now n).uuid ≡ n.uuid
  unfolding begin_attempt
  begin-uuid now n = ground arith

  settled-uuid : (turn : Turn) (r : Reply) (n : Notification) → (settled turn r n).uuid ≡ n.uuid
  unfolding mark_sent mark_failed
  settled-uuid turn accepted n = ground arith
  settled-uuid turn (refused e) n = ground arith
  settled-uuid turn died n = refl

  pub written-uuid : (turn : Turn) (n : Notification) → (written turn n).uuid ≡ n.uuid
  unfolding written mark_unconfigured
  written-uuid turn n = ground (
    arith,
    settled-uuid turn turn.reply (begin_attempt turn.begun n),
    settled-uuid turn (refused unsupported) n,
    begin-uuid turn.begun n,
    unsupported_uuid turn.begun n,
  )
    where
      unsupported_uuid :
          (now : ℕ) (m : Notification) → (mark_failed unsupported 0 now m).uuid ≡ m.uuid
      unsupported_uuid now m = unfold mark_failed in ground arith

  attempt-rows :
      (turn : Turn) (r : Reply) (n : Notification) (s : Sweep)
      → turn.reply ≡ r
      → config.configured ≡ true
      → (n.channel =ₛ "email") ≡ true
      → (deliver config unsupported turn n s).rows
        ≡ upsert uuid_of (settled turn r (begin_attempt turn.begun n)) s.rows
  unfolding deliver
  attempt-rows turn accepted n s e c ch =
      rw (e, c, ch)
        (upsert-upsert uuid_of (settled turn accepted (begin_attempt turn.begun n))
          (begin_attempt turn.begun n) s.rows
          (sym (settled-uuid turn accepted (begin_attempt turn.begun n))))
  attempt-rows turn (refused error) n s e c ch =
      rw (e, c, ch)
        (upsert-upsert uuid_of (settled turn (refused error) (begin_attempt turn.begun n))
          (begin_attempt turn.begun n) s.rows
          (sym (settled-uuid turn (refused error) (begin_attempt turn.begun n))))
  attempt-rows turn died n s e c ch = rw (e, c, ch)

  -- A turn writes the row of its notification and no other.
  pub deliver-rows :
      (turn : Turn) (n : Notification) (s : Sweep)
      → (deliver config unsupported turn n s).rows ≡ upsert uuid_of (written turn n) s.rows
  unfolding written
  deliver-rows turn n s = elim (Bool-cases config.configured) [
    | inr off ↦ unfold deliver in rw off
    | inl on ↦ elim (Bool-cases (n.channel =ₛ "email")) [
      | inr other ↦ unfold deliver in rw (on, other)
      | inl email ↦ rw (attempt-rows turn turn.reply n s refl on email) (rw (on, email))
    ]
  ]

  deliver-keeps :
      (turn : Turn) (n : Notification) (s : Sweep) (k : String)
      → n.uuid ≢ k
      → find uuid_of k (deliver config unsupported turn n s).rows ≡ find uuid_of k s.rows
  deliver-keeps turn n s k h =
      rw (deliver-rows turn n s)
        (find-upsert_ne uuid_of (written turn n) k s.rows (λ e. h (sym (written-uuid turn n) ∙ e)))

  deliver_all-keeps :
      (turns : ℕ → Turn) (i : ℕ) (batch : List Notification) (s : Sweep) (k : String)
      → IsFresh uuid_of k batch
      → find uuid_of k (deliver_all config unsupported turns i batch s).rows ≡ find uuid_of k s.rows
  unfolding deliver_all
  deliver_all-keeps turns i [] s k h = refl
  deliver_all-keeps turns i (n ∷ batch) s k (h, hs) =
      deliver_all-keeps turns (i + 1) batch
        (if s.alive then deliver config unsupported (turns i) n s else s) k hs
      ∙ ground (arith, deliver-keeps (turns i) n s k h)

IsFresh-in_queued :
    (k : String) (rows : List Notification)
    → IsFresh uuid_of k rows
    → IsFresh uuid_of k (queued_rows rows)
unfolding queued_rows
IsFresh-in_queued k [] h = tt
IsFresh-in_queued k (n ∷ rows) (h, hs) = ground (arith, IsFresh-in_queued k rows hs)

IsFresh-in_take :
    (k : String) (l : ℕ) (rows : List Notification)
    → IsFresh uuid_of k rows
    → IsFresh uuid_of k (take l rows)
IsFresh-in_take k zero rows h = tt
IsFresh-in_take k (suc l) [] h = tt
IsFresh-in_take k (suc l) (n ∷ rows) (h, hs) = (h, IsFresh-in_take k l rows hs)

-- Where uuids are distinct, a row that is not queued is no part of a batch.
unqueued-IsFresh :
    (k : String) (rows : List Notification) (n : Notification)
    → HasDistinctKeys uuid_of rows
    → find uuid_of k rows ≡ some n
    → is_queued n.status ≡ false
    → IsFresh uuid_of k (queued_rows rows)
unfolding queued_rows find
unqueued-IsFresh k [] n d e h = tt
unqueued-IsFresh k (m ∷ rows) n (f, d) e h = elim (Bool-cases (m.uuid =ₛ k)) [
  | inl same ↦
      let same_key : m.uuid ≡ k = (eq_iff m.uuid k).0 same in
      let same_row : m ≡ n = ground arith in
      let idle : is_queued m.status ≡ false = rw same_row h in
      rw idle (IsFresh-in_queued k rows (subst (λ x. IsFresh uuid_of x rows) same_key f))
  | inr other ↦
      let e' : find uuid_of k rows ≡ some n = ground arith in
      ground (arith, eq_iff m.uuid k, unqueued-IsFresh k rows n d e' h)
]

-- A sweep leaves every row alone that is not QUEUED when it begins: one that was sent, one that
-- failed for good, and one that an earlier sweep marked UNCONFIGURED, also when a transport is
-- configured by now.
pub run-unqueued_unchanged :
    (config : DispatchConfig) (unsupported : List ℕ) (turns : ℕ → Turn) (s : Sweep) (k : String)
    (n : Notification)
    → HasDistinctKeys uuid_of s.rows
    → find uuid_of k s.rows ≡ some n
    → n.status ≢ queued
    → find uuid_of k (run config unsupported turns s).rows ≡ some n
unfolding run list_queued
run-unqueued_unchanged config unsupported turns s k n d e h =
    deliver_all-keeps config unsupported turns 0 (list_queued config.batch s.rows) s k (
      IsFresh-in_take k config.batch (queued_rows s.rows)
        (unqueued-IsFresh k s.rows n d e (ground arith)))
    ∙ e
