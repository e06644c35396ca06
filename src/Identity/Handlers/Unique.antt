-- ===== src/Identity/Handlers/Unique.antt =====
-- The update of a user, and sequences of commands (src/modules/identity/application/commands).
use nest_kit.Base.{
  ℕ, String, ◌≡◌, refl, sym, subst, inl, inr, ◌&&◌, Option, none, some, List, [], ◌∷◌, eq_iff, ◌=ₛ◌,
  Bool-cases,
}
use nest_kit.Effects.{Result, ok, err, state_of, object_of, lift, ◌>>=◌}
use nest_kit.Events.{UserStatus, pending}
use nest_kit.Identity.User.{
  User, is_deleted, same_status, is_suspended, change_email, change_status,
}
use nest_kit.Database.{Store, Tx, live_by_email, find_user, find_user_by_email}
use nest_kit.Identity.Handlers.{
  store_user, live, with_email, with_status, update_work, register_user, update_user, delete_user,
}
use nest_kit.Identity.Handlers.Emails.{
  IsAdmissible, none-IsAdmissible, some-IsAdmissible, own-IsAdmissible,
}
use nest_kit.Identity.Handlers.Sound.{
  IsSound, Post, IsReady, IsSoundTx, store_user-IsSound, bind-Post, committed-IsSound,
  register_work-IsSound, IsRowOf, found_live, delete_work-IsSound,
}

change_email-Post :
    (email : String) (now : ℕ) (u : User) (t : Tx)
    → IsAdmissible u t.db.users
    → IsAdmissible (record u { email = email }) t.db.users
    → Post (IsReady t) (lift (object_of (change_email email now u)) t)
unfolding change_email
change_email-Post email now u t own new = elim (Bool-cases (is_deleted u)) [
  | inl gone ↦ rw gone tt
  | inr here ↦ elim (Bool-cases (u.email =ₛ email)) [
    | inl same ↦ rw (here, same) (refl, own)
    | inr other ↦ rw (here, other) (refl, new)
  ]
]

with_email-Post :
    (email : Option (Result String)) (now : ℕ) (u r : User) (t : Tx)
    → IsSound t.db
    → IsRowOf u r t.db
    → Post (IsReady t) (with_email email now u t)
unfolding find_user_by_email
with_email-Post none now u r t s (found, same, alive) =
    (refl, own-IsAdmissible u r t.db.users s.unique found same alive)
with_email-Post (some (err e)) now u r t s row = tt
with_email-Post (some (ok email)) now u r t s (found, same, alive) =
    go (live_by_email email t.db.users) refl
  where
    own : IsAdmissible u t.db.users
    own = own-IsAdmissible u r t.db.users s.unique found same alive

    go :
        (o : Option User)
        → live_by_email email t.db.users ≡ o
        → Post (IsReady t) (with_email (some (ok email)) now u t)
    go none e = rw e (
        change_email-Post email now u t own
          (none-IsAdmissible (record u { email = email }) t.db.users e))
    go (some x) e = elim (Bool-cases (x.uuid =ₛ u.uuid)) [
      | inl mine ↦
          rw (e, mine)
            (change_email-Post email now u t own (
              some-IsAdmissible (record u { email = email }) x t.db.users s.unique e
                ((eq_iff x.uuid u.uuid).0 mine)))
      | inr other ↦ rw (e, other) tt
    ]

change_status-Post :
    (status : UserStatus) (now : ℕ) (u : User) (t : Tx)
    → IsAdmissible u t.db.users
    → Post (IsReady t) (lift (object_of (change_status status now u)) t)
unfolding change_status
change_status-Post status now u t own = elim (Bool-cases (is_deleted u)) [
  | inl gone ↦ rw gone tt
  | inr here ↦ elim (Bool-cases (same_status u.status status)) [
    | inl same ↦ rw (here, same) (refl, own)
    | inr other ↦ elim (Bool-cases (is_suspended u.status && same_status status pending)) [
      | inl back ↦ rw (here, other, back) tt
      | inr forth ↦ rw (here, other, forth) (refl, own)
    ]
  ]
]

with_status-Post :
    (status : Option UserStatus) (now : ℕ) (u : User) (t : Tx)
    → IsAdmissible u t.db.users
    → Post (IsReady t) (with_status status now u t)
with_status-Post none now u t own = (refl, own)
with_status-Post (some status) now u t own = change_status-Post status now u t own

update_work-IsSound :
    (uuid : String) (email : Option (Result String)) (status : Option UserStatus) (now : ℕ) (t : Tx)
    → IsSound t.db
    → Post IsSoundTx (update_work uuid email status now t)
update_work-IsSound uuid email status now t s = go (live (find_user uuid t.db)) refl
  where
    finish : (v : User) (t' : Tx) → IsReady t v t' → Post IsSoundTx (store_user v t')
    finish v t' (same, own) =
        subst (λ x. Post IsSoundTx (store_user v x)) (sym same) (store_user-IsSound v t own s)

    status_then :
        (v : User) (t' : Tx)
        → IsReady t v t'
        → Post IsSoundTx ((with_status status now v >>= store_user) t')
    status_then v t' (same, own) =
        subst (λ x. Post IsSoundTx ((with_status status now v >>= store_user) x)) (sym same)
          (bind-Post (IsReady t) IsSoundTx (with_status status now v t) store_user
            (with_status-Post status now v t own) finish)

    go :
        (o : Option User)
        → live (find_user uuid t.db) ≡ o
        → Post IsSoundTx (update_work uuid email status now t)
    go none e = rw e tt
    go (some u) e =
        let (r, row) = found_live uuid t.db u e in
        rw e (
          bind-Post (IsReady t) IsSoundTx (with_email email now u t)
            (λ v. with_status status now v >>= store_user) (with_email-Post email now u r t s row)
            status_then)

pub data Command : Type 0 where
  registers : (uuid email hash : String) → ℕ → Command
  updates : String → Option (Result String) → Option UserStatus → ℕ → Command
  deletes : String → ℕ → Command

unfoldable pub execute : Store → Command → Store
execute w (registers uuid email hash now) = state_of (register_user uuid email hash now w)
execute w (updates uuid email status now) = state_of (update_user uuid email status now w)
execute w (deletes uuid now) = state_of (delete_user uuid now w)

unfoldable pub execute_all : Store → List Command → Store
execute_all w [] = w
execute_all w (c ∷ cs) = execute_all (execute w c) cs

execute-IsSound : (w : Store) (c : Command) → IsSound w.db → IsSound (execute w c).db
unfolding execute register_user update_user delete_user
execute-IsSound w (registers uuid email hash now) s =
    committed-IsSound _ w s (register_work-IsSound uuid email hash now _ s)
execute-IsSound w (updates uuid email status now) s =
    committed-IsSound _ w s (update_work-IsSound uuid email status now _ s)
execute-IsSound w (deletes uuid now) s = committed-IsSound _ w s (delete_work-IsSound uuid now _ s)

-- No two live users ever share an email: if they share none and have distinct uuids, then so it is
-- after any sequence of registrations, updates and deletions, whether a command succeeds or throws.
pub execute_all-IsSound :
    (w : Store) (cs : List Command) → IsSound w.db → IsSound (execute_all w cs).db
unfolding execute_all
execute_all-IsSound w [] s = s
execute_all-IsSound w (c ∷ cs) s = execute_all-IsSound (execute w c) cs (execute-IsSound w c s)
