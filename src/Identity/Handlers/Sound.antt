-- ===== src/Identity/Handlers/Sound.antt =====
-- The table of users through one transaction of a handler (src/modules/identity/application/commands),
-- with the registration and the deletion of a user.
use nest_kit.Base.{
  ℕ, String, ◌≡◌, refl, sym, ap, ◌∙◌, subst, inl, inr, false, Option, none, some, [], ◌∷◌, ◌++◌,
  arith, Bool-cases,
}
use nest_kit.Effects.{Outcome, returned, threw, state_of, object_of, lift, ◌>>=◌}
use nest_kit.Events.{user_deleted}
use nest_kit.Table.{find, HasDistinctKeys, HasDistinctKeys-upsert, key-find}
use nest_kit.Transactions.{with_transaction}
use nest_kit.Identity.User.{User, is_set, is_deleted, register, delete}
use nest_kit.Database.{
  Db, Store, Tx, loaded, user_key, user_row, live_by_email, find_user, find_user_by_email,
  save_user,
}
use nest_kit.Identity.Handlers.{store_user, live, register_work, delete_work}
use nest_kit.Identity.Handlers.Emails.{
  HasUniqueEmails, IsAdmissible, HasUniqueEmails-upsert, none-IsAdmissible, deleted-IsAdmissible,
}

-- One row for each uuid, and no email shared by live users.
pub record IsSound (db : Db) : Type 0 where
  pub keyed : HasDistinctKeys user_key db.users
  pub unique : HasUniqueEmails db.users

-- What a computation that returns gives.
abbrev pub Post {κ} : (User → Tx → Type κ) → Outcome Tx User → Type κ
Post P (returned u t) = P u t
Post P (threw e t) = Unit

-- A user that may be written where nothing was written yet.
abbrev pub IsReady : Tx → User → Tx → Type 0
IsReady t u t' = (t' ≡ t) × IsAdmissible u t.db.users

abbrev pub IsSoundTx : User → Tx → Type 0
IsSoundTx u t = IsSound t.db

pub store_user-IsSound :
    (u : User) (t : Tx) → IsAdmissible u t.db.users → IsSound t.db → Post IsSoundTx (store_user u t)
unfolding save_user
store_user-IsSound u t h s = record {
  keyed = HasDistinctKeys-upsert user_key (user_row u) t.db.users s.keyed;
  unique = HasUniqueEmails-upsert (user_row u) t.db.users s.keyed h s.unique;
}

pub bind-Post {κ} :
    (P : User → Tx → Type κ) (Q : User → Tx → Type κ) (o : Outcome Tx User)
    (f : User → Tx → Outcome Tx User)
    → Post P o
    → ((u : User) (t : Tx) → P u t → Post Q (f u t))
    → Post Q (elim o [ returned u t ↦ f u t | threw e t ↦ threw e t ])
bind-Post P Q (returned u t) f h k = k u t h
bind-Post P Q (threw e t) f h k = tt

pub committed-IsSound :
    (work : Tx → Outcome Tx User) (w : Store)
    → IsSound w.db
    → Post IsSoundTx (work (record { db = w.db; events = [] }))
    → IsSound (state_of (with_transaction work w)).db
unfolding with_transaction
committed-IsSound work w s h = go (work (record { db = w.db; events = [] })) refl
  where
    go :
        (o : Outcome Tx User)
        → work (record { db = w.db; events = [] }) ≡ o
        → IsSound (state_of (with_transaction work w)).db
    go (returned u t) e = rw e (subst (λ o. Post IsSoundTx o) e h)
    go (threw e' t) e = rw e s

pub register_work-IsSound :
    (uuid email hash : String) (now : ℕ) (t : Tx)
    → IsSound t.db
    → Post IsSoundTx (register_work uuid email hash now t)
unfolding find_user_by_email register
register_work-IsSound uuid email hash now t s = go (live_by_email email t.db.users) refl
  where
    go :
        (r : Option User)
        → live_by_email email t.db.users ≡ r
        → Post IsSoundTx (register_work uuid email hash now t)
    go none e = rw e (
        store_user-IsSound (register uuid email hash now) t
          (none-IsAdmissible (register uuid email hash now) t.db.users e) s)
    go (some x) e = rw e tt

-- A live user that was loaded: its row has its uuid, its email, and is live.
abbrev pub IsRowOf : User → User → Db → Type 0
IsRowOf u r db =
    (find user_key u.uuid db.users ≡ some r) × (r.email ≡ u.email) × (is_set r.deleted_at ≡ false)

pub found_live :
    (uuid : String) (db : Db) (u : User)
    → live (find_user uuid db) ≡ some u
    → (r : User) × IsRowOf u r db
unfolding find_user
found_live uuid db u e = go (find user_key uuid db.users) refl e
  where
    go :
        (o : Option User)
        → find user_key uuid db.users ≡ o
        → live (loaded user_row o) ≡ some u
        → (r : User) × IsRowOf u r db
    go none h e' = cc
    go (some x) h e' =
        let alive : is_set x.deleted_at ≡ false = ground arith in
        let same : user_row x ≡ u = ground arith in
        let known = key-find user_key uuid db.users x h in
        (
          x,
          (
            subst (λ k. find user_key k db.users ≡ some x) (sym known ∙ ap (λ y. y.uuid) same) h,
            ap (λ y. y.email) same,
            alive,
          ),
        )

delete-IsSound :
    (now : ℕ) (u : User) (t : Tx)
    → IsSound t.db
    → Post IsSoundTx ((lift (object_of (delete now u)) >>= store_user) t)
unfolding delete
delete-IsSound now u t s = elim (Bool-cases (is_deleted u)) [
  | inl gone ↦ rw gone tt
  | inr here ↦
      let v : User = record u {
        deleted_at = some now;
        updated_at = now;
        events = u.events ++ user_deleted u.uuid ∷ [];
      } in
      rw here (store_user-IsSound v t (deleted-IsAdmissible v t.db.users refl) s)
]

pub delete_work-IsSound :
    (uuid : String) (now : ℕ) (t : Tx) → IsSound t.db → Post IsSoundTx (delete_work uuid now t)
delete_work-IsSound uuid now t s = go (live (find_user uuid t.db)) refl
  where
    go :
        (o : Option User) → live (find_user uuid t.db) ≡ o → Post IsSoundTx (delete_work uuid now t)
    go none e = rw e tt
    go (some u) e = rw e (delete-IsSound now u t s)
