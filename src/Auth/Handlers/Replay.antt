-- ===== src/Auth/Handlers/Replay.antt =====
-- Refresh tokens (src/modules/auth/application/commands/refresh-token.handler.ts): each is good for
-- one rotation, and a replay ends the session.
use nest_kit.Auth.Handlers.{AppError, Claims, IssuedToken, Tokenizer, rotate_session, refresh_token}
use nest_kit.Base.{
  ℕ, String, ◌≡◌, refl, sym, ap, ◌∙◌, subst, true, false, Option, none, some, [], ◌∷◌, ◌++◌, arith,
  ◌=ₛ◌,
}
use nest_kit.Effects.{ok, err, returned, threw, state_of, result_of, ◌>>=◌}
use nest_kit.Events.{session_revoked}
use nest_kit.Table.{find, key-find, find-upsert_self}
use nest_kit.Transactions.{with_transaction}
use nest_kit.Auth.Session.{
  Session, is_active, is_none, revoke, rotate, session_not_active, refresh_token_replayed,
}
use nest_kit.Database.{Db, Store, Tx, loaded, session_key, session_row, find_session, save_session}

find_session-save_session :
    (s : Session) (k : String) (db : Db)
    → s.uuid ≡ k
    → find_session k (save_session s db) ≡ some (session_row s)
unfolding find_session save_session
find_session-save_session s k db e =
    subst
      (λ x.
        loaded session_row (find session_key x (save_session s db).sessions) ≡ some (session_row s))
      e (ap (loaded session_row) (find-upsert_self session_key (session_row s) db.sessions))

-- A loaded session has the uuid that was asked for, and no events.
find_session-some :
    (k : String) (db : Db) (s : Session)
    → find_session k db ≡ some s
    → (s.uuid ≡ k) × (s.events ≡ [])
unfolding find_session
find_session-some k db s e = go (find session_key k db.sessions) refl e
  where
    go :
        (r : Option Session)
        → find session_key k db.sessions ≡ r
        → loaded session_row r ≡ some s
        → (s.uuid ≡ k) × (s.events ≡ [])
    go none h e' = cc
    go (some x) h e' =
        let known = key-find session_key k db.sessions x h in
        let same : session_row x ≡ s = ground arith in
        (ap (λ y. y.uuid) (sym same) ∙ known, ap (λ y. y.events) (sym same))

module _ (claims : Claims) (next : IssuedToken) (now : ℕ) (t : Tx) (s : Session)
    (found : find_session claims.sid t.db ≡ some s) where
  rotate_session_replayed :
      is_active now s ≡ true
      → (claims.jti =ₛ s.refresh_jti) ≡ false
      → rotate_session claims next now t
        ≡ returned true (record {
          db = save_session (revoke now s) t.db;
          events = t.events ++ (revoke now s).events;
        })
  unfolding rotate_session rotate
  rotate_session_replayed active other = rw (found, active, other) refl

  rotate_session_inactive :
      is_active now s ≡ false → rotate_session claims next now t ≡ threw session_not_active t
  unfolding rotate_session rotate
  rotate_session_inactive inactive = rw (found, inactive) refl

-- The transaction of a refresh, run on its own.
abbrev begun : Store → Tx
begun w = record { db = w.db; events = [] }

module _ (tokenizer : Tokenizer) (token : String) (claims : Claims) (now : ℕ) (w : Store)
    (parsed : tokenizer.parse_refresh token ≡ ok claims) where
  abbrev next : IssuedToken
  next = tokenizer.issue_refresh claims.sub claims.sid

  refresh_of_threw :
      (e : AppError) (t : Tx)
      → rotate_session claims next now (begun w) ≡ threw e t
      → refresh_token tokenizer token now w ≡ threw e w
  unfolding refresh_token with_transaction
  refresh_of_threw e t thrown = rw (parsed, ◌>>=◌, thrown) refl

  refresh_of_replayed :
      (t : Tx)
      → rotate_session claims next now (begun w) ≡ returned true t
      → refresh_token tokenizer token now w
        ≡ threw refresh_token_replayed (record {
          db = t.db;
          outbox = w.outbox ++ t.events;
          dispatched = w.dispatched ++ t.events;
        })
  unfolding refresh_token with_transaction
  refresh_of_replayed t done = rw (parsed, ◌>>=◌, done) refl

revoke_active :
    (now : ℕ) (s : Session)
    → is_active now s ≡ true
    → s.events ≡ []
    → ((revoke now s).uuid ≡ s.uuid)
      × (session_row (revoke now s) ≡ record s { revoked_at = some now })
      × ((revoke now s).events ≡ session_revoked s.uuid s.user_uuid ∷ [])
unfolding is_active revoke
revoke_active now s active quiet = ground arith

-- A refresh token that is not the current one of its active session is refused, and the session's
-- revocation is committed with its event all the same: the refusal comes after the transaction.
pub refresh_token-revokes :
    (tokenizer : Tokenizer) (token : String) (claims : Claims) (now : ℕ) (w : Store) (s : Session)
    → tokenizer.parse_refresh token ≡ ok claims
    → find_session claims.sid w.db ≡ some s
    → is_active now s ≡ true
    → (claims.jti =ₛ s.refresh_jti) ≡ false
    → let out = refresh_token tokenizer token now w in
      (result_of out ≡ err refresh_token_replayed)
      × (find_session claims.sid (state_of out).db ≡ some (record s { revoked_at = some now }))
      × ((state_of out).outbox ≡ w.outbox ++ session_revoked s.uuid s.user_uuid ∷ [])
refresh_token-revokes tokenizer token claims now w s parsed found active other =
    let (known, quiet) = find_session-some claims.sid w.db s found in
    let (same, row, told) = revoke_active now s active quiet in
    let ran =
      refresh_of_replayed tokenizer token claims now w parsed _
        (rotate_session_replayed claims _ now (begun w) s found active other) in
    rw ran (
      refl,
      find_session-save_session (revoke now s) claims.sid w.db (same ∙ known) ∙ ap some row,
      ap (λ es. w.outbox ++ es) told,
    )

-- A session that was revoked refuses every refresh token, and the refused refresh changes nothing.
pub refresh_token-refused :
    (tokenizer : Tokenizer) (token : String) (claims : Claims) (now : ℕ) (w : Store) (s : Session)
    → tokenizer.parse_refresh token ≡ ok claims
    → find_session claims.sid w.db ≡ some s
    → is_none s.revoked_at ≡ false
    → refresh_token tokenizer token now w ≡ threw session_not_active w
refresh_token-refused tokenizer token claims now w s parsed found revoked =
    refresh_of_threw tokenizer token claims now w parsed session_not_active (begun w)
      (rotate_session_inactive claims _ now (begun w) s found (unfold is_active in rw revoked refl))
