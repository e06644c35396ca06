-- ===== src/Auth/Tests.antt =====
-- Runs of the sessions and of the refresh handler (src/modules/auth) on small inputs.
use nest_kit.Base.{String, ◌≡◌, refl, some, List, [], ◌∷◌, ◌++◌}
use nest_kit.Effects.{ok, err, state_of, result_of}
use nest_kit.Events.{session_revoked}
use nest_kit.Auth.Session.{Session, start, is_active, refresh_token_replayed}
use nest_kit.Auth.Session.History.{Call, rotates, revokes, run, run-revocation, revocation}
use nest_kit.Database.{Store, find_session}
use nest_kit.Auth.Handlers.{Claims, Tokenizer, refresh_token}
use nest_kit.Auth.Handlers.Replay.{refresh_token-revokes}
use nest_kit.Table.{find}

abbrev session : Session
session = start "s1" "u1" "j1" 5 100

abbrev history : List Call
history = rotates "j1" "j2" 10 200 ∷ rotates "j1" "j3" 20 300 ∷ revokes 30 ∷ []

run-revocation_example :
    (run (start "s1" "u1" "j1" 5 100) history).events
    ≡ revocation (run (start "s1" "u1" "j1" 5 100) history)
run-revocation_example = run-revocation "s1" "u1" "j1" 5 100 history

-- A tokenizer whose tokens are their own identifiers, for one session.
abbrev tokenizer : Tokenizer
tokenizer = record {
  parse_refresh = λ token. ok (record { sub = "u1"; sid = "s1"; jti = token });
  issue_refresh = λ user sid. record { token = "j2"; jti = "j2"; expires_at = 200 };
  issue_access = λ user sid. record { token = "a"; jti = "a"; expires_at = 50 };
}

abbrev claims : String → Claims
claims jti = record { sub = "u1"; sid = "s1"; jti = jti }

abbrev world : Session → Store
world s = record {
  db = record { users = []; owners = []; cars = []; sessions = s ∷ [] };
  outbox = [];
  dispatched = [];
}

refresh_token-revokes_example :
    (result_of (refresh_token tokenizer "j0" 10 (world session)) ≡ err refresh_token_replayed)
    × (find_session "s1" (state_of (refresh_token tokenizer "j0" 10 (world session))).db
        ≡ some (record session { revoked_at = some 10 }))
    × ((state_of (refresh_token tokenizer "j0" 10 (world session))).outbox
        ≡ [] ++ session_revoked "s1" "u1" ∷ [])
unfolding find_session find is_active start
refresh_token-revokes_example =
    refresh_token-revokes tokenizer "j0" (claims "j0") 10 (world session) session refl refl refl
      refl
