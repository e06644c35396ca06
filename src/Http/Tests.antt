-- ===== src/Http/Tests.antt =====
-- Runs of the guards of src/platform/http/guards on small inputs.
use nest_kit.Base.{
  ℕ, min, String, ◌≡◌, refl, true, false, some, List, [], ◌∷◌, arith, eq_iff, ◌=ₛ◌, All,
}
use nest_kit.Texts.{Text, same, split}
use nest_kit.Effects.{Result, ok, err}
use nest_kit.Queries.{first}
use nest_kit.Rbac.Grants.{Grants}
use nest_kit.Http.{Budget}
use nest_kit.Http.Windows.{Ask, admitted, asked, admitted-min}
use nest_kit.Http.Access.{
  AccessClaims, Route, bearer_token, current_user, is_revoked, is_allowed, authenticate, authorize,
  guarded, revoke_token, token_revoked,
}
use nest_kit.Http.Guarded.{
  Revocation, revoke_all, IsOfToken, asks, guarded_ok, guarded-revoke_token,
}

abbrev budget : Budget
budget = record { scope = []; limit = 2; window_seconds = 60 }

-- Two clients, the first with three requests
abbrev client_ask : Text → ℕ → Ask
client_ask key now = record { budget = budget; key = key; now = now }

abbrev first_ask : Ask
first_ask = client_ask (1 ∷ []) 5

abbrev more_asks : List Ask
more_asks = client_ask (2 ∷ []) 6 ∷ client_ask (1 ∷ []) 7 ∷ client_ask (1 ∷ []) 64 ∷ []

admitted-min_example :
    admitted (1 ∷ []) (first_ask ∷ more_asks) [] ≡ min (asked (1 ∷ []) (first_ask ∷ more_asks)) 2
unfolding first
admitted-min_example = admitted-min (1 ∷ []) 2 first_ask more_asks [] refl refl (
  (omega arith, λ e. refl),
  ((omega arith, λ e. refl), ((omega arith, λ e. refl), ((omega arith, λ e. refl), tt))),
)

-- `Bearer t`
abbrev header : Text
header = 66 ∷ 101 ∷ 97 ∷ 114 ∷ 101 ∷ 114 ∷ 32 ∷ 116 ∷ []

abbrev claims : AccessClaims
claims = record { sub = "u1"; sid = "s1"; jti = "j1"; exp = 100 }

abbrev parse_access : Text → Result AccessClaims
parse_access token = ok claims

-- `p`
abbrev route : Route
route = record { is_public = false; roles = []; permissions = (112 ∷ []) ∷ [] }

abbrev grants_for : String → Grants
grants_for user_uuid = record { roles = []; permissions = (112 ∷ []) ∷ [] }

header_read : bearer_token header ≡ some (116 ∷ [])
unfolding bearer_token split same
header_read = refl

let_in : guarded parse_access grants_for route header 5 [] ≡ ok (some (current_user claims))
unfolding guarded authenticate authorize is_allowed bearer_token split same is_revoked
let_in = refl

guarded_ok_example :
    (token : Text) × (found_claims : AccessClaims) × (bearer_token header ≡ some token)
    × (parse_access token ≡ ok found_claims)
    × (is_revoked found_claims.jti 5 [] ≡ false)
    × (some (current_user claims) ≡ some (current_user found_claims))
    × (asks route ≡ true → is_allowed route (grants_for found_claims.sub) ≡ true)
guarded_ok_example =
    guarded_ok parse_access grants_for route header 5 [] (some (current_user claims)) refl let_in

-- A logout of another token, and a second one of this token
abbrev more : List Revocation
more =
    record { jti = "j2"; expires_at = 90; at = 4 }
    ∷ record { jti = "j1"; expires_at = 100; at = 5 }
    ∷ []

two_tokens : ("j2" =ₛ "j1") ≡ false
two_tokens = refl

more-IsOfToken : All (IsOfToken claims.jti claims.exp) more
more-IsOfToken = (λ e. cc (two_tokens, (eq_iff "j2" "j1").1 e), (λ e. refl, tt))

guarded-revoke_token_example :
    guarded parse_access grants_for route header 5
      (revoke_all more (revoke_token claims.jti claims.exp 4 []))
    ≡ err token_revoked
guarded-revoke_token_example =
    guarded-revoke_token parse_access grants_for route header (116 ∷ []) claims 4 5 more [] refl
      header_read refl more-IsOfToken (omega arith) (omega arith)
