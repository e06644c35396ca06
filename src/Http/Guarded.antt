-- ===== src/Http/Guarded.antt =====
-- What passes jwt-auth.guard.ts and authorization.guard.ts of src/platform/http/guards.
use nest_kit.Base.{
  ℕ, ◌≤◌, ◌<◌, String, ◌≡◌, refl, sym, ap, ◌∙◌, subst, inl, inr, Bool, true, false, not, ◌&&◌,
  Option, none, some, List, [], ◌∷◌, arith, eq_iff, eq_refl, ◌=ₛ◌, ltb, leb, lt→ltb, Bool-cases,
  All,
}
use nest_kit.Queries.{any-select}
use nest_kit.Texts.{Text, is_empty}
use nest_kit.Effects.{Result, ok, err, and_then_ok, ok_inj}
use nest_kit.Rbac.Grants.{Grants}
use nest_kit.Http.Access.{
  AccessClaims, CurrentUser, Revoked, Route, revoke_token, is_revoked, bearer_token, current_user,
  verified, unless_revoked, optionally, authenticate, is_allowed, authorize, guarded, token_revoked,
}

-- A route that asks for a role or a permission
abbrev pub asks : Route → Bool
asks route = not (is_empty route.roles && is_empty route.permissions)

optionally_ok :
    (r : Result CurrentUser) (caller : Option CurrentUser)
    → optionally r ≡ ok caller
    → (u : CurrentUser) × (r ≡ ok u) × (caller ≡ some u)
optionally_ok (ok u) caller e = (u, refl, sym (ok_inj e))
optionally_ok (err x) caller e = cc

verified_ok :
    (parse_access : Text → Result AccessClaims) (now : ℕ) (revoked : List Revoked) (o : Option Text)
    (u : CurrentUser)
    → verified parse_access now revoked o ≡ ok u
    → (token : Text) × (claims : AccessClaims) × (o ≡ some token)
      × (parse_access token ≡ ok claims)
      × (is_revoked claims.jti now revoked ≡ false)
      × (u ≡ current_user claims)
verified_ok parse_access now revoked none u e = cc
verified_ok parse_access now revoked (some token) u e =
    let (claims, parsed, kept) =
      and_then_ok (parse_access token) (unless_revoked now revoked) u e in
    elim (Bool-cases (is_revoked claims.jti now revoked)) [
      | inl gone ↦ cc (rw gone at kept)
      | inr fine ↦ (token, claims, refl, parsed, fine, sym (ok_inj (rw fine at kept)))
    ]

authorize_ok :
    (route : Route) (grants_for : String → Grants) (u : CurrentUser)
    → authorize route grants_for (some u) ≡ ok tt
    → asks route ≡ true
    → is_allowed route (grants_for u.uuid) ≡ true
unfolding authorize
authorize_ok route grants_for u e asked =
    elim (Bool-cases (is_empty route.roles && is_empty route.permissions)) [
      | inl nothing ↦ cc (rw nothing at asked)
      | inr something ↦ elim (Bool-cases (is_allowed route (grants_for u.uuid))) [
        | inl yes_ ↦ yes_
        | inr no_ ↦ cc (rw (something, no_) at e)
      ]
    ]

-- A request that passes to a route that is not public presents a token that is verified and was not
-- revoked, its caller is the subject of that token, and if the route asks for a role or a permission,
-- the caller is granted one of those that it names.
pub guarded_ok :
    (parse_access : Text → Result AccessClaims) (grants_for : String → Grants) (route : Route)
    (header : Text) (now : ℕ) (revoked : List Revoked) (caller : Option CurrentUser)
    → route.is_public ≡ false
    → guarded parse_access grants_for route header now revoked ≡ ok caller
    → (token : Text) × (claims : AccessClaims) × (bearer_token header ≡ some token)
      × (parse_access token ≡ ok claims)
      × (is_revoked claims.jti now revoked ≡ false)
      × (caller ≡ some (current_user claims))
      × (asks route ≡ true → is_allowed route (grants_for claims.sub) ≡ true)
unfolding guarded authenticate
guarded_ok parse_access grants_for route header now revoked caller private e =
    let (who, known, rest) =
      and_then_ok (authenticate parse_access route.is_public header now revoked) _ caller e in
    let (u, checked, same) =
      optionally_ok (verified parse_access now revoked (bearer_token header)) who
        (rw private at known) in
    let (token, claims, read, parsed, fine, built) =
      verified_ok parse_access now revoked (bearer_token header) u checked in
    let (unit_, allowed, final) = and_then_ok (authorize route grants_for who) _ caller rest in
    let whole : who ≡ some (current_user claims) = same ∙ ap some built in
    (
      token,
      claims,
      read,
      parsed,
      fine,
      sym (ok_inj final) ∙ whole,
      authorize_ok route grants_for (current_user claims)
          (subst (λ x. authorize route grants_for x ≡ ok tt) whole allowed),
    )

-- A call of `revoke`: the id and the expiry of a token, and the time
pub record Revocation : Type 0 where
  pub jti : String
  pub expires_at : ℕ
  pub at : ℕ

-- Calls of `revoke`, one after the other
unfoldable pub revoke_all : List Revocation → List Revoked → List Revoked
revoke_all [] revoked = revoked
revoke_all (v ∷ more) revoked = revoke_all more (revoke_token v.jti v.expires_at v.at revoked)

-- A call that agrees with what is known of the expiry of a token
abbrev pub IsOfToken : String → ℕ → Revocation → Type 0
IsOfToken jti expires_at v = v.jti ≡ jti → v.expires_at ≡ expires_at

is_revoked-revoke_token :
    (jti : String) (expires_at then_ now : ℕ) (revoked : List Revoked)
    → then_ ≤ now
    → now < expires_at
    → is_revoked jti now (revoke_token jti expires_at then_ revoked) ≡ true
unfolding is_revoked revoke_token
is_revoked-revoke_token jti expires_at then_ now revoked le live =
    ground (arith, eq_refl jti, lt→ltb now expires_at live)

-- Another call leaves an id revoked: it is of another id, or it sets the same expiry anew.
is_revoked-revoke_again :
    (jti : String) (expires_at now : ℕ) (v : Revocation) (revoked : List Revoked)
    → IsOfToken jti expires_at v
    → now < expires_at
    → is_revoked jti now revoked ≡ true
    → is_revoked jti now (revoke_token v.jti v.expires_at v.at revoked) ≡ true
unfolding is_revoked revoke_token
is_revoked-revoke_again jti expires_at now v revoked same live h =
    elim (Bool-cases (leb v.expires_at v.at)) [
      | inl expired ↦ rw (expired, h) refl
      | inr fresh ↦ elim (Bool-cases (v.jti =ₛ jti)) [
        | inl this ↦
            rw (fresh, this, same ((eq_iff v.jti jti).0 this), lt→ltb now expires_at live) refl
        | inr other ↦
            rw
              (
                fresh,
                other,
                any-select (λ r. r.jti =ₛ jti && ltb now r.expires_at) (λ r. not (r.jti =ₛ v.jti))
                    revoked
                    (λ r its.
                      ground (arith, eq_iff r.jti jti, eq_iff r.jti v.jti, eq_iff v.jti jti)),
                h,
              )
              refl
      ]
    ]

is_revoked-revoke_all :
    (jti : String) (expires_at now : ℕ) (more : List Revocation) (revoked : List Revoked)
    → All (IsOfToken jti expires_at) more
    → now < expires_at
    → is_revoked jti now revoked ≡ true
    → is_revoked jti now (revoke_all more revoked) ≡ true
unfolding revoke_all
is_revoked-revoke_all jti expires_at now [] revoked all_ live h = h
is_revoked-revoke_all jti expires_at now (v ∷ more) revoked (one, all_) live h =
    is_revoked-revoke_all jti expires_at now more _ all_ live
      (is_revoked-revoke_again jti expires_at now v revoked one live h)

-- Once the id of a token was revoked, a request with that token to a route that is not public is
-- refused until the token expires, whatever is revoked after it, where every revocation of that id
-- is given the expiry of the token.
pub guarded-revoke_token :
    (parse_access : Text → Result AccessClaims) (grants_for : String → Grants) (route : Route)
    (header token : Text) (claims : AccessClaims) (then_ now : ℕ) (more : List Revocation)
    (revoked : List Revoked)
    → route.is_public ≡ false
    → bearer_token header ≡ some token
    → parse_access token ≡ ok claims
    → All (IsOfToken claims.jti claims.exp) more
    → then_ ≤ now
    → now < claims.exp
    → guarded parse_access grants_for route header now
        (revoke_all more (revoke_token claims.jti claims.exp then_ revoked))
      ≡ err token_revoked
unfolding guarded authenticate
guarded-revoke_token parse_access grants_for route header token claims then_ now more revoked
      private read parsed all_ le live =
    rw
      (
        private,
        read,
        parsed,
        is_revoked-revoke_all claims.jti claims.exp now more _ all_ live
            (is_revoked-revoke_token claims.jti claims.exp then_ now revoked le live),
      )
      refl
