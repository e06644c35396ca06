-- ===== src/Tokens.antt =====
-- src/platform/crypto/es256-tokenizer.ts, with the types of tokenizer.port.ts of
-- src/shared/application/ports. Signing and verification, which are jose's, are arguments, as are the
-- id of a new token and the times to live. The key files and their import are left out.
pub mod Tests
use nest_kit.Base.{
  ℕ, zero, suc, ◌+◌, ◌-◌, ◌*◌, ◌/◌, ◌%◌, ◌^◌, ◌≤◌, ◌<◌, min, max, String, ◌≡◌, refl, sym, ap, ◌∙◌,
  subst, ◌≡⟨◌⟩◌, ◌∎, ◌≢◌, ◌↔◌, ◌⊎◌, inl, inr, Bool, true, false, not, ◌&&◌, ◌||◌, Option, none,
  some, List, [], ◌∷◌, ◌++◌, map, append_assoc, append-nil, arith, eq_iff, eq_refl, dec_lt,
  ℕ_discrete, ◌=ₛ◌, ltb, leb, ◌==◌, if◌then◌else◌, ltb→lt, lt→ltb, leb→le, le→leb, ==_iff, tests,
  Bool-cases, Option-cases, length, take, all, any, length-append, length-take-le, length-map, All,
  All-append, ne_of_test, some_inj, and_left, and_right, or_true, or_false,
}
use nest_kit.Errors.{AppError, unauthorized, app_error}
use nest_kit.Effects.{Result, ok, err}

pub data TokenType : Type 0 where
  access : TokenType
  refresh : TokenType

abbrev pub same_type : TokenType → TokenType → Bool
same_type access access = true
same_type access refresh = false
same_type refresh access = false
same_type refresh refresh = true

pub record TokenClaims : Type 0 where
  pub sub : String
  pub jti : String
  pub sid : String
  pub typ : TokenType
  pub exp : ℕ

pub record IssuedToken {ℓ} (A : Type ℓ) : Type ℓ where
  pub token : A
  pub jti : String
  pub expires_at : ℕ

-- `JWTPayload`: the claims that a token may carry; a type that is neither is none.
pub record Payload : Type 0 where
  pub sub : Option String
  pub jti : Option String
  pub sid : Option String
  pub typ : Option TokenType
  pub exp : Option ℕ

abbrev pub invalid_token : AppError
invalid_token = app_error unauthorized "INVALID_TOKEN"

abbrev pub wrong_token_type : AppError
wrong_token_type = app_error unauthorized "WRONG_TOKEN_TYPE"

abbrev pub is_blank : String → Bool
is_blank s = s =ₛ ""

abbrev is_type : TokenType → Option TokenType → Bool
is_type expected none = false
is_type expected (some typ) = same_type typ expected

abbrev typed_claims :
    TokenType → String → String → String → ℕ → Option TokenType → Result TokenClaims
typed_claims expected sub jti sid exp typ =
    if is_type expected typ
    then ok (record { sub = sub; jti = jti; sid = sid; typ = expected; exp = exp })
    else err wrong_token_type

-- What `parse` does with a payload: a claim that is missing, empty or 0 is refused first.
abbrev claims_of :
    TokenType
    → Option String
    → Option String
    → Option String
    → Option ℕ
    → Option TokenType
    → Result TokenClaims
claims_of expected (some sub) (some jti) (some sid) (some exp) typ =
    if is_blank sub || is_blank jti || is_blank sid || exp == 0
    then err invalid_token
    else typed_claims expected sub jti sid exp typ
claims_of expected none jti sid exp typ = err invalid_token
claims_of expected (some sub) none sid exp typ = err invalid_token
claims_of expected (some sub) (some jti) none exp typ = err invalid_token
claims_of expected (some sub) (some jti) (some sid) none typ = err invalid_token

abbrev accepted : TokenType → Option Payload → Result TokenClaims
accepted expected none = err invalid_token
accepted expected (some p) = claims_of expected p.sub p.jti p.sid p.exp p.typ

module _ {ℓ} {A : Type ℓ} where
  -- `parse`, at a time in seconds
  unfoldable pub parse : (ℕ → A → Option Payload) → TokenType → ℕ → A → Result TokenClaims
  parse verify expected now token = accepted expected (verify now token)

  -- `issue`, at a time in milliseconds
  unfoldable pub issue :
      (Payload → A) → TokenType → String → String → String → ℕ → ℕ → IssuedToken A
  issue sign typ jti sub sid ttl_seconds now =
      let expires_at = now / 1000 + ttl_seconds in
      record {
        token = sign (record {
          sub = some sub;
          jti = some jti;
          sid = some sid;
          typ = some typ;
          exp = some expires_at;
        });
        jti = jti;
        expires_at = expires_at * 1000;
      }

  -- A token that was issued is good, until it expires, where its own type is asked for, and gives back
  -- what it was issued for; where the other type is asked for it is refused. This is when its ids are
  -- not empty, and a signed payload is verified until the second of its expiry.
  pub parse-issue :
      (sign : Payload → A) (verify : ℕ → A → Option Payload)
      → ((p : Payload) (exp now : ℕ) → p.exp ≡ some exp → now < exp → verify now (sign p) ≡ some p)
      → (typ expected : TokenType) (jti sub sid : String) (ttl_seconds now later : ℕ)
      → is_blank jti ≡ false
      → is_blank sub ≡ false
      → is_blank sid ≡ false
      → later < now / 1000 + ttl_seconds
      → parse verify expected later (issue sign typ jti sub sid ttl_seconds now).token ≡ (
          if same_type typ expected
          then ok (record {
            sub = sub;
            jti = jti;
            sid = sid;
            typ = expected;
            exp = now / 1000 + ttl_seconds;
          })
          else err wrong_token_type)
  unfolding parse issue
  parse-issue sign verify verifies typ expected jti sub sid ttl_seconds now later j u s h =
      rw
        (
          verifies
              (record {
                sub = some sub;
                jti = some jti;
                sid = some sid;
                typ = some typ;
                exp = some (now / 1000 + ttl_seconds);
              })
              (now / 1000 + ttl_seconds) later refl h,
          j,
          u,
          s,
          positive (now / 1000 + ttl_seconds) h,
        )
        refl
    where
      positive : (n : ℕ) → later < n → (n == 0) ≡ false
      positive n k = ground (arith, k)
