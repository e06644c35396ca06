-- ===== src/Tokens/Tests.antt =====
-- A token (src/platform/crypto/es256-tokenizer.ts) that is issued and then asked for, by a signature
-- that carries its payload as it is.
use nest_kit.Base.{ℕ, ◌<◌, ◌≡◌, refl, Option, none, some, arith, ltb, if◌then◌else◌, lt→ltb}
use nest_kit.Effects.{err}
use nest_kit.Tokens.{Payload, access, refresh, parse, issue, wrong_token_type, parse-issue}

abbrev until : ℕ → Payload → Option ℕ → Option Payload
until now p none = none
until now p (some exp) = if ltb now exp then some p else none

abbrev verify : ℕ → Payload → Option Payload
verify now p = until now p p.exp

verifies : (p : Payload) (exp now : ℕ) → p.exp ≡ some exp → now < exp → verify now p ≡ some p
verifies p exp now e h = rw (e, lt→ltb now exp h) refl

-- A refresh token does not authenticate.
parse-issue_example :
    parse verify access 5 (issue (λ p. p) refresh "t1" "u1" "s1" 60 4000).token
    ≡ err wrong_token_type
parse-issue_example =
    parse-issue (λ p. p) verify verifies refresh access "t1" "u1" "s1" 60 4000 5 refl refl refl
      (omega arith)
