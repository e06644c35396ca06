-- ===== src/Http.antt =====
-- src/platform/http/guards/rate-limit.guard.ts. Of Redis: the script `FIXED_WINDOW`, on keys that
-- are gone once they expire. Whether a call reached it is an argument; times are in seconds.
pub mod Windows
pub mod Access
pub mod Guarded
pub mod Errors
mod Tests
use nest_kit.Base.{
  ℕ, suc, ◌+◌, ◌-◌, Bool, not, ◌&&◌, Option, none, some, List, [], ◌∷◌, ◌++◌, ltb, if◌then◌else◌,
}
use nest_kit.Texts.{Text, same, split, trim, is_empty}
use nest_kit.Queries.{first, select, found}
use nest_kit.Errors.{AppError, rate_limited, app_error}
use nest_kit.Effects.{Result, ok, err}

pub record Budget : Type 0 where
  pub scope : Text
  pub limit : ℕ
  pub window_seconds : ℕ

-- `RateLimitSetting`
pub data Setting : Type 0 where
  default auth unlimited : Setting
  inline : Budget → Setting

-- `config.rateLimit` and `config.trustProxy`
pub record Config : Type 0 where
  pub enabled : Bool
  pub limit : ℕ
  pub window_seconds : ℕ
  pub auth_limit : ℕ
  pub auth_window_seconds : ℕ
  pub trust_proxy : Bool

-- The header `x-forwarded-for`
pub data Forwarded : Type 0 where
  absent : Forwarded
  one : Text → Forwarded
  many : List Text → Forwarded

pub record Request : Type 0 where
  pub forwarded : Forwarded
  pub ip : Option Text
  pub remote_address : Option Text

abbrev head {ℓ} : {A : Type ℓ} → List A → Option A
head [] = none
head (x ∷ xs) = some x

abbrev forwarded_value : Forwarded → Option Text
forwarded_value absent = none
forwarded_value (one t) = some t
forwarded_value (many ts) = head ts

-- `value?.split(',')[0]?.trim()`
abbrev first_hop : Option Text → Option Text
first_hop none = none
first_hop (some t) = found trim (head (split 44 t))

-- `unknown`
abbrev unknown : Text
unknown = 117 ∷ 110 ∷ 107 ∷ 110 ∷ 111 ∷ 119 ∷ 110 ∷ []

abbrev address : Option Text → Option Text → Text
address (some ip) remote = ip
address none (some remote) = remote
address none none = unknown

abbrev chosen : Option Text → Text → Text
chosen none other = other
chosen (some t) other = if is_empty t then other else t

-- `clientId`
unfoldable pub client_id : Bool → Request → Text
client_id trust_proxy request =
    let other = address request.ip request.remote_address in
    if trust_proxy then chosen (first_hop (forwarded_value request.forwarded)) other else other

-- A key of Redis with its count
pub record Counter : Type 0 where
  pub key : Text
  pub count : ℕ
  pub expires_at : ℕ

abbrev pub is_counter : Text → ℕ → Counter → Bool
is_counter key now c = same c.key key && ltb now c.expires_at

abbrev pub hit : Text → ℕ → ℕ → Option Counter → Counter
hit key window_seconds now none = record { key = key; count = 1; expires_at = now + window_seconds }
hit key window_seconds now (some c) = record {
  key = key;
  count = suc c.count;
  expires_at = c.expires_at;
}

-- `FIXED_WINDOW`: the counter that the request leaves, whose count and rest of time it returns
unfoldable pub fixed_window : Text → ℕ → ℕ → List Counter → Counter
fixed_window key window_seconds now counters =
    hit key window_seconds now (first (is_counter key now) counters)

unfoldable pub stored : Counter → List Counter → List Counter
stored c counters = c ∷ select (λ d. not (same d.key c.key)) counters

-- The `x-ratelimit-*` and `retry-after` headers
pub record Headers : Type 0 where
  pub limit : ℕ
  pub remaining : ℕ
  pub reset : ℕ
  pub retry_after : Option ℕ

pub record Passage : Type 0 where
  pub verdict : Result (Unit {0})
  pub headers : Option Headers
  pub counters : List Counter

abbrev pub passed : List Counter → Passage
passed counters = record { verdict = ok tt; headers = none; counters = counters }

abbrev pub too_many_requests : AppError
too_many_requests = app_error rate_limited "RATE_LIMITED"

-- `ttl > 0 ? ttl : windowSeconds`
abbrev pub reset_seconds : ℕ → ℕ → ℕ
reset_seconds ttl window_seconds = if ltb 0 ttl then ttl else window_seconds

abbrev pub judged : Budget → ℕ → Counter → List Counter → Passage
judged budget reset c counters =
    let over = ltb budget.limit c.count in
    record {
      verdict = if over then err too_many_requests else ok tt;
      headers = some (record {
        limit = budget.limit;
        remaining = budget.limit - c.count;
        reset = reset;
        retry_after = if over then some reset else none;
      });
      counters = stored c counters;
    }

-- `canActivate` from the key on
unfoldable pub admit : Bool → Budget → Text → ℕ → List Counter → Passage
admit reached budget key now counters =
    let c = fixed_window key budget.window_seconds now counters in
    if reached
    then judged budget (reset_seconds (c.expires_at - now) budget.window_seconds) c counters
    else passed counters

-- `ratelimit:`
abbrev prefix : Text
prefix = 114 ∷ 97 ∷ 116 ∷ 101 ∷ 108 ∷ 105 ∷ 109 ∷ 105 ∷ 116 ∷ 58 ∷ []

abbrev global_scope : Text
global_scope = 103 ∷ 108 ∷ 111 ∷ 98 ∷ 97 ∷ 108 ∷ []

abbrev auth_scope : Text
auth_scope = 97 ∷ 117 ∷ 116 ∷ 104 ∷ []

-- `budgetFor`; no budget for `none`
unfoldable pub budget_for : Config → Setting → Option Budget
budget_for config unlimited = none
budget_for config (inline budget) = some budget
budget_for config auth = some (record {
  scope = auth_scope;
  limit = config.auth_limit;
  window_seconds = config.auth_window_seconds;
})
budget_for config default =
    some (record {
      scope = global_scope;
      limit = config.limit;
      window_seconds = config.window_seconds;
    })

abbrev limited : Bool → Config → Request → ℕ → List Counter → Option Budget → Passage
limited reached config request now counters none = passed counters
limited reached config request now counters (some budget) =
    admit reached budget (prefix ++ budget.scope ++ 58 ∷ client_id config.trust_proxy request) now
      counters

abbrev setting_or_default : Option Setting → Setting
setting_or_default none = default
setting_or_default (some setting) = setting

-- `canActivate`, of a route with the given setting or none
unfoldable pub can_activate : Bool → Config → Option Setting → Request → ℕ → List Counter → Passage
can_activate reached config setting request now counters =
    if config.enabled
    then limited reached config request now counters
        (budget_for config (setting_or_default setting))
    else passed counters
