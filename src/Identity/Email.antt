-- ===== src/Identity/Email.antt =====
-- src/modules/identity/domain/value-objects/email.ts. `toLowerCase` is an argument.
use nest_kit.Base.{
  ℕ, ◌≡◌, refl, sym, ap, ◌∙◌, subst, inl, inr, Bool, true, false, not, ◌&&◌, ◌||◌, List, [], ◌∷◌,
  ◌++◌, arith, ltb, ◌==◌, if◌then◌else◌, Bool-cases, length, all, All, All-append, and_left,
  and_right,
}
use nest_kit.Texts.{trim_id, join, join-split, Text, trim, split, is_space, is_empty}
use nest_kit.Errors.{validation}
use nest_kit.Effects.{ok_inj, Result, ok, err}

-- `[^\s@]`
abbrev is_email_char : ℕ → Bool
is_email_char c = not (is_space c || c == 64)

-- A dot with a character after it
unfoldable pub has_dot : Text → Bool
has_dot [] = false
has_dot (c ∷ []) = false
has_dot (c ∷ d ∷ ds) = let rest = has_dot (d ∷ ds) in c == 46 || rest

-- `[^\s@]+\.[^\s@]+`, of a text without white space and `@`
abbrev is_domain : Text → Bool
is_domain [] = false
is_domain (c ∷ cs) = has_dot cs

abbrev are_parts : List Text → Bool
are_parts (local ∷ domain ∷ []) =
    not (is_empty local) && is_domain domain && all is_email_char local && all is_email_char domain
are_parts parts = false

-- `PATTERN`
unfoldable pub is_email : Text → Bool
is_email t = are_parts (split 64 t)

-- `MAX_LENGTH`
abbrev max_length : ℕ
max_length = 254

-- `Email.of`
unfoldable pub email_of : (Text → Text) → Text → Result Text
email_of lower raw =
    let normalised = lower (trim raw) in
    if is_empty normalised
    then err (validation "email")
    else if ltb max_length (length normalised)
    then err (validation "email")
    else if not (is_email normalised)
    then err (validation "email")
    else ok normalised

-- The parts of an address hold no white space.
spaceless_parts :
    (parts : List Text)
    → are_parts parts ≡ true
    → (local : Text) × (domain : Text) × (parts ≡ local ∷ domain ∷ [])
      × (all is_email_char local ≡ true)
      × (all is_email_char domain ≡ true)
spaceless_parts [] h = cc
spaceless_parts (a ∷ []) h = cc
spaceless_parts (a ∷ b ∷ c ∷ parts) h = cc
spaceless_parts (local ∷ domain ∷ []) h = (
  local,
  domain,
  refl,
  and_right (not (is_empty local) && is_domain domain) _
      (and_left (not (is_empty local) && is_domain domain && all is_email_char local) _ h),
  and_right (not (is_empty local) && is_domain domain && all is_email_char local) _ h,
)

spaceless : (t : Text) → all is_email_char t ≡ true → All (λ c. is_space c ≡ false) t
spaceless [] h = tt
spaceless (c ∷ cs) h = elim (Bool-cases (is_email_char c)) [
  | inl e ↦ (ground arith, spaceless cs (rw e at h))
  | inr e ↦ cc (rw e at h)
]

at_apart : is_space 64 ≡ false
unfolding is_space
at_apart = refl

trim-is_email : (t : Text) → is_email t ≡ true → trim t ≡ t
unfolding is_email
trim-is_email t h =
    let (local, domain, parts, l, d) = spaceless_parts (split 64 t) h in
    let whole : join 64 (local ∷ domain ∷ []) ≡ t = ap (join 64) (sym parts) ∙ join-split 64 t in
    trim_id t (
      subst (λ x. All (λ c. is_space c ≡ false) x) (sym (joined local domain) ∙ whole)
        (All-append (λ c. is_space c ≡ false) local (64 ∷ domain) (spaceless local l)
          (at_apart, spaceless domain d)))
  where
    joined : (a b : Text) → join 64 (a ∷ b ∷ []) ≡ a ++ 64 ∷ b
    joined a b = unfold join in refl

-- An address is in normal form: written down and read again it stays as it is, when a text of lower
-- case stays as it is in lower case.
pub email_of_again :
    (lower : Text → Text) (raw e : Text)
    → ((t : Text) → lower (lower t) ≡ lower t)
    → email_of lower raw ≡ ok e
    → email_of lower e ≡ ok e
unfolding email_of
email_of_again lower raw e twice given = elim (Bool-cases (is_empty (lower (trim raw)))) [
  | inl empty ↦ cc (rw empty at given)
  | inr some_ ↦ elim (Bool-cases (ltb max_length (length (lower (trim raw))))) [
    | inl long ↦ cc (rw (some_, long) at given)
    | inr short ↦ elim (Bool-cases (is_email (lower (trim raw)))) [
      | inl good ↦
          let same : lower (trim raw) ≡ e = ok_inj (rw (some_, short, good) at given) in
          let again : lower (trim (lower (trim raw))) ≡ lower (trim raw) =
            ap lower (trim-is_email (lower (trim raw)) good) ∙ twice (trim raw) in
          subst (λ x. email_of lower x ≡ ok x) same (rw (again, some_, short, good) refl)
      | inr bad ↦ cc (rw (some_, short, bad) at given)
    ]
  ]
]
