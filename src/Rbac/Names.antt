-- ===== src/Rbac/Names.antt =====
-- src/modules/rbac/domain/value-objects: names of permissions and of roles.
use nest_kit.Base.{
  ℕ, ◌≡◌, refl, sym, ap, ◌∙◌, subst, inl, inr, Bool, true, false, ◌&&◌, List, [], ◌∷◌, ◌++◌, arith,
  leb, ◌==◌, if◌then◌else◌, Bool-cases, length, all, All, All-append, and_left, and_right,
}
use nest_kit.Effects.{Result, ok, err}
use nest_kit.Texts.{
  Text, same, trim, trim_id, split, join, join-split, split_pair, is_space, is_lower, is_name_char,
  IsFreeOf,
}
use nest_kit.Rbac.{invalid_permission_name, invalid_role_name}

pub record PermissionName : Type 0 where
  pub resource : Text
  pub action : Text

-- `:`
abbrev pub colon : ℕ
colon = 58

-- `SEGMENT`
unfoldable pub is_segment : Text → Bool
is_segment [] = false
is_segment (c ∷ cs) = is_lower c && all is_name_char cs

abbrev of_parts : List Text → Result PermissionName
of_parts (resource ∷ action ∷ []) =
    if is_segment resource && is_segment action
    then ok (record { resource = resource; action = action })
    else err invalid_permission_name
of_parts parts = err invalid_permission_name

-- `PermissionName.of`
unfoldable pub permission_name_of : Text → Result PermissionName
permission_name_of raw = of_parts (split colon (trim raw))

-- The getter `value`
unfoldable pub value : PermissionName → Text
value n = n.resource ++ colon ∷ n.action

-- `equals`
abbrev pub equals : PermissionName → PermissionName → Bool
equals a b = same (value a) (value b)

-- What `of` makes sure of
abbrev pub IsValid : PermissionName → Type 0
IsValid n = (is_segment n.resource ≡ true) × (is_segment n.action ≡ true)

-- A role's name is its text. `PATTERN` bounds its length too.
unfoldable pub is_role_name : Text → Bool
is_role_name [] = false
is_role_name (c ∷ cs) = is_lower c && all is_name_char cs && leb 1 (length cs) && leb (length cs) 63

-- `RoleName.of`
unfoldable pub role_name_of : Text → Result Text
role_name_of raw =
    let name = trim raw in if is_role_name name then ok name else err invalid_role_name

is_lower-is_name_char : (c : ℕ) → is_lower c ≡ true → is_name_char c ≡ true
unfolding is_name_char
is_lower-is_name_char c h = rw h

-- A character of a name is neither white space nor a colon.
is_name_char_apart : (c : ℕ) → is_name_char c ≡ true → (is_space c ≡ false) × ((c == colon) ≡ false)
unfolding is_name_char is_lower is_space
is_name_char_apart c h = ground arith

all_apart :
    (cs : Text) → all is_name_char cs ≡ true → All (λ c. is_space c ≡ false) cs × IsFreeOf colon cs
all_apart [] h = (tt, tt)
all_apart (c ∷ cs) h = elim (Bool-cases (is_name_char c)) [
  | inl p ↦
      let apart = is_name_char_apart c p in
      let rest = all_apart cs (rw p at h) in ((apart.0, rest.0), (apart.1, rest.1))
  | inr p ↦ cc (rw p at h)
]

segment_apart :
    (cs : Text) → is_segment cs ≡ true → All (λ c. is_space c ≡ false) cs × IsFreeOf colon cs
unfolding is_segment
segment_apart [] h = cc
segment_apart (c ∷ cs) h = elim (Bool-cases (is_lower c)) [
  | inl p ↦ all_apart (c ∷ cs) (rw (is_lower-is_name_char c p) (rw p at h))
  | inr p ↦ cc (rw p at h)
]

colon_apart : is_space colon ≡ false
unfolding is_space
colon_apart = refl

-- A valid name is read back from its text.
pub permission_name_of-value :
    (n : PermissionName) → IsValid n → permission_name_of (value n) ≡ ok n
unfolding permission_name_of value
permission_name_of-value n (r, a) =
    let left = segment_apart n.resource r in
    let right = segment_apart n.action a in
    let plain =
      All-append (λ c. is_space c ≡ false) n.resource (colon ∷ n.action) left.0
        (colon_apart, right.0) in
    rw (
      trim_id (n.resource ++ colon ∷ n.action) plain,
      split_pair colon n.resource n.action left.1 right.1,
      r,
      a,
    )

of_parts_ok :
    (parts : List Text) (n : PermissionName)
    → of_parts parts ≡ ok n
    → IsValid n × (parts ≡ n.resource ∷ n.action ∷ [])
of_parts_ok [] n e = cc
of_parts_ok (r ∷ []) n e = cc
of_parts_ok (r ∷ a ∷ b ∷ bs) n e = cc
of_parts_ok (r ∷ a ∷ []) n e = elim (Bool-cases (is_segment r && is_segment a)) [
  | inl p ↦
      let same_name : record { resource = r; action = a } ≡ n = cc (rw p at e) in
      subst (λ m. IsValid m × (r ∷ a ∷ [] ≡ m.resource ∷ m.action ∷ [])) same_name
        ((and_left _ _ p, and_right _ _ p), refl)
  | inr p ↦ cc (rw p at e)
]

join-value : (n : PermissionName) → join colon (n.resource ∷ n.action ∷ []) ≡ value n
unfolding join value
join-value n = refl

-- A name that is accepted is valid, and its text is the one that was given, trimmed.
pub value-permission_name_of :
    (raw : Text) (n : PermissionName)
    → permission_name_of raw ≡ ok n
    → IsValid n × (value n ≡ trim raw)
unfolding permission_name_of
value-permission_name_of raw n e =
    let (valid, parts) = of_parts_ok (split colon (trim raw)) n e in
    (valid, sym (join-value n) ∙ ap (join colon) (sym parts) ∙ join-split colon (trim raw))
