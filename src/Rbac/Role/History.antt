-- ===== src/Rbac/Role/History.antt =====
-- Histories of calls on one role (src/modules/rbac/domain/role.ts).
use nest_kit.Base.{
  ℕ, String, ◌≡◌, refl, sym, ap, ◌∙◌, inl, inr, Bool, true, false, not, ◌&&◌, ◌||◌, Option, List,
  [], ◌∷◌, ◌++◌, append_assoc, append-nil, arith, Bool-cases, any,
}
use nest_kit.Texts.{Text, same, same_iff}
use nest_kit.Effects.{state_of}
use nest_kit.Rbac.Names.{PermissionName, value}
use nest_kit.Rbac.Role.{
  Permission, PermissionGrant, Role, create_role, holds, grant, splice_grant, is_grant_of, revoke,
  describe_role,
}

pub data Call : Type 0 where
  grants : (permission : Permission) (granted_by : Option String) (now : ℕ) → Call
  revokes : (name : PermissionName) (now : ℕ) → Call
  describes : (description : Text) (now : ℕ) → Call

-- The role after a call, whether it threw or not.
unfoldable pub step : Role → Call → Role
step r (grants permission granted_by now) = grant permission granted_by now r
step r (revokes name now) = state_of (revoke name now r)
step r (describes description now) = describe_role description now r

unfoldable pub run : Role → List Call → Role
run r [] = r
run r (c ∷ cs) = run (step r c) cs

step-is_protected : (r : Role) (c : Call) → (step r c).is_protected ≡ r.is_protected
unfolding step grant revoke describe_role
step-is_protected r (grants permission granted_by now) = ground arith
step-is_protected r (revokes name now) = ground arith
step-is_protected r (describes description now) = ground arith

-- `r` is protected and has the grants of `old` first, untouched.
abbrev Extends : List PermissionGrant → List PermissionGrant → Type 0
Extends old new = (more : List PermissionGrant) × (new ≡ old ++ more)

Extends-trans : (a b c : List PermissionGrant) → Extends a b → Extends b c → Extends a c
Extends-trans a b c (x, p) (y, q) = (x ++ y, q ∙ ap (λ l. l ++ y) p ∙ append_assoc a x y)

step-Extends : (r : Role) (c : Call) → r.is_protected ≡ true → Extends r.grants (step r c).grants
unfolding step grant revoke describe_role
step-Extends r (grants permission granted_by now) h = elim (Bool-cases (holds permission.name r)) [
  | inl held ↦ rw held ([], sym (append-nil r.grants))
  | inr free ↦ rw free (_, refl)
]
step-Extends r (revokes name now) h = ([], rw h (sym (append-nil r.grants)))
step-Extends r (describes description now) h = ([], ground (arith, append-nil r.grants))

-- Whatever is called on a protected role, it keeps every grant it has, with the record of who granted
-- it and when: its grants are the old ones, in order, and then others.
pub run_protected :
    (r : Role) (cs : List Call)
    → r.is_protected ≡ true
    → (more : List PermissionGrant) × ((run r cs).grants ≡ r.grants ++ more)
unfolding run
run_protected r [] h = ([], sym (append-nil r.grants))
run_protected r (c ∷ cs) h =
    Extends-trans r.grants (step r c).grants (run (step r c) cs).grants (step-Extends r c h)
      (run_protected (step r c) cs (step-is_protected r c ∙ h))

-- No two grants of the same name.
abbrev pub HasDistinctNames : List PermissionGrant → Type 0
HasDistinctNames [] = Unit
HasDistinctNames (g ∷ gs) = (any (is_grant_of g.permission.name) gs ≡ false) × HasDistinctNames gs

abbrev pub named : PermissionName → List PermissionGrant → Bool
named name gs = any (is_grant_of name) gs

named-append :
    (name : PermissionName) (gs hs : List PermissionGrant)
    → named name (gs ++ hs) ≡ (named name gs || named name hs)
named-append name [] hs = refl
named-append name (g ∷ gs) hs = ground (arith, named-append name gs hs)

-- Two names of one text are held together.
named_same :
    (a b : PermissionName) (gs : List PermissionGrant) → value a ≡ value b → named a gs ≡ named b gs
named_same a b [] e = refl
named_same a b (g ∷ gs) e = rw (e, named_same a b gs e) refl

named-splice_grant :
    (name other : PermissionName) (gs : List PermissionGrant)
    → HasDistinctNames gs
    → named other (splice_grant name gs) ≡ (named other gs && not (same (value name) (value other)))
unfolding splice_grant
named-splice_grant name other [] d = refl
named-splice_grant name other (g ∷ gs) (f, d) = ground (
  arith,
  named-splice_grant name other gs d,
  named_same g.permission.name other gs,
  same_iff (value g.permission.name) (value name),
  same_iff (value g.permission.name) (value other),
  same_iff (value name) (value other),
)

HasDistinctNames-append :
    (gs : List PermissionGrant) (g : PermissionGrant)
    → HasDistinctNames gs
    → named g.permission.name gs ≡ false
    → HasDistinctNames (gs ++ g ∷ [])
HasDistinctNames-append [] g d f = (refl, tt)
HasDistinctNames-append (h ∷ gs) g (e, d) f = (
  ground (
    arith,
    named-append h.permission.name gs (g ∷ []),
    same_iff (value g.permission.name) (value h.permission.name),
    same_iff (value h.permission.name) (value g.permission.name),
  ),
  HasDistinctNames-append gs g d (ground arith),
)

HasDistinctNames-splice_grant :
    (name : PermissionName) (gs : List PermissionGrant)
    → HasDistinctNames gs
    → HasDistinctNames (splice_grant name gs)
unfolding splice_grant
HasDistinctNames-splice_grant name [] d = tt
HasDistinctNames-splice_grant name (g ∷ gs) (f, d) = elim (Bool-cases (is_grant_of name g)) [
  | inl hit ↦ rw hit d
  | inr miss ↦ rw miss (
    rw (named-splice_grant name g.permission.name gs d, f) refl,
    HasDistinctNames-splice_grant name gs d,
  )
]

step-HasDistinctNames :
    (r : Role) (c : Call) → HasDistinctNames r.grants → HasDistinctNames (step r c).grants
unfolding step grant revoke describe_role holds
step-HasDistinctNames r (grants permission granted_by now) d =
    elim (Bool-cases (named permission.name r.grants)) [
      | inl held ↦ rw held d
      | inr free ↦ rw free (
          HasDistinctNames-append r.grants
            (record { permission = permission; granted_by = granted_by; granted_at = now }) d free)
    ]
step-HasDistinctNames r (revokes name now) d =
    ground (arith, HasDistinctNames-splice_grant name r.grants d)
step-HasDistinctNames r (describes description now) d = ground arith

run-HasDistinctNames :
    (r : Role) (cs : List Call) → HasDistinctNames r.grants → HasDistinctNames (run r cs).grants
unfolding run
run-HasDistinctNames r [] d = d
run-HasDistinctNames r (c ∷ cs) d = run-HasDistinctNames (step r c) cs (step-HasDistinctNames r c d)

-- A role as a set of texts: whether a text is in it after a call.
abbrev in_after : Bool → Text → Bool → Call → Bool
in_after protected name before (grants permission granted_by now) =
    before || same (value permission.name) name
in_after protected name before (revokes revoked now) =
    before && (protected || not (same (value revoked) name))
in_after protected name before (describes description now) = before

abbrev pub in_set : Bool → Text → Bool → List Call → Bool
in_set protected name before [] = before
in_set protected name before (c ∷ cs) = in_set protected name (in_after protected name before c) cs

-- A grant adds its name and no other.
pub holds-grant :
    (name : PermissionName) (permission : Permission) (granted_by : Option String) (now : ℕ)
    (r : Role)
    → holds name (grant permission granted_by now r)
      ≡ (holds name r || same (value permission.name) (value name))
unfolding grant holds
holds-grant name permission granted_by now r = ground (
  arith,
  named-append name r.grants
      (record { permission = permission; granted_by = granted_by; granted_at = now } ∷ []),
  named_same permission.name name r.grants,
  same_iff (value permission.name) (value name),
)

step-holds :
    (name : PermissionName) (r : Role) (c : Call)
    → HasDistinctNames r.grants
    → holds name (step r c) ≡ in_after r.is_protected (value name) (holds name r) c
unfolding step grant revoke describe_role holds
step-holds name r (grants permission granted_by now) d =
    holds-grant name permission granted_by now r
step-holds name r (revokes revoked now) d = ground (
  arith,
  named-splice_grant revoked name r.grants d,
  named_same revoked name r.grants,
  same_iff (value revoked) (value name),
)
step-holds name r (describes description now) d = ground arith

run-holds_from :
    (name : PermissionName) (r : Role) (cs : List Call)
    → HasDistinctNames r.grants
    → holds name (run r cs) ≡ in_set r.is_protected (value name) (holds name r) cs
unfolding run
run-holds_from name r [] d = refl
run-holds_from name r (c ∷ cs) d =
    run-holds_from name (step r c) cs (step-HasDistinctNames r c d)
    ∙ simp (step-is_protected r c, step-holds name r c d)

-- A created role behaves as a set of permission names, which ignores revocations when the role is
-- protected.
pub run-holds :
    (uuid : String) (is_protected : Bool) (role_name description : Text) (now : ℕ)
    (name : PermissionName) (cs : List Call)
    → holds name (run (create_role uuid is_protected role_name description now) cs)
      ≡ in_set is_protected (value name) false cs
unfolding create_role
run-holds uuid is_protected role_name description now name cs =
    run-holds_from name (create_role uuid is_protected role_name description now) cs tt
    ∙ unfold holds in refl

-- No history of a created role gives it two grants of one permission.
pub run-HasDistinctNames_created :
    (uuid : String) (is_protected : Bool) (role_name description : Text) (now : ℕ) (cs : List Call)
    → HasDistinctNames (run (create_role uuid is_protected role_name description now) cs).grants
unfolding create_role
run-HasDistinctNames_created uuid is_protected role_name description now cs =
    run-HasDistinctNames (create_role uuid is_protected role_name description now) cs tt
