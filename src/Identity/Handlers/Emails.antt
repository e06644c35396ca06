-- ===== src/Identity/Handlers/Emails.antt =====
-- No two live users share an email: the lemmas on the table of users
-- (src/modules/identity/infrastructure/persistence/typeorm-user.repository.ts).
use nest_kit.Base.{
  String, ◌≡◌, refl, sym, ap, ◌∙◌, ◌≢◌, inl, inr, Bool, true, false, not, ◌&&◌, none, some, List,
  [], ◌∷◌, arith, eq_iff, eq_refl, ◌=ₛ◌, Bool-cases, All,
}
use nest_kit.Table.{find, upsert, HasDistinctKeys, IsFresh, All-upsert, All-find}
use nest_kit.Identity.User.{User, is_set}
use nest_kit.Database.{user_key, live_by_email}

-- Two live users with one email.
abbrev pub clash : User → User → Bool
clash a b = not (is_set a.deleted_at) && (not (is_set b.deleted_at) && a.email =ₛ b.email)

abbrev pub HasUniqueEmails : List User → Type 0
HasUniqueEmails [] = Unit
HasUniqueEmails (u ∷ users) = All (λ v. clash u v ≡ false) users × HasUniqueEmails users

-- A row that may be written: it clashes with no row of another user.
abbrev pub IsAdmissible : User → List User → Type 0
IsAdmissible a users = All (λ v. v.uuid ≢ a.uuid → clash a v ≡ false) users

clash-sym : (a b : User) → clash a b ≡ false → clash b a ≡ false
clash-sym a b h = ground (arith, eq_iff a.email b.email, eq_iff b.email a.email)

admitted_rest :
    (a : User) (k : String) (rows : List User)
    → k ≡ a.uuid
    → IsFresh user_key k rows
    → IsAdmissible a rows
    → All (λ v. clash a v ≡ false) rows
admitted_rest a k [] e f h = tt
admitted_rest a k (v ∷ rows) e (ne, f) (p, h) =
    (p (λ q. ne (q ∙ sym e)), admitted_rest a k rows e f h)

pub HasUniqueEmails-upsert :
    (a : User) (users : List User)
    → HasDistinctKeys user_key users
    → IsAdmissible a users
    → HasUniqueEmails users
    → HasUniqueEmails (upsert user_key a users)
unfolding upsert
HasUniqueEmails-upsert a [] d h u = (tt, tt)
HasUniqueEmails-upsert a (b ∷ rows) (f, d) (p, h) (c, u) = elim (Bool-cases (b.uuid =ₛ a.uuid)) [
  | inl same ↦ rw same (admitted_rest a b.uuid rows ((eq_iff b.uuid a.uuid).0 same) f h, u)
  | inr other ↦ rw other (
    All-upsert user_key (λ v. clash b v ≡ false) a rows
        (clash-sym a b (p (λ q. cc (other, (eq_iff b.uuid a.uuid).1 q)))) c,
    HasUniqueEmails-upsert a rows d h u,
  )
]

-- An email that no live user has may be written.
pub none-IsAdmissible :
    (a : User) (users : List User) → live_by_email a.email users ≡ none → IsAdmissible a users
unfolding live_by_email
none-IsAdmissible a [] e = tt
none-IsAdmissible a (v ∷ users) e =
    ground (arith, none-IsAdmissible a users, eq_iff a.email v.email, eq_iff v.email a.email)

-- So may a deleted user,
pub deleted-IsAdmissible :
    (a : User) (users : List User) → is_set a.deleted_at ≡ true → IsAdmissible a users
deleted-IsAdmissible a [] e = tt
deleted-IsAdmissible a (v ∷ users) e = ((λ ne. ground arith), deleted-IsAdmissible a users e)

abbrev holds : User → User → Bool
holds a b = b.email =ₛ a.email && not (is_set b.deleted_at)

-- Who clashes with no live holder of an email may have it.
shared-IsAdmissible :
    (a b : User) (rows : List User)
    → holds a b ≡ true
    → All (λ v. clash b v ≡ false) rows
    → IsAdmissible a rows
shared-IsAdmissible a b [] hit h = tt
shared-IsAdmissible a b (v ∷ rows) hit (p, h) = (
  (λ ne. ground (arith, eq_iff b.email a.email, eq_iff b.email v.email, eq_iff a.email v.email)),
  shared-IsAdmissible a b rows hit h,
)

-- the email of the live user that is found by it,
pub some-IsAdmissible :
    (a x : User) (users : List User)
    → HasUniqueEmails users
    → live_by_email a.email users ≡ some x
    → x.uuid ≡ a.uuid
    → IsAdmissible a users
unfolding live_by_email
some-IsAdmissible a x [] u e same = tt
some-IsAdmissible a x (b ∷ users) (c, u) e same = elim (Bool-cases (holds a b)) [
  | inl hit ↦
      let first : b ≡ x = ground arith in
      ((λ ne. absurd (ne (ap (λ y. y.uuid) first ∙ same))), shared-IsAdmissible a b users hit c)
  | inr miss ↦ (
    (λ ne. ground (arith, eq_iff a.email b.email, eq_iff b.email a.email)),
    some-IsAdmissible a x users u (rw miss at e) same,
  )
]

-- and the email that the user has.
pub own-IsAdmissible :
    (a r : User) (users : List User)
    → HasUniqueEmails users
    → find user_key a.uuid users ≡ some r
    → r.email ≡ a.email
    → is_set r.deleted_at ≡ false
    → IsAdmissible a users
unfolding find
own-IsAdmissible a r [] u e same alive = tt
own-IsAdmissible a r (b ∷ users) (c, u) e same alive = elim (Bool-cases (b.uuid =ₛ a.uuid)) [
  | inl hit ↦
      let first : b ≡ r = ground arith in
      let mine : holds a b ≡ true = rw (first, same, eq_refl a.email, alive) refl in
      ((λ ne. absurd (ne ((eq_iff b.uuid a.uuid).0 hit))), shared-IsAdmissible a b users mine c)
  | inr miss ↦
      let later : find user_key a.uuid users ≡ some r = rw miss at e in
      let apart : clash b r ≡ false =
        All-find user_key (λ v. clash b v ≡ false) a.uuid users r later c in
      (
        (λ ne. ground (arith, eq_iff a.email b.email, eq_iff b.email r.email)),
        own-IsAdmissible a r users u later same alive,
      )
]
