-- ===== src/Owner/DateOfBirth.antt =====
-- src/modules/owner/domain/value-objects/date-of-birth.ts. A date is its time and its UTC fields;
-- reading one from a text is an argument, which gives none for an invalid date.
use nest_kit.Base.{
  ℕ, ◌+◌, ◌-◌, ◌≤◌, ◌<◌, ◌≡◌, subst, ◌⊎◌, inl, inr, Bool, true, false, ◌&&◌, ◌||◌, Option, none,
  some, arith, ltb, ◌==◌, if◌then◌else◌, Bool-cases,
}
use nest_kit.Errors.{validation}
use nest_kit.Effects.{Result, ok, err, ok_inj}

pub record Date : Type 0 where
  pub time : ℕ
  pub year : ℕ
  pub month : ℕ
  pub day : ℕ

-- The birthday of the year has not come yet.
abbrev is_before_birthday : Date → Date → Bool
is_before_birthday birth now =
    ltb now.month birth.month || (now.month == birth.month && ltb now.day birth.day)

-- `ageIn`. A date after `now` was refused before, so no difference of years is negative; the age of
-- -1 that a date of the same year could have is 0 here, which is refused all the same.
unfoldable pub age_in : Date → Date → ℕ
age_in birth now =
    let years = now.year - birth.year in if is_before_birthday birth now then years - 1 else years

abbrev minimum_age : ℕ
minimum_age = 18

abbrev maximum_age : ℕ
maximum_age = 120

abbrev of_date : Date → Date → Result Date
of_date date now =
    if ltb now.time date.time
    then err (validation "dateOfBirth")
    else if ltb (age_in date now) minimum_age
    then err (validation "dateOfBirth")
    else if ltb maximum_age (age_in date now)
    then err (validation "dateOfBirth")
    else ok date

-- `DateOfBirth.of`
unfoldable pub date_of_birth_of : Option Date → Date → Result Date
date_of_birth_of none now = err (validation "dateOfBirth")
date_of_birth_of (some date) now = of_date date now

-- Whether a day has come that is so many years after the birth
abbrev pub HasTurned : ℕ → Date → Date → Type 0
HasTurned years birth now =
    (birth.year + years < now.year)
    ⊎ ((birth.year + years ≡ now.year)
        × ((birth.month < now.month) ⊎ ((birth.month ≡ now.month) × (birth.day ≤ now.day))))

age-HasTurned : (birth now : Date) → 18 ≤ age_in birth now → HasTurned 18 birth now
unfolding age_in
age-HasTurned birth now h = ground arith

age-HasTurned_not :
    (birth now : Date) → age_in birth now ≤ 120 → HasTurned 121 birth now → true ≡ false
unfolding age_in
age-HasTurned_not birth now h (inl q) = ground arith
age-HasTurned_not birth now h (inr (q, inl r)) = ground arith
age-HasTurned_not birth now h (inr (q, inr r)) = ground arith

-- A date of birth is accepted only when the day has come that is eighteen years after it, and the
-- day that is 121 years after it has not.
pub date_of_birth_of-HasTurned :
    (date : Option Date) (now birth : Date)
    → date_of_birth_of date now ≡ ok birth
    → HasTurned 18 birth now × (¬ HasTurned 121 birth now)
unfolding date_of_birth_of
date_of_birth_of-HasTurned none now birth e = cc
date_of_birth_of-HasTurned (some date) now birth e = elim (Bool-cases (ltb now.time date.time)) [
  | inl future ↦ cc (rw future at e)
  | inr past ↦ elim (Bool-cases (ltb (age_in date now) minimum_age)) [
    | inl young ↦ cc (rw (past, young) at e)
    | inr adult ↦ elim (Bool-cases (ltb maximum_age (age_in date now))) [
      | inl old ↦ cc (rw (past, adult, old) at e)
      | inr fine ↦
          subst (λ x. HasTurned 18 x now × (¬ HasTurned 121 x now))
            (ok_inj (rw (past, adult, fine) at e))
            (
              age-HasTurned date now (ground arith),
              λ t. cc (age-HasTurned_not date now (ground arith) t),
            )
    ]
  ]
]
