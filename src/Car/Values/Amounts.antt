-- ===== src/Car/Values/Amounts.antt =====
-- That money of src/modules/car/domain/value-objects/money.ts is in a normal form, which is read back.
use nest_kit.Base.{
  ℕ, ◌≡◌, refl, sym, ap, subst, inl, inr, true, false, ◌&&◌, List, [], ◌∷◌, ◌++◌, arith, leb, ◌==◌,
  leb→le, Bool-cases, length, all, All, All-append, and_left, and_right,
}
use nest_kit.Texts.{Text, trim, trim_id, split, split_pair, is_space, IsFreeOf}
use nest_kit.Queries.{All_imp, All_all}
use nest_kit.Effects.{ok, ok_inj}
use nest_kit.Car.Values.{
  is_digit, is_upper, Money, is_currency, is_number, are_amount_parts, is_unsigned_amount, pad_end,
  two_places, to_two_places, checked_amount, money_of,
}

-- A digit is no white space, no dot and no minus.
is_digit_apart :
    (c : ℕ) → is_digit c ≡ true → (is_space c ≡ false) × ((c == 46) ≡ false) × ((c == 45) ≡ false)
unfolding is_digit is_space
is_digit_apart c h = ground arith

is_upper_apart : (c : ℕ) → is_upper c ≡ true → is_space c ≡ false
unfolding is_upper is_space
is_upper_apart c h = ground arith

-- An amount of two places: a whole number and two digits
abbrev IsTwoPlaces : Text → Type 0
IsTwoPlaces t =
    (whole : Text) × (fraction : Text) × (is_number 10 whole ≡ true)
    × (all is_digit fraction ≡ true)
    × (length fraction ≡ 2)
    × (t ≡ whole ++ 46 ∷ fraction)

two_places-IsTwoPlaces :
    (parts : List Text) → are_amount_parts parts ≡ true → IsTwoPlaces (two_places parts)
unfolding is_digit
two_places-IsTwoPlaces [] h = cc
two_places-IsTwoPlaces (whole ∷ []) h = (whole, 48 ∷ 48 ∷ [], h, refl, refl, refl)
two_places-IsTwoPlaces (whole ∷ [] ∷ []) h = cc (and_right (is_number 10 whole) _ h)
two_places-IsTwoPlaces (whole ∷ (c ∷ []) ∷ []) h =
    (whole, c ∷ 48 ∷ [], and_left (is_number 10 whole) _ h, ground arith, refl, refl)
two_places-IsTwoPlaces (whole ∷ (c ∷ d ∷ []) ∷ []) h =
    (whole, c ∷ d ∷ [], and_left (is_number 10 whole) _ h, ground arith, refl, refl)
two_places-IsTwoPlaces (whole ∷ (c ∷ d ∷ e ∷ es) ∷ []) h =
    let few : leb (length (c ∷ d ∷ e ∷ es)) 2 ≡ true =
      and_right (all is_digit (c ∷ d ∷ e ∷ es) && leb 1 (length (c ∷ d ∷ e ∷ es))) _
        (and_right (is_number 10 whole) _ h) in
    absurd (omega (arith, leb→le (length (c ∷ d ∷ e ∷ es)) 2 few))
two_places-IsTwoPlaces (whole ∷ fraction ∷ rest ∷ more) h = cc

is_digit-IsFreeOf : (t : Text) → all is_digit t ≡ true → IsFreeOf 46 t
is_digit-IsFreeOf t h = All_imp (λ c d. (is_digit_apart c d).1) t (All_all is_digit t h)

split-IsTwoPlaces :
    (whole fraction : Text)
    → is_number 10 whole ≡ true
    → all is_digit fraction ≡ true
    → split 46 (whole ++ 46 ∷ fraction) ≡ whole ∷ fraction ∷ []
split-IsTwoPlaces whole fraction w f =
    split_pair 46 whole fraction
      (is_digit-IsFreeOf whole (
        and_left (all is_digit whole) _
          (and_left (all is_digit whole && leb 1 (length whole)) _ w)))
      (is_digit-IsFreeOf fraction f)

pad_end_id : (t : Text) → length t ≡ 2 → pad_end t ≡ t
pad_end_id [] e = absurd (omega (arith, e))
pad_end_id (c ∷ []) e = absurd (omega (arith, e))
pad_end_id (c ∷ d ∷ ds) e = refl

amount_of :
    (v fraction : Text)
    → is_number 10 v ≡ true
    → is_number 2 fraction ≡ true
    → split 46 (v ++ 46 ∷ fraction) ≡ v ∷ fraction ∷ []
    → is_unsigned_amount (v ++ 46 ∷ fraction) ≡ true
unfolding is_unsigned_amount
amount_of v fraction n two q = rw q (rw (n, two) refl)

places_of :
    (v fraction : Text)
    → length fraction ≡ 2
    → split 46 (v ++ 46 ∷ fraction) ≡ v ∷ fraction ∷ []
    → to_two_places (v ++ 46 ∷ fraction) ≡ v ++ 46 ∷ fraction
unfolding to_two_places
places_of v fraction two q = rw q (ap (λ x. v ++ 46 ∷ x) (pad_end_id fraction two))

-- An amount of two places is accepted as it is.
checked_amount_id :
    (currency t : Text)
    → IsTwoPlaces t
    → checked_amount currency t ≡ ok (record { amount = t; currency = currency })
checked_amount_id currency t (whole, fraction, w, f, two, e) =
    subst (λ x. checked_amount currency x ≡ ok (record { amount = x; currency = currency })) (sym e)
      (accepted whole w)
  where
    two_ok : is_number 2 fraction ≡ true
    two_ok = rw (f, two) refl

    accepted :
        (v : Text)
        → is_number 10 v ≡ true
        → checked_amount currency (v ++ 46 ∷ fraction)
          ≡ ok (record { amount = v ++ 46 ∷ fraction; currency = currency })
    accepted [] h = cc
    accepted (c ∷ cs) h =
        let digit : is_digit c ≡ true = and_left (is_digit c) _ (
          and_left (all is_digit (c ∷ cs)) _
            (and_left (all is_digit (c ∷ cs) && leb 1 (length (c ∷ cs))) _ h)) in
        let plain : (c == 45) ≡ false = (is_digit_apart c digit).2 in
        let parts = split-IsTwoPlaces (c ∷ cs) fraction h f in
        let unsigned : is_unsigned_amount (c ∷ cs ++ 46 ∷ fraction) ≡ true =
          amount_of (c ∷ cs) fraction h two_ok parts in
        let written : to_two_places (c ∷ cs ++ 46 ∷ fraction) ≡ c ∷ cs ++ 46 ∷ fraction =
          places_of (c ∷ cs) fraction two parts in
        rw (plain, unsigned, written) refl

-- What is accepted has two places.
checked_amount_ok :
    (currency t : Text) (m : Money)
    → checked_amount currency t ≡ ok m
    → IsTwoPlaces m.amount × (m.currency ≡ currency)
unfolding to_two_places is_unsigned_amount
checked_amount_ok currency [] m e = cc
checked_amount_ok currency (c ∷ cs) m e = elim (Bool-cases (c == 45)) [
  | inl minus ↦ elim (Bool-cases (is_unsigned_amount cs)) [
    | inl yes_ ↦ cc (rw (minus, yes_) at e)
    | inr no_ ↦ cc (rw (minus, no_) at e)
  ]
  | inr plain ↦ elim (Bool-cases (is_unsigned_amount (c ∷ cs))) [
    | inl yes_ ↦
        let built = ok_inj (rw (plain, yes_) at e) in
        (
          subst IsTwoPlaces (ap (λ x. x.amount) built)
              (two_places-IsTwoPlaces (split 46 (c ∷ cs)) yes_),
          sym (ap (λ x. x.currency) built),
        )
    | inr no_ ↦ cc (rw (plain, no_) at e)
  ]
]

dot_apart : is_space 46 ≡ false
unfolding is_space
dot_apart = refl

trim-IsTwoPlaces : (t : Text) → IsTwoPlaces t → trim t ≡ t
trim-IsTwoPlaces t (whole, fraction, w, f, two, e) = trim_id t (
    subst (λ x. All (λ c. is_space c ≡ false) x) (sym e)
      (All-append (λ c. is_space c ≡ false) whole (46 ∷ fraction)
        (spaceless whole (
          and_left (all is_digit whole) _
            (and_left (all is_digit whole && leb 1 (length whole)) _ w)))
        (dot_apart, spaceless fraction f)))
  where
    spaceless : (v : Text) → all is_digit v ≡ true → All (λ c. is_space c ≡ false) v
    spaceless v h = All_imp (λ c d. (is_digit_apart c d).0) v (All_all is_digit v h)

-- Money is in normal form: amount and currency, written down and read again, stay as they are, when
-- upper case leaves letters of upper case alone.
pub money_of_again :
    (upper : Text → Text) (amount currency : Text) (m : Money)
    → ((t : Text) → all is_upper t ≡ true → upper t ≡ t)
    → money_of upper amount currency ≡ ok m
    → money_of upper m.amount m.currency ≡ ok m
unfolding money_of is_currency
money_of_again upper amount currency m keeps e =
    elim (Bool-cases (is_currency (upper (trim currency)))) [
      | inl yes_ ↦
          let (places, same) =
            checked_amount_ok (upper (trim currency)) (trim amount) m (rw yes_ at e) in
          let good : is_currency m.currency ≡ true =
            subst (λ x. is_currency x ≡ true) (sym same) yes_ in
          let letters : all is_upper m.currency ≡ true =
            and_left (all is_upper m.currency) _ good in
          let tidy : trim m.currency ≡ m.currency =
            trim_id m.currency
              (All_imp is_upper_apart m.currency (All_all is_upper m.currency letters)) in
          rw (tidy, keeps m.currency letters, good, trim-IsTwoPlaces m.amount places)
            (checked_amount_id m.currency m.amount places)
      | inr no_ ↦ cc (rw no_ at e)
    ]
