-- ===== src/Car/Values.antt =====
-- src/modules/car/domain/value-objects: license-plate.ts and money.ts. `toUpperCase` is an argument.
pub mod Plates
pub mod Amounts
use nest_kit.Base.{
  ℕ, Bool, false, not, ◌&&◌, ◌||◌, List, [], ◌∷◌, ◌++◌, leb, ◌==◌, if◌then◌else◌, length, all,
}
use nest_kit.Texts.{Text, trim, split, is_space}
use nest_kit.Queries.{select}
use nest_kit.Errors.{validation}
use nest_kit.Effects.{Result, ok, err}

-- `[0-9]`
unfoldable pub is_digit : ℕ → Bool
is_digit c = leb 48 c && leb c 57

-- `[A-Z]`
unfoldable pub is_upper : ℕ → Bool
is_upper c = leb 65 c && leb c 90

abbrev pub is_plate_char : ℕ → Bool
is_plate_char c = is_upper c || is_digit c

-- `PATTERN` of a plate
unfoldable pub is_plate : Text → Bool
is_plate t = all is_plate_char t && leb 2 (length t) && leb (length t) 10

abbrev pub checked_plate : Text → Result Text
checked_plate [] = err (validation "licensePlate")
checked_plate (c ∷ cs) = if is_plate (c ∷ cs) then ok (c ∷ cs) else err (validation "licensePlate")

-- `replace(/[\s-]/g, '')`
abbrev pub is_kept_char : ℕ → Bool
is_kept_char c = not (is_space c || c == 45)

-- `LicensePlate.of`
unfoldable pub license_plate_of : (Text → Text) → Text → Result Text
license_plate_of upper raw = checked_plate (select is_kept_char (upper raw))

pub record Money : Type 0 where
  pub amount : Text
  pub currency : Text

-- `CURRENCY`
unfoldable pub is_currency : Text → Bool
is_currency t = all is_upper t && length t == 3

-- `\d{1,n}`
abbrev pub is_number : ℕ → Text → Bool
is_number n t = all is_digit t && leb 1 (length t) && leb (length t) n

abbrev pub are_amount_parts : List Text → Bool
are_amount_parts (whole ∷ []) = is_number 10 whole
are_amount_parts (whole ∷ fraction ∷ []) = is_number 10 whole && is_number 2 fraction
are_amount_parts parts = false

-- `AMOUNT` without its sign
unfoldable pub is_unsigned_amount : Text → Bool
is_unsigned_amount t = are_amount_parts (split 46 t)

-- `-?` of `AMOUNT`
abbrev pub is_amount : Text → Bool
is_amount [] = false
is_amount (c ∷ cs) = if c == 45 then is_unsigned_amount cs else is_unsigned_amount (c ∷ cs)

-- `startsWith('-')`
abbrev pub is_negative : Text → Bool
is_negative [] = false
is_negative (c ∷ cs) = c == 45

-- `padEnd(2, '0')`
abbrev pub pad_end : Text → Text
pad_end [] = 48 ∷ 48 ∷ []
pad_end (c ∷ []) = c ∷ 48 ∷ []
pad_end (c ∷ d ∷ ds) = c ∷ d ∷ ds

abbrev pub two_places : List Text → Text
two_places [] = []
two_places (whole ∷ []) = whole ++ 46 ∷ pad_end []
two_places (whole ∷ fraction ∷ rest) = whole ++ 46 ∷ pad_end fraction

-- `toTwoPlaces`
unfoldable pub to_two_places : Text → Text
to_two_places t = two_places (split 46 t)

abbrev pub checked_amount : Text → Text → Result Money
checked_amount currency t =
    if not (is_amount t)
    then err (validation "amount")
    else if is_negative t
    then err (validation "amount")
    else ok (record { amount = to_two_places t; currency = currency })

-- `Money.of`
unfoldable pub money_of : (Text → Text) → Text → Text → Result Money
money_of upper amount currency =
    let c = upper (trim currency) in
    if is_currency c then checked_amount c (trim amount) else err (validation "currency")
