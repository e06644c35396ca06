-- ===== src/Car/Values/Plates.antt =====
-- That a plate of src/modules/car/domain/value-objects/license-plate.ts is in a normal form, which is
-- read back.
use nest_kit.Base.{
  ℕ, ◌≡◌, refl, sym, subst, inl, inr, true, ◌&&◌, [], ◌∷◌, arith, leb, Bool-cases, length, all,
  and_left,
}
use nest_kit.Texts.{Text, is_space}
use nest_kit.Queries.{select, all_imp, select-all}
use nest_kit.Effects.{ok, ok_inj}
use nest_kit.Car.Values.{
  is_digit, is_upper, is_plate_char, is_plate, checked_plate, is_kept_char, license_plate_of,
}

is_plate_char_kept : (c : ℕ) → is_plate_char c ≡ true → is_kept_char c ≡ true
unfolding is_upper is_digit is_space
is_plate_char_kept c h = ground arith

checked_plate_ok : (t p : Text) → checked_plate t ≡ ok p → (p ≡ t) × (is_plate t ≡ true)
checked_plate_ok [] p e = cc
checked_plate_ok (c ∷ cs) p e = elim (Bool-cases (is_plate (c ∷ cs))) [
  | inl yes_ ↦ (sym (ok_inj (rw yes_ at e)), yes_)
  | inr no_ ↦ cc (rw no_ at e)
]

checked_plate_id : (p : Text) → is_plate p ≡ true → checked_plate p ≡ ok p
unfolding is_plate
checked_plate_id [] h = cc
checked_plate_id (c ∷ cs) h = rw h refl

all-is_plate : (t : Text) → is_plate t ≡ true → all is_plate_char t ≡ true
unfolding is_plate
all-is_plate t h =
    and_left (all is_plate_char t) _ (and_left (all is_plate_char t && leb 2 (length t)) _ h)

-- A plate is in normal form: written down and read again it stays as it is, when upper case leaves
-- letters of upper case and digits alone.
license_plate_of_again :
    (upper : Text → Text) (raw p : Text)
    → ((t : Text) → all is_plate_char t ≡ true → upper t ≡ t)
    → license_plate_of upper raw ≡ ok p
    → license_plate_of upper p ≡ ok p
unfolding license_plate_of
license_plate_of_again upper raw p keeps e =
    let (same, plate) = checked_plate_ok (select is_kept_char (upper raw)) p e in
    let good : is_plate p ≡ true = subst (λ x. is_plate x ≡ true) (sym same) plate in
    let chars = all-is_plate p good in
    rw
      (
        keeps p chars,
        select-all is_kept_char p (all_imp is_plate_char is_kept_char is_plate_char_kept p chars),
      )
      (checked_plate_id p good)
