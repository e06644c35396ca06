-- ===== src/Effects.antt =====
-- Code that changes an object and may throw. What was written before a throw stays written, so
-- the state comes back beside the error too.
use nest_kit.Base.{◌≡◌, refl, Bool, true, false, Option, none, some, List, [], ◌∷◌}
use nest_kit.Errors.{AppError}

-- A computation with no state of its own that may throw.
pub data Result {ℓ} (A : Type ℓ) : Type ℓ where
  ok : A → Result A
  err : AppError → Result A

pub data Outcome {ℓ κ} (S : Type ℓ) (A : Type κ) : Type (ℓ ⊔ κ) where
  returned : A → S → Outcome S A
  threw : AppError → S → Outcome S A

abbrev pub Exec {ℓ κ} : Type ℓ → Type κ → Type (ℓ ⊔ κ)
Exec S A = S → Outcome S A

module _ {ℓ κ} {S : Type ℓ} {A : Type κ} where
  abbrev pub pure : A → Exec S A
  pure a s = returned a s

  abbrev pub throw : AppError → Exec S A
  throw e s = threw e s

  abbrev pub state_of : Outcome S A → S
  state_of (returned a s) = s
  state_of (threw e s) = s

  abbrev pub result_of : Outcome S A → Result A
  result_of (returned a s) = ok a
  result_of (threw e s) = err e

  -- The object after a method of it that returned.
  abbrev pub object_of : Outcome S A → Result S
  object_of (returned a s) = ok s
  object_of (threw e s) = err e

  abbrev pub lift : Result A → Exec S A
  lift (ok a) s = returned a s
  lift (err e) s = threw e s

  abbrev pub gets : (S → A) → Exec S A
  gets f s = returned (f s) s

  -- A missing value becomes the given error.
  abbrev pub or_throw : AppError → Option A → Exec S A
  or_throw e none s = threw e s
  or_throw e (some a) s = returned a s

module _ {ℓ κ μ} {S : Type ℓ} {A : Type κ} {B : Type μ} where
  infixl 5 ◌>>=◌
  abbrev pub ◌>>=◌ : Exec S A → (A → Exec S B) → Exec S B
  ◌>>=◌ m f s = elim (m s) [ returned a t ↦ f a t | threw e t ↦ threw e t ]

module _ {ℓ κ} {S : Type ℓ} {B : Type κ} where
  infixl 5 ◌>>◌
  abbrev pub ◌>>◌ : Exec S (Unit {0}) → Exec S B → Exec S B
  m >> k = m >>= λ _. k

module _ {ℓ} {S : Type ℓ} where
  abbrev pub modify : (S → S) → Exec S (Unit {0})
  modify f s = returned tt (f s)

  abbrev pub throw_if : Bool → AppError → Exec S (Unit {0})
  throw_if true e s = threw e s
  throw_if false e s = returned tt s

abbrev onto {ℓ} : {B : Type ℓ} → B → Result (List B) → Result (List B)
onto b (ok bs) = ok (b ∷ bs)
onto b (err e) = err e

module _ {ℓ κ} {A : Type ℓ} {B : Type κ} where
  -- A computation that goes on with the value of the first.
  abbrev pub and_then : Result A → (A → Result B) → Result B
  and_then (ok a) f = f a
  and_then (err e) f = err e

module _ {ℓ κ} {A : Type ℓ} {B : Type κ} where
  -- `map` with a function that may throw.
  unfoldable pub map_result : (A → Result B) → List A → Result (List B)
  map_result f [] = ok []
  map_result f (a ∷ as_) = let rest = map_result f as_ in and_then (f a) (λ b. onto b rest)

-- What a computation did that returned
pub and_then_ok {ℓ κ} :
    {A : Type ℓ} {B : Type κ} (r : Result A) (f : A → Result B) (b : B)
    → and_then r f ≡ ok b
    → (a : A) × (r ≡ ok a) × (f a ≡ ok b)
and_then_ok (ok a) f b e = (a, refl, e)
and_then_ok (err x) f b e = cc

onto_ok {ℓ} :
    {B : Type ℓ} (b : B) (r : Result (List B)) (cs : List B)
    → onto b r ≡ ok cs
    → (bs : List B) × (r ≡ ok bs) × (cs ≡ b ∷ bs)
onto_ok b (ok bs) cs e = (bs, refl, cc)
onto_ok b (err x) cs e = cc

pub map_result_ok {ℓ κ} :
    {A : Type ℓ} {B : Type κ} (f : A → Result B) (a : A) (as_ : List A) (cs : List B)
    → map_result f (a ∷ as_) ≡ ok cs
    → (b : B) × (bs : List B) × (f a ≡ ok b) × (map_result f as_ ≡ ok bs) × (cs ≡ b ∷ bs)
unfolding map_result
map_result_ok f a as_ cs e =
    let (b, p, q) = and_then_ok (f a) (λ x. onto x (map_result f as_)) cs e in
    let (bs, r, s) = onto_ok b (map_result f as_) cs q in (b, bs, p, r, s)

pub ok_inj {ℓ} : {A : Type ℓ} {a b : A} → ok a ≡ ok b → a ≡ b
ok_inj e = cc e
