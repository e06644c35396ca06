-- ===== src/Queries.antt =====
-- What the repositories use of TypeORM on a table without a text key: `findOne`, `find` and `delete`
-- by a condition, with the laws on what a later lookup finds.
use nest_kit.Base.{
  ℕ, ◌≡◌, refl, sym, ap, ◌∙◌, subst, inl, inr, Bool, true, false, ◌||◌, Option, none, some, List,
  [], ◌∷◌, ◌++◌, map, arith, ◌==◌, if◌then◌else◌, ==_iff, Bool-cases, all, any, All,
}

-- Whether one of the numbers is `n`
abbrev pub member : ℕ → List ℕ → Bool
member n ids = any (λ m. m == n) ids

abbrev pub consed {ℓ} : {B : Type ℓ} → Option B → List B → List B
consed none bs = bs
consed (some b) bs = b ∷ bs

-- `flatMap` with at most one value for each row
unfoldable pub collect {ℓ κ} : {A : Type ℓ} {B : Type κ} → (A → Option B) → List A → List B
collect f [] = []
collect f (a ∷ rows) = consed (f a) (collect f rows)

-- A value computed of what was found, if anything was
abbrev pub found {ℓ κ} : {A : Type ℓ} {B : Type κ} → (A → B) → Option A → Option B
found f none = none
found f (some a) = some (f a)

module _ {ℓ} {A : Type ℓ} where
  -- `findOne({ where })`
  unfoldable pub first : (A → Bool) → List A → Option A
  first p [] = none
  first p (a ∷ rows) = if p a then some a else first p rows

  -- `find({ where })`
  unfoldable pub select : (A → Bool) → List A → List A
  select p [] = []
  select p (a ∷ rows) = let rest = select p rows in if p a then a ∷ rest else rest

  abbrev pub is_some : Option A → Bool
  is_some none = false
  is_some (some a) = true

  abbrev pub first_of : Option A → Option A → Option A
  first_of none b = b
  first_of (some a) b = some a

  pub first-append :
      (p : A → Bool) (xs ys : List A) → first p (xs ++ ys) ≡ first_of (first p xs) (first p ys)
  unfolding first
  first-append p [] ys = refl
  first-append p (x ∷ xs) ys = ground (arith, first-append p xs ys)

  -- What is looked up among the rows of a condition that only depends on the key.
  pub first-select :
      (q p : A → Bool) (keep : Bool) (rows : List A)
      → ((a : A) → q a ≡ true → p a ≡ keep)
      → first q (select p rows) ≡ (if keep then first q rows else none)
  unfolding first select
  first-select q p true [] h = refl
  first-select q p false [] h = refl
  first-select q p keep (a ∷ rows) h = ground (arith, h a, first-select q p keep rows h)

  pub any-first : (p : A → Bool) (rows : List A) → any p rows ≡ is_some (first p rows)
  unfolding first
  any-first p [] = refl
  any-first p (a ∷ rows) = ground (arith, any-first p rows)

  pub any-append : (p : A → Bool) (xs ys : List A) → any p (xs ++ ys) ≡ (any p xs || any p ys)
  any-append p [] ys = refl
  any-append p (x ∷ xs) ys = ground (arith, any-append p xs ys)

  -- What is found satisfies the condition.
  pub first_sound : (p : A → Bool) (rows : List A) (a : A) → first p rows ≡ some a → p a ≡ true
  unfolding first
  first_sound p [] a e = cc
  first_sound p (b ∷ rows) a e = elim (Bool-cases (p b)) [
    | inl h ↦ let same : b ≡ a = cc (rw h at e) in subst (λ x. p x ≡ true) same h
    | inr h ↦ first_sound p rows a (rw h at e)
  ]

  pub All-first {κ} :
      (P : A → Type κ) (p : A → Bool) (rows : List A) (a : A)
      → first p rows ≡ some a
      → All P rows
      → P a
  unfolding first
  All-first P p [] a e h = cc
  All-first P p (b ∷ rows) a e (q, h) = elim (Bool-cases (p b)) [
    | inl yes_ ↦ let same : b ≡ a = cc (rw yes_ at e) in subst P same q
    | inr no_ ↦ All-first P p rows a (rw no_ at e) h
  ]

  pub All_imp {κ μ} :
      {P : A → Type κ} {Q : A → Type μ}
      → ((a : A) → P a → Q a)
      → (rows : List A) → All P rows
      → All Q rows
  All_imp f [] h = tt
  All_imp f (a ∷ rows) (p, h) = (f a p, All_imp f rows h)

  pub any_eq :
      (p q : A → Bool) (rows : List A) → All (λ a. p a ≡ q a) rows → any p rows ≡ any q rows
  any_eq p q [] h = refl
  any_eq p q (a ∷ rows) (e, h) = rw (e, any_eq p q rows h) refl

  -- The keys of the rows have the key of each row.
  pub All-member :
      (key : A → ℕ) (rows : List A) → All (λ a. member (key a) (map key rows) ≡ true) rows
  All-member key [] = tt
  All-member key (a ∷ rows) = (
    ground (arith, ==_iff (key a) (key a)),
    All_imp (λ b h. ground (arith, h)) rows (All-member key rows),
  )

  pub All-map {κ} :
      (P : A → Type κ) (f : A → A) (rows : List A)
      → ((a : A) → P a → P (f a))
      → All P rows
      → All P (map f rows)
  All-map P f [] k h = tt
  All-map P f (a ∷ rows) k (p, h) = (k a p, All-map P f rows k h)

  pub first-map :
      (p : A → Bool) (f : A → A) (rows : List A)
      → ((a : A) → p (f a) ≡ p a)
      → first p (map f rows) ≡ found f (first p rows)
  unfolding first
  first-map p f [] h = refl
  first-map p f (a ∷ rows) h = elim (Bool-cases (p a)) [
    | inl e ↦ rw (h a, e) refl
    | inr e ↦ rw (h a, e) (first-map p f rows h)
  ]

  pub All-select {κ} :
      (P : A → Type κ) (p : A → Bool) (rows : List A) → All P rows → All P (select p rows)
  unfolding select
  All-select P p [] h = tt
  All-select P p (a ∷ rows) (q, h) = elim (Bool-cases (p a)) [
    | inl e ↦ rw e (q, All-select P p rows h)
    | inr e ↦ rw e (All-select P p rows h)
  ]

  pub All-select_where {κ} :
      (P : A → Type κ) (p : A → Bool) (rows : List A)
      → All (λ a. p a ≡ true → P a) rows
      → All P (select p rows)
  unfolding select
  All-select_where P p [] h = tt
  All-select_where P p (a ∷ rows) (q, h) = elim (Bool-cases (p a)) [
    | inl e ↦ rw e (q e, All-select_where P p rows h)
    | inr e ↦ rw e (All-select_where P p rows h)
  ]

  pub any-select :
      (q p : A → Bool) (rows : List A)
      → ((a : A) → q a ≡ true → p a ≡ true)
      → any q (select p rows) ≡ any q rows
  any-select q p rows h =
      any-first q (select p rows)
      ∙ ap is_some (first-select q p true rows h)
      ∙ sym (any-first q rows)

  pub any-select-false :
      (q p : A → Bool) (rows : List A) → any q rows ≡ false → any q (select p rows) ≡ false
  unfolding select
  any-select-false q p [] h = refl
  any-select-false q p (a ∷ rows) h = ground (arith, any-select-false q p rows)

  pub all_imp :
      (p q : A → Bool)
      → ((a : A) → p a ≡ true → q a ≡ true)
      → (rows : List A) → all p rows ≡ true
      → all q rows ≡ true
  all_imp p q f [] h = refl
  all_imp p q f (a ∷ rows) h = elim (Bool-cases (p a)) [
    | inl e ↦ rw (f a e, all_imp p q f rows (rw e at h)) refl
    | inr e ↦ cc (rw e at h)
  ]

  pub select-all : (p : A → Bool) (rows : List A) → all p rows ≡ true → select p rows ≡ rows
  unfolding select
  select-all p [] h = refl
  select-all p (a ∷ rows) h = elim (Bool-cases (p a)) [
    | inl e ↦ rw (e, select-all p rows (rw e at h)) refl
    | inr e ↦ cc (rw e at h)
  ]

  pub All_all : (p : A → Bool) (rows : List A) → all p rows ≡ true → All (λ a. p a ≡ true) rows
  All_all p [] h = tt
  All_all p (a ∷ rows) h = elim (Bool-cases (p a)) [
    | inl e ↦ (e, All_all p rows (rw e at h))
    | inr e ↦ cc (rw e at h)
  ]

  pub select-append :
      (p : A → Bool) (xs ys : List A) → select p (xs ++ ys) ≡ select p xs ++ select p ys
  unfolding select
  select-append p [] ys = refl
  select-append p (x ∷ xs) ys = elim (Bool-cases (p x)) [
    | inl e ↦ rw (e, select-append p xs ys) refl
    | inr e ↦ rw (e, select-append p xs ys) refl
  ]

  -- A condition that is weaker than the one asked for changes nothing.
  pub select-select :
      (q p : A → Bool) (rows : List A)
      → ((a : A) → q a ≡ true → p a ≡ true)
      → select q (select p rows) ≡ select q rows
  unfolding select
  select-select q p [] h = refl
  select-select q p (a ∷ rows) h = ground (arith, h a, select-select q p rows h)

  pub first-map_same :
      (p : A → Bool) (f : A → A) (rows : List A)
      → ((a : A) → p (f a) ≡ p a)
      → ((a : A) → p a ≡ true → f a ≡ a)
      → first p (map f rows) ≡ first p rows
  first-map_same p f rows h same = first-map p f rows h ∙ kept (first p rows) refl
    where
      kept : (o : Option A) → first p rows ≡ o → found f o ≡ o
      kept none e = refl
      kept (some a) e = ap some (same a (first_sound p rows a e))
