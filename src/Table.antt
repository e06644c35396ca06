-- ===== src/Table.antt =====
-- A database table as the repositories use it: rows in the order of their serial ids, looked up by
-- one text column and written by an upsert on that column.
use nest_kit.Base.{
  String, ◌≡◌, refl, sym, subst, ◌≢◌, inl, inr, Option, none, some, List, [], ◌∷◌, arith, eq_iff,
  eq_refl, ◌=ₛ◌, if◌then◌else◌, Bool-cases, All,
}

module _ {ℓ} {A : Type ℓ} (key : A → String) where
  unfoldable pub find : String → List A → Option A
  find k [] = none
  find k (a ∷ rows) = if key a =ₛ k then some a else find k rows

  -- The row with the same key is replaced where it stands; a new row comes last.
  unfoldable pub upsert : A → List A → List A
  upsert a [] = a ∷ []
  upsert a (b ∷ rows) = if key b =ₛ key a then a ∷ rows else b ∷ upsert a rows

  -- `upsert` one after the other, as `saveAll` does.
  unfoldable pub upsert_all : List A → List A → List A
  upsert_all [] rows = rows
  upsert_all (a ∷ as_) rows = upsert_all as_ (upsert a rows)

  pub find-upsert :
      (a : A) (k : String) (rows : List A)
      → find k (upsert a rows) ≡ (if key a =ₛ k then some a else find k rows)
  unfolding find upsert
  find-upsert a k [] = refl
  find-upsert a k (b ∷ rows) =
      ground
        (arith, eq_iff (key a) k, eq_iff (key b) k, eq_iff (key b) (key a), find-upsert a k rows)

  pub find-upsert_self : (a : A) (rows : List A) → find (key a) (upsert a rows) ≡ some a
  find-upsert_self a rows = simp (find-upsert, eq_refl)

  pub find-upsert_ne :
      (a : A) (k : String) (rows : List A) → key a ≢ k → find k (upsert a rows) ≡ find k rows
  find-upsert_ne a k rows h = ground (arith, find-upsert a k rows, eq_iff (key a) k)

  -- What is found has the key that was asked for.
  pub key-find : (k : String) (rows : List A) (a : A) → find k rows ≡ some a → key a ≡ k
  unfolding find
  key-find k [] a e = cc
  key-find k (b ∷ rows) a e = ground (arith, eq_iff (key b) k, key-find k rows a)

  -- A key that stands in none of the rows of the table.
  abbrev pub IsFresh : String → List A → Type 0
  IsFresh k rows = All (λ a. key a ≢ k) rows

  abbrev pub HasDistinctKeys : List A → Type 0
  HasDistinctKeys [] = Unit
  HasDistinctKeys (a ∷ rows) = IsFresh (key a) rows × HasDistinctKeys rows

  IsFresh-upsert :
      (k : String) (a : A) (rows : List A) → key a ≢ k → IsFresh k rows → IsFresh k (upsert a rows)
  unfolding upsert
  IsFresh-upsert k a [] h f = (h, tt)
  IsFresh-upsert k a (b ∷ rows) h (g, f) = ground (arith, IsFresh-upsert k a rows h f)

  IsFresh-of_same :
      (k : String) (a : A) (rows : List A) → key a ≡ k → IsFresh (key a) rows → IsFresh k rows
  IsFresh-of_same k a rows e f = subst (λ x. IsFresh x rows) e f

  -- A table keeps one row for each key.
  pub HasDistinctKeys-upsert :
      (a : A) (rows : List A) → HasDistinctKeys rows → HasDistinctKeys (upsert a rows)
  unfolding upsert
  HasDistinctKeys-upsert a [] d = (tt, tt)
  HasDistinctKeys-upsert a (b ∷ rows) (f, d) = elim (Bool-cases (key b =ₛ key a)) [
    | inl e ↦ rw e (IsFresh-of_same (key a) b rows ((eq_iff (key b) (key a)).0 e) f, d)
    | inr e ↦ rw e (
      IsFresh-upsert (key b) a rows (λ h. cc (e, (eq_iff (key b) (key a)).1 (sym h))) f,
      HasDistinctKeys-upsert a rows d,
    )
  ]

  -- A predicate of the rows is kept by writing a row that satisfies it.
  pub All-upsert {κ} :
      (P : A → Type κ) (a : A) (rows : List A) → P a → All P rows → All P (upsert a rows)
  unfolding upsert
  All-upsert P a [] p h = (p, tt)
  All-upsert P a (b ∷ rows) p (q, h) = ground (arith, All-upsert P a rows p h)

  pub All-find {κ} :
      (P : A → Type κ) (k : String) (rows : List A) (a : A)
      → find k rows ≡ some a
      → All P rows
      → P a
  unfolding find
  All-find P k [] a e h = cc
  All-find P k (b ∷ rows) a e (q, h) = elim (Bool-cases (key b =ₛ k)) [
    | inl same ↦ let p : b ≡ a = ground arith in subst P p q
    | inr other ↦ All-find P k rows a (rw other at e) h
  ]

  -- The later of two writes to one key is the one that stays.
  pub upsert-upsert :
      (a b : A) (rows : List A) → key b ≡ key a → upsert a (upsert b rows) ≡ upsert a rows
  unfolding upsert
  upsert-upsert a b [] e = rw (e, eq_refl (key a))
  upsert-upsert a b (c ∷ rows) e = elim (Bool-cases (key c =ₛ key a)) [
    | inl same ↦
        ground (arith, eq_iff (key c) (key b), eq_iff (key c) (key a), eq_iff (key b) (key a))
    | inr other ↦
        ground (arith, eq_iff (key c) (key b), eq_iff (key c) (key a), upsert-upsert a b rows e)
  ]

  abbrev pub or_else : Option A → Option A → Option A
  or_else none b = b
  or_else (some a) b = some a

  pub find-IsFresh : (k : String) (rows : List A) → IsFresh k rows → find k rows ≡ none
  unfolding find
  find-IsFresh k [] f = refl
  find-IsFresh k (a ∷ rows) (ne, f) = ground (arith, eq_iff (key a) k, find-IsFresh k rows f)

  -- After a batch with distinct keys was written, its rows are found, and else the old ones.
  pub find-upsert_all :
      (k : String) (as_ rows : List A)
      → HasDistinctKeys as_
      → find k (upsert_all as_ rows) ≡ or_else (find k as_) (find k rows)
  unfolding find upsert_all
  find-upsert_all k [] rows d = refl
  find-upsert_all k (a ∷ as_) rows (f, d) = elim (Bool-cases (key a =ₛ k)) [
    | inl same ↦
        let gone : find k as_ ≡ none =
          find-IsFresh k as_ (IsFresh-of_same k a as_ ((eq_iff (key a) k).0 same) f) in
        rw (find-upsert_all k as_ (upsert a rows) d, gone, find-upsert a k rows, same) refl
    | inr other ↦ rw (find-upsert_all k as_ (upsert a rows) d, find-upsert a k rows, other) refl
  ]

  pub HasDistinctKeys-upsert_all :
      (as_ rows : List A) → HasDistinctKeys rows → HasDistinctKeys (upsert_all as_ rows)
  unfolding upsert_all
  HasDistinctKeys-upsert_all [] rows d = d
  HasDistinctKeys-upsert_all (a ∷ as_) rows d =
      HasDistinctKeys-upsert_all as_ (upsert a rows) (HasDistinctKeys-upsert a rows d)

  -- A predicate of every row that a key finds holds of all rows.
  pub All-of_find {κ} :
      (P : A → Type κ) (rows : List A)
      → HasDistinctKeys rows
      → ((a : A) → find (key a) rows ≡ some a → P a)
      → All P rows
  unfolding find
  All-of_find P [] d h = tt
  All-of_find P (a ∷ rows) (f, d) h = (
    h a (rw (eq_refl (key a)) refl),
    All-of_find P rows d (λ b e.
        let apart = All-find (λ c. key c ≢ key a) (key b) rows b e f in
        h b (unfold find in ground (arith, eq_iff (key a) (key b)))),
  )
