-- ===== src/Outbox/Relay/Untouched.antt =====
-- Which rows the statements of src/platform/outbox/outbox.repository.ts leave alone: a table before
-- and after, compared row by row.
use nest_kit.Outbox.Rows.{
  record_failure, mark_published, id_in, takes, replay_dead_lettered, claimed, after_claim, is_set,
  bump, left, is_revived, OutboxRow, id_of,
}
use nest_kit.Outbox.Relay.Settled.{is_stranded}
use nest_kit.Table.{IsFresh, find}
use nest_kit.Base.{
  ℕ, String, ◌≡◌, refl, sym, ap, ◌∙◌, ◌≢◌, ◌⊎◌, inl, inr, Bool, true, false, none, some, List, [],
  ◌∷◌, arith, eq_iff, if◌then◌else◌, All,
}

-- The row `r` stands in the table, and no other row has its id.
pub record Stands (r : OutboxRow) (rows : List OutboxRow) : Type 0 where
  pub only : All (λ x. (x.id ≢ r.id) ⊎ (x ≡ r)) rows
  pub found : find id_of r.id rows ≡ some r

-- One table becomes the other without a change of ids and with no change to rows with id `k`.
abbrev pub Untouched : String → List OutboxRow → List OutboxRow → Type 0
Untouched k [] [] = Unit
Untouched k [] (y ∷ ys) = ⊥
Untouched k (x ∷ xs) [] = ⊥
Untouched k (x ∷ xs) (y ∷ ys) = (y.id ≡ x.id) × ((x.id ≢ k) ⊎ (y ≡ x)) × Untouched k xs ys

module _ (r : OutboxRow) where
  only-Untouched :
      (xs ys : List OutboxRow)
      → Untouched r.id xs ys
      → All (λ x. (x.id ≢ r.id) ⊎ (x ≡ r)) xs
      → All (λ x. (x.id ≢ r.id) ⊎ (x ≡ r)) ys
  only-Untouched [] [] u h = tt
  only-Untouched (x ∷ xs) (y ∷ ys) (same, kept, u) (o, h) =
      (only_one same kept o, only-Untouched xs ys u h)
    where
      only_one :
          y.id ≡ x.id → (x.id ≢ r.id) ⊎ (y ≡ x) → (x.id ≢ r.id) ⊎ (x ≡ r) → (y.id ≢ r.id) ⊎ (y ≡ r)
      only_one same (inl ne) o = inl (λ e. ne (sym same ∙ e))
      only_one same (inr eq) (inl ne) = inl (λ e. ne (sym same ∙ e))
      only_one same (inr eq) (inr p) = inr (eq ∙ p)
  only-Untouched [] (y ∷ ys) u h = absurd u
  only-Untouched (x ∷ xs) [] u h = absurd u

  find-Untouched :
      (k : String) (xs ys : List OutboxRow) → Untouched k xs ys → find id_of k ys ≡ find id_of k xs
  unfolding find
  find-Untouched k [] [] u = refl
  find-Untouched k (x ∷ xs) (y ∷ ys) (same, kept, u) =
      ground (arith, eq_iff x.id k, eq_iff y.id k, find-Untouched k xs ys u)
  find-Untouched k [] (y ∷ ys) u = absurd u
  find-Untouched k (x ∷ xs) [] u = absurd u

  pub Stands-Untouched : (xs ys : List OutboxRow) → Untouched r.id xs ys → Stands r xs → Stands r ys
  Stands-Untouched xs ys u s = record {
    only = only-Untouched xs ys u s.only;
    found = find-Untouched r.id xs ys u ∙ s.found;
  }

module _ (r : OutboxRow) (most : ℕ) (stuck : is_stranded most r ≡ true) where
  not_taken :
      (locked : String → Bool) (limit : ℕ) (x : OutboxRow)
      → (x.id ≢ r.id) ⊎ (x ≡ r)
      → (x.id ≢ r.id) ⊎ (takes locked most limit x ≡ false)
  not_taken locked limit x (inl ne) = inl ne
  not_taken locked limit x (inr e) = inr (rw e (never_taken locked limit))
    where
      never_taken : (l : String → Bool) (n : ℕ) → takes l most n r ≡ false
      never_taken l n = ground arith

  pub after_claim-Untouched :
      (locked : String → Bool) (limit : ℕ) (rows : List OutboxRow)
      → All (λ x. (x.id ≢ r.id) ⊎ (x ≡ r)) rows
      → Untouched r.id rows (after_claim locked most limit rows)
  unfolding after_claim
  after_claim-Untouched locked limit [] h = tt
  after_claim-Untouched locked limit (x ∷ rows) (o, h) = (
    one (takes locked most limit x),
    two (takes locked most limit x) (not_taken locked limit x o),
    after_claim-Untouched locked (left locked most limit x) rows h,
  )
    where
      one : (b : Bool) → (if b then bump x else x).id ≡ x.id
      one true = refl
      one false = refl

      two :
          (b : Bool) → (x.id ≢ r.id) ⊎ (b ≡ false) → (x.id ≢ r.id) ⊎ ((if b then bump x else x) ≡ x)
      two b (inl ne) = inl ne
      two true (inr e) = cc
      two false (inr e) = inr refl

  pub claimed-IsFresh :
      (locked : String → Bool) (limit : ℕ) (rows : List OutboxRow)
      → All (λ x. (x.id ≢ r.id) ⊎ (x ≡ r)) rows
      → IsFresh id_of r.id (claimed locked most limit rows)
  unfolding claimed
  claimed-IsFresh locked limit [] h = tt
  claimed-IsFresh locked limit (x ∷ rows) (o, h) =
      pick (takes locked most limit x) (not_taken locked limit x o)
        (claimed-IsFresh locked (left locked most limit x) rows h)
    where
      pick :
          (b : Bool)
          → (x.id ≢ r.id) ⊎ (b ≡ false)
          → IsFresh id_of r.id (claimed locked most (left locked most limit x) rows)
          → IsFresh id_of r.id (
              if b
              then bump x ∷ claimed locked most (left locked most limit x) rows
              else claimed locked most (left locked most limit x) rows)
      pick true (inl ne) f = (ne, f)
      pick true (inr e) f = cc
      pick false d f = f

pub record_failure-Untouched :
    (k : String) (now : ℕ) (id : String) (error : List ℕ) (most : ℕ) (rows : List OutboxRow)
    → id ≢ k
    → Untouched k rows (record_failure now id error most rows)
unfolding record_failure
record_failure-Untouched k now id error most [] h = tt
record_failure-Untouched k now id error most (x ∷ rows) h = (
  ground arith,
  ground (arith, eq_iff x.id id),
  record_failure-Untouched k now id error most rows h,
)

id_in_iff : (k i : String) (ids : List String) → i ≡ k → id_in i ids ≡ id_in k ids
id_in_iff k i ids e = ap (λ x. id_in x ids) e

pub mark_published-Untouched :
    (k : String) (now : ℕ) (ids : List String) (rows : List OutboxRow)
    → id_in k ids ≡ false
    → Untouched k rows (mark_published now ids rows)
unfolding mark_published
mark_published-Untouched k now ids [] h = tt
mark_published-Untouched k now ids (x ∷ rows) h =
    (ground arith, one (id_in x.id ids) refl, mark_published-Untouched k now ids rows h)
  where
    one :
        (b : Bool)
        → id_in x.id ids ≡ b
        → (x.id ≢ k)
          ⊎ ((if b then record x { published_at = some now; last_error = none } else x) ≡ x)
    one true e = inl (λ same. cc (id_in_iff k x.id ids same, e, h))
    one false e = inr refl

pub replay-Untouched :
    (r : OutboxRow) (ids : List String) (rows : List OutboxRow)
    → is_set r.dead_lettered_at ≡ false
    → All (λ x. (x.id ≢ r.id) ⊎ (x ≡ r)) rows
    → Untouched r.id rows (replay_dead_lettered ids rows)
unfolding replay_dead_lettered
replay-Untouched r ids [] alive h = tt
replay-Untouched r ids (x ∷ rows) alive (o, h) =
    (ground arith, one o, replay-Untouched r ids rows alive h)
  where
    one :
        (x.id ≢ r.id) ⊎ (x ≡ r)
        → (x.id ≢ r.id)
          ⊎ ((if is_revived ids x
                then record x { dead_lettered_at = none; attempts = 0; last_error = none }
                else x)
              ≡ x)
    one (inl ne) = inl ne
    one (inr e) = let dead : is_set x.dead_lettered_at ≡ false = rw e alive in inr (ground arith)
