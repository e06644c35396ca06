-- ===== src/Listings.antt =====
-- The paged lists of the repositories: `findAndCount` of typeorm-user.repository.ts,
-- typeorm-owner.repository.ts and typeorm-car.repository.ts, newest row first, with `revokeAllForUser`
-- of typeorm-session.repository.ts. A table is in the order of its ids.
use nest_kit.Base.{
  ℕ, zero, suc, ◌+◌, ◌-◌, ◌*◌, ◌≤◌, ◌<◌, String, ◌≡◌, refl, sym, ap, ◌∙◌, Bool, true, not, ◌&&◌,
  Option, none, some, List, [], ◌∷◌, ◌++◌, map, arith, ◌=ₛ◌, if◌then◌else◌, lt→ltb, length, take,
}
use nest_kit.Queries.{select}
use nest_kit.Pagination.{PaginationParams, offset, total_pages, lt_div}
use nest_kit.Identity.User.{User, is_set}
use nest_kit.Owner.{Owner}
use nest_kit.Car.{Car}
use nest_kit.Auth.Session.{Session, is_none}
use nest_kit.Database.{Db, user_row, owner_row, car_row}

-- `Page`, whose number of pages is `total_pages total params.limit`
pub record Page {ℓ} (A : Type ℓ) : Type ℓ where
  pub items : List A
  pub total : ℕ
  pub params : PaginationParams

module _ {ℓ} {A : Type ℓ} where
  -- `skip`
  unfoldable pub skip : ℕ → List A → List A
  skip zero rows = rows
  skip (suc n) [] = []
  skip (suc n) (a ∷ rows) = skip n rows

  -- Newest first
  unfoldable pub newest : List A → List A → List A
  newest [] done = done
  newest (a ∷ rows) done = newest rows (a ∷ done)

  unfoldable pub page : PaginationParams → List A → Page A
  page params rows = record {
    items = take params.limit (skip (offset params) rows);
    total = length rows;
    params = params;
  }

-- `TypeOrmUserRepository.list`
unfoldable pub list_users : PaginationParams → Db → Page User
list_users params db =
    page params (newest (map user_row (select (λ u. not (is_set u.deleted_at)) db.users)) [])

-- `TypeOrmOwnerRepository.list`
unfoldable pub list_owners : PaginationParams → Db → Page Owner
list_owners params db = page params (newest (map owner_row db.owners) [])

abbrev is_of_owner : Option String → Car → Bool
is_of_owner none c = true
is_of_owner (some owner_uuid) c = c.owner_uuid =ₛ owner_uuid

-- `TypeOrmCarRepository.list`; an empty owner is none.
unfoldable pub list_cars : PaginationParams → Option String → Db → Page Car
list_cars params owner_uuid db =
    page params (newest (map car_row (select (is_of_owner owner_uuid) db.cars)) [])

abbrev revoked_for : String → ℕ → Session → Session
revoked_for user_uuid now s =
    if s.user_uuid =ₛ user_uuid && is_none s.revoked_at
    then record s { revoked_at = some now }
    else s

-- `TypeOrmSessionRepository.revokeAllForUser`
unfoldable pub revoke_all_for_user : String → ℕ → Db → Db
revoke_all_for_user user_uuid now db = record db {
  sessions = map (revoked_for user_uuid now) db.sessions;
}

-- One page after the other, from the first
unfoldable pub pages {ℓ} : {A : Type ℓ} → ℕ → ℕ → List A → List A
pages limit zero rows = []
pages limit (suc n) rows =
    pages limit n rows ++ (page (record { page = suc n; limit = limit }) rows).items

zero_plus : (n : ℕ) → n ≡ 0 + n
zero_plus n = omega arith

suc_plus : (m n : ℕ) → suc m + n ≡ suc (m + n)
suc_plus m n = omega arith

times_zero : (n : ℕ) → 0 * n ≡ 0
times_zero n = omega arith

suc_times : (n limit : ℕ) → n * limit + limit ≡ suc n * limit
suc_times n limit = grind arith

pred_suc : (n : ℕ) → suc n - 1 ≡ n
pred_suc n = omega arith

module _ {ℓ} {A : Type ℓ} where
  take_nil : (n : ℕ) → take {A = A} n [] ≡ []
  take_nil zero = refl
  take_nil (suc n) = refl

  take-skip : (m n : ℕ) (rows : List A) → take m rows ++ take n (skip m rows) ≡ take (m + n) rows
  unfolding skip
  take-skip zero n rows = ap (λ k. take k rows) (zero_plus n)
  take-skip (suc m) n [] = ap (λ x. x) (take_nil n) ∙ sym (take_nil (suc m + n))
  take-skip (suc m) n (a ∷ rows) =
      ap (λ x. a ∷ x) (take-skip m n rows) ∙ sym (ap (λ k. take k (a ∷ rows)) (suc_plus m n))

  take_all : (n : ℕ) (rows : List A) → length rows ≤ n → take n rows ≡ rows
  take_all zero [] h = refl
  take_all zero (a ∷ rows) h = absurd (omega (arith, h))
  take_all (suc n) [] h = refl
  take_all (suc n) (a ∷ rows) h = ap (λ x. a ∷ x) (take_all n rows (omega (arith, h)))

  pages-take : (limit n : ℕ) (rows : List A) → pages limit n rows ≡ take (n * limit) rows
  unfolding pages page offset
  pages-take limit zero rows = ap (λ k. take k rows) (sym (times_zero limit))
  pages-take limit (suc n) rows =
      rw (pages-take limit n rows, pred_suc n) (take-skip (n * limit) limit rows)
      ∙ ap (λ k. take k rows) (suc_times n limit)

total_pages-le : (total limit : ℕ) → 0 < limit → total ≤ total_pages total limit * limit
unfolding total_pages
total_pages-le total limit h =
    rw (lt→ltb 0 limit h) (omega (arith, lt_div (total + (limit - 1)) limit h))

-- Reading all the pages that a list is said to have, one after the other, gives each row once and in
-- the order of the list, when the limit is positive.
pub pages-total_pages {ℓ} :
    {A : Type ℓ} (limit : ℕ) (rows : List A)
    → 0 < limit
    → pages limit (total_pages (length rows) limit) rows ≡ rows
pages-total_pages limit rows h =
    pages-take limit (total_pages (length rows) limit) rows
    ∙ take_all (total_pages (length rows) limit * limit) rows (total_pages-le (length rows) limit h)
