-- ===== src/Pagination.antt =====
-- src/shared/pagination/index.ts. A parameter is what `Math.trunc` makes of the number that was
-- given: not a number, a natural number, or a negative one. Infinite numbers are left out.
mod Tests
use nest_kit.Base.{
  ℕ, ◌+◌, ◌-◌, ◌*◌, ◌/◌, ◌≤◌, ◌<◌, min, max, ◌≡◌, true, not, ◌||◌, arith, ltb, ◌==◌, if◌then◌else◌,
  lt→ltb,
}

pub data Truncated : Type 0 where
  not_a_number : Truncated
  natural : ℕ → Truncated
  negative : ℕ → Truncated

abbrev pub max_page_size : ℕ
max_page_size = 100

abbrev pub default_page_size : ℕ
default_page_size = 20

pub record PaginationParams : Type 0 where
  pub page : ℕ
  pub limit : ℕ

-- `Math.max(1, value || default)`
abbrev pub at_least_one : ℕ → Truncated → ℕ
at_least_one default not_a_number = default
at_least_one default (natural n) = if n == 0 then default else n
at_least_one default (negative n) = 1

-- The constructor of `PaginationParams`; a missing argument is its default.
unfoldable pub params : Truncated → Truncated → PaginationParams
params page limit = record {
  page = at_least_one 1 page;
  limit = min max_page_size (at_least_one default_page_size limit);
}

unfoldable pub offset : PaginationParams → ℕ
offset p = (p.page - 1) * p.limit

-- `totalPages` of a page: `Math.ceil(total / limit)`
unfoldable pub total_pages : ℕ → ℕ → ℕ
total_pages total limit = if ltb 0 limit then (total + (limit - 1)) / limit else 0

-- Whatever was asked for, the page is at least 1 and the limit between 1 and 100.
pub params-le :
    (page limit : Truncated)
    → let p = params page limit in (1 ≤ p.page) × (1 ≤ p.limit) × (p.limit ≤ max_page_size)
unfolding params
params-le not_a_number not_a_number = omega arith
params-le not_a_number (natural n) = ground arith
params-le not_a_number (negative n) = omega arith
params-le (natural m) not_a_number = ground arith
params-le (natural m) (natural n) = ground arith
params-le (natural m) (negative n) = ground arith
params-le (negative m) not_a_number = omega arith
params-le (negative m) (natural n) = ground arith
params-le (negative m) (negative n) = omega arith

-- The page on which an item stands, counted from 0.
abbrev pub page_of : ℕ → ℕ → PaginationParams
page_of limit i = record { page = i / limit + 1; limit = limit }

div_le : (i d : ℕ) → 0 < d → i / d * d ≤ i
div_le i d h = grind arith

pub lt_div : (i d : ℕ) → 0 < d → i < i / d * d + d
lt_div i d h = grind arith

div_mono : (i j d : ℕ) → 0 < d → i + d ≤ j → i / d + 1 ≤ j / d
div_mono i j d h k = grind arith

-- With a positive limit, every item of a list stands on one page: between the offset of that page and
-- its end; and that page is one of the pages counted.
page_of-total_pages :
    (limit total i : ℕ)
    → 0 < limit
    → i < total
    → (offset (page_of limit i) ≤ i)
      × (i < offset (page_of limit i) + limit)
      × ((page_of limit i).page ≤ total_pages total limit)
unfolding offset total_pages
page_of-total_pages limit total i h k =
    let same : i / limit + 1 - 1 ≡ i / limit = omega arith in
    let positive : ltb 0 limit ≡ true = lt→ltb 0 limit h in
    rw (same, positive)
      (div_le i limit h, lt_div i limit h, div_mono i (total + (limit - 1)) limit h (omega arith))
