-- ===== src/Pagination/Tests.antt =====
-- Pages (src/shared/pagination/index.ts) of small lists.
use nest_kit.Base.{ℕ, ◌≡◌, List, [], ◌∷◌, arith, length}
use nest_kit.Pagination.{total_pages}
use nest_kit.Listings.{pages, pages-total_pages}

abbrev three_rows : List ℕ
three_rows = 31 ∷ 22 ∷ 13 ∷ []

pages-total_pages_example : pages 2 (total_pages (length three_rows) 2) three_rows ≡ three_rows
pages-total_pages_example = pages-total_pages 2 three_rows (omega arith)
