-- ===== src/Paging/Tests.antt =====
-- utilities/pagination.ts: a use of the theorem.
use ginem_api.Common.{ℕ, ◌≡◌, none, some, List, [], ◌∷◌}
use ginem_api.Common.Int.{pos}
use ginem_api.Paging.{find_page}
use ginem_api.Paging.Pages.{first_pages, first_pages-total}

abbrev five : List ℕ
five = 1 ∷ 2 ∷ 3 ∷ 4 ∷ 5 ∷ []

first_pages-total_example :
    first_pages (some (pos 2)) five (find_page none (some (pos 2)) five).total_pages ≡ five
first_pages-total_example = first_pages-total (some (pos 2)) none five
