-- ===== src/Paging.antt =====
-- utilities/pagination.ts: the page that a listing shows. A page or size is what `Math.floor` of
-- `Number` gives, `none` if that is not finite.
pub mod Pages
pub mod Tests
use ginem_api.Common.{
  zero, suc, ℕ, ◌+◌, ◌-◌, ◌*◌, ◌/◌, max, Option, none, some, List, take, drop, length,
}
use ginem_api.Common.Int.{ℤ, pos, negsuc}

-- `Number.isFinite(n) && n > 0 ? n : fallback`
unfoldable pub positive_or : ℕ → Option ℤ → ℕ
positive_or fallback none = fallback
positive_or fallback (some (pos zero)) = fallback
positive_or fallback (some (pos (suc n))) = suc n
positive_or fallback (some (negsuc n)) = fallback

pub record Pagination : Type 0 where
  pub limit : ℕ
  pub offset : ℕ
  pub page : ℕ

unfoldable pub calculate_offset : ℕ → ℕ → ℕ
calculate_offset page size = (page - 1) * size

-- The constructor.
unfoldable pub pagination : Option ℤ → Option ℤ → Pagination
unfolding positive_or calculate_offset
pagination page size =
    let p = max 1 (positive_or 1 page) in
    let l = max 1 (positive_or 10 size) in
    record { limit = l; offset = calculate_offset p l; page = p }

pub record PageData {ℓ} (A : Type ℓ) : Type ℓ where
  pub total_items : ℕ
  pub items : List A
  pub total_pages : ℕ
  pub current_page : ℕ

-- `Math.ceil(count / this.limit)`; the limit is positive, and the other branch is never taken.
unfoldable pub format_data {ℓ} : {A : Type ℓ} → Pagination → ℕ → List A → PageData A
format_data pager count rows = record {
  total_items = count;
  items = rows;
  total_pages = (count + pager.limit - 1) / pager.limit;
  current_page = pager.page;
}

-- `findAndCountAll` with `limit` and `offset`, over the rows that match, in their order: how many they
-- are, and those of the page.
abbrev pub find_and_count_all {ℓ} : {A : Type ℓ} → Pagination → List A → ℕ × List A
find_and_count_all pager rows = (length rows, take pager.limit (drop pager.offset rows))

-- What a listing of the services does where it is asked for pages (`findAll` in
-- services/device/DeviceLog.service.ts and others): `findAndCountAll`, and `formatData` of its result.
unfoldable pub find_page {ℓ} : {A : Type ℓ} → Option ℤ → Option ℤ → List A → PageData A
unfolding pagination format_data
find_page page size rows =
    let pager = pagination page size in
    let (count, found) = find_and_count_all pager rows in format_data pager count found
