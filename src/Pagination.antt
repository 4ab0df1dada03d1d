-- ===== src/Pagination.antt =====
-- app/common/pagination: requests, offsets and the page meta data. Numbers that pydantic has
-- validated are natural numbers; `BaseListRequest.model_validate` raises outside its bounds.
pub mod Pages
pub mod Listing
use base_backend.Prelude.{
  ℕ, ◌+◌, ◌-◌, ◌*◌, ◌/◌, String, Bool, false, ◌&&◌, Option, none, some, ltb, leb, ◌==◌, string_eq,
  if◌then◌else◌,
}

pub data SortingMethod : Type 0 where
  asc desc : SortingMethod

pub record BaseListRequest : Type 0 where
  pub page_number : ℕ
  pub limit : ℕ
  pub sorting_method : SortingMethod
  pub sort_key : String

-- The bounds of the fields: `ge=1`, `ge=1, le=100`, `min_length=1`.
unfoldable pub model_validate : BaseListRequest → Option BaseListRequest
model_validate r =
    if leb 1 r.page_number && (leb 1 r.limit && leb r.limit 100)
    then (if r.sort_key == "" then none else some r)
    else none

pub record PaginationMeta : Type 0 where
  pub page : ℕ
  pub limit : ℕ
  pub total_items : ℕ
  pub total_pages : ℕ
  pub has_next : Bool
  pub has_previous : Bool

unfoldable pub pagination_offset : BaseListRequest → ℕ
pagination_offset params = (params.page_number - 1) * params.limit

-- `math.ceil(a / b)` for whole numbers, `b` positive.
unfoldable pub ceil_div : ℕ → ℕ → ℕ
ceil_div a b = (a + b - 1) / b

unfoldable pub pagination_total_pages : ℕ → ℕ → ℕ
unfolding ceil_div
pagination_total_pages total_items limit =
    if leb total_items 0 then 0 else ceil_div total_items limit

unfoldable pub build_pagination_meta : ℕ → ℕ → ℕ → PaginationMeta
build_pagination_meta page limit total_items =
    let total_pages = pagination_total_pages total_items limit in
    record {
      page = page;
      limit = limit;
      total_items = total_items;
      total_pages = total_pages;
      has_next = if ltb 0 total_pages then ltb page total_pages else false;
      has_previous = ltb 1 page;
    }
