-- ===== src/Pagination/Pages.antt =====
-- The pages of a validated request cover the items: what `pagination_total_pages`,
-- `pagination_offset` and `build_pagination_meta` say together.
use base_backend.Prelude.{ℕ, zero, suc, ◌+◌, ◌-◌, ◌*◌, ◌≤◌, ◌<◌, ◌≡◌, ◌↔◌, true, arith}
use native.Mathlib.Decide.{dec_le}
use native.Mathlib.Nat.{div-add-mod, mod-lt}
use base_backend.Pagination.{
  BaseListRequest, pagination_offset, ceil_div, pagination_total_pages, build_pagination_meta,
}

-- The quotient rounded up is the least number of pages that hold all items.
pub ceil_div_bounds :
    (a b : ℕ) → 0 < b → 0 < a → (a ≤ ceil_div a b * b) × (ceil_div a b * b < a + b)
unfolding ceil_div
ceil_div_bounds a b hb ha =
    let e = div-add-mod (a + b - 1) b in let m = mod-lt (a + b - 1) hb in (grind arith, grind arith)

mul_mono : (a b c : ℕ) → a ≤ b → a * c ≤ b * c
mul_mono a b c h = grind arith

-- The arithmetic of the page numbers: `pages` pages of `limit` items hold `total` items, and one
-- page less does not.
page_bounds :
    (p limit total pages : ℕ)
    → total ≤ pages * limit
    → pages * limit < total + limit
    → (p * limit < total) ↔ (suc p ≤ pages)
page_bounds p limit total pages hi lo = (
  λ h. elim (dec_le (suc p) pages) [
    | yes le ↦ le
    | no gt ↦ absurd (omega (arith, mul_mono pages p limit (omega arith)))
  ],
  λ h. omega (arith, mul_mono (suc p) pages limit h),
)

total_pages_bounds :
    (total limit : ℕ)
    → 1 ≤ limit
    → (total ≤ pagination_total_pages total limit * limit)
      × (pagination_total_pages total limit * limit < total + limit)
unfolding pagination_total_pages
total_pages_bounds zero limit hl = (omega arith, omega arith)
total_pages_bounds (suc t) limit hl = ground (arith, ceil_div_bounds (suc t) limit hl)

-- For a page number and a limit of at least 1, the offset of a page lies inside the listing exactly
-- when the page number is at most the number of pages.
offset-lt_iff :
    (r : BaseListRequest) (total : ℕ)
    → 1 ≤ r.page_number
    → 1 ≤ r.limit
    → (pagination_offset r < total) ↔ (r.page_number ≤ pagination_total_pages total r.limit)
unfolding pagination_offset
offset-lt_iff r total hp hl =
    let b = total_pages_bounds total r.limit hl in
    let e = page_bounds (r.page_number - 1) r.limit total _ b.0 b.1 in
    (λ h. omega (arith, e.0 h), λ h. e.1 (omega arith))

-- `has_next` holds exactly when the offset of the next page lies inside the listing, and
-- `has_previous` exactly from the second page on.
pub has_next_iff :
    (r next : BaseListRequest) (total : ℕ)
    → 1 ≤ r.page_number
    → 1 ≤ r.limit
    → next.page_number ≡ r.page_number + 1
    → next.limit ≡ r.limit
    → let meta = build_pagination_meta r.page_number r.limit total in
      ((meta.has_next ≡ true) ↔ (pagination_offset next < total))
      × ((meta.has_previous ≡ true) ↔ (1 < r.page_number))
unfolding build_pagination_meta
has_next_iff r next total hp hl ep el =
    let inside = offset-lt_iff next total (omega arith) (omega arith) in
    let pages : next.page_number ≤ pagination_total_pages total next.limit
        → next.page_number ≤ pagination_total_pages total r.limit =
      λ h. rw (← el) h in
    let back : next.page_number ≤ pagination_total_pages total r.limit
        → next.page_number ≤ pagination_total_pages total next.limit =
      λ h. rw el h in
    (
      (λ h. inside.1 (back (ground arith)), λ h. (let q = pages (inside.0 h) in ground arith)),
      (λ h. ground arith, λ h. ground arith),
    )
