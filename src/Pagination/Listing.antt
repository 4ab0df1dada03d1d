-- ===== src/Pagination/Listing.antt =====
-- What the listings use of SQLAlchemy and PostgreSQL: `SELECT count(*)` and `SELECT ... ORDER BY column OFFSET
-- m LIMIT n`, a parameter for each joined table, and `apply_sorting` of app/common/pagination/sqlalchemy.py.
-- An order by a column that has ties is not one order: each statement may put the tied rows otherwise.
use base_backend.Prelude.{
  ◌⊎◌, ℕ, zero, suc, ◌≡◌, refl, sym, ap, ◌∙◌, String, Bool, true, Option, none, some, List, [], ◌∷◌,
  arith, map, ◌==◌, string_eq, if◌then◌else◌, Option-cases, inl, inr,
}
use base_backend.Errors.{ok, err, sqlalchemy_error, invalid_sort_key}
use base_backend.Exec.{Exec}
use base_backend.Exec.Inversion.{Returns}
use base_backend.Redis.{Uuid}
use base_backend.Sql.{Table}
use base_backend.Pagination.{
  SortingMethod, BaseListRequest, PaginationMeta, pagination_offset, build_pagination_meta,
}
use mathlib.Core.List.{Memᴰ}

module _ {ℓ} {A : Type ℓ} where
  abbrev pub length : List A → ℕ
  length [] = 0
  length (x ∷ xs) = suc (length xs)

  abbrev pub take : ℕ → List A → List A
  take zero xs = []
  take (suc n) [] = []
  take (suc n) (x ∷ xs) = x ∷ take n xs

  abbrev pub drop : ℕ → List A → List A
  drop zero xs = xs
  drop (suc n) [] = []
  drop (suc n) (x ∷ xs) = drop n xs

abbrev pub All {ℓ κ} : {A : Type ℓ} → (A → Type κ) → List A → Type κ
All P [] = Unit
All P (x ∷ xs) = P x × All P xs

pub length-map {ℓ κ} :
    {A : Type ℓ} {B : Type κ} (f : A → B) (xs : List A) → length (map f xs) ≡ length xs
length-map f [] = refl
length-map f (x ∷ xs) = ap suc (length-map f xs)

-- No key stands twice.
abbrev pub Distinct : {R : Type 0} → List (Uuid × R) → Type 0
Distinct [] = Unit
Distinct ((k, r) ∷ rows) = All (λ x. ¬ (x.0 ≡ k)) rows × Distinct rows

-- `all` holds each row of `t` of which `P` holds, once and nothing else.
pub record Enumerates {R : Type 0} (P : Uuid → R → Type 0) (t : Table R) (all : List (Uuid × R))
    : Type 0 where
  pub distinct : Distinct all
  pub sound : All (λ x. (t (x.0) ≡ some (x.1)) × P (x.0) (x.1)) all
  pub complete : (k : Uuid) (r : R) → t k ≡ some r → P k r → Memᴰ (k, r) all

-- The rows under the keys `ks` of which `p` holds.
abbrev pub rows_where : {R : Type 0} → (Uuid → R → Bool) → Table R → List Uuid → List (Uuid × R)
rows_where p t [] = []
rows_where p t (k ∷ ks) =
    let rest = rows_where p t ks in
    elim (t k) [ none ↦ rest | some r ↦ if p k r then (k, r) ∷ rest else rest ]

-- The keys are all those of the rows of a table.
abbrev pub Covers : {R : Type 0} → List Uuid → Table R → Type 0
Covers {R} keys t = (k : Uuid) (r : R) → t k ≡ some r → Memᴰ k keys

-- `C` names the columns, `keys` are those of the joined tables, and `in_order` is the order of the database by
-- a column.
pub record Listing (C R : Type 0) : Type 0 where
  pub keys : List Uuid
  pub in_order : C → SortingMethod → List (Uuid × R) → Bool
  pub count : (Uuid → R → Bool) → Table R → Option ℕ
  pub count_done :
      (p : Uuid → R → Bool) (t : Table R) {n : ℕ}
      → count p t ≡ some n
      → n ≡ length (rows_where p t keys)
  pub select : (Uuid → R → Bool) → C → SortingMethod → ℕ → ℕ → Table R → Option (List (Uuid × R))
  pub select_done :
      (p : Uuid → R → Bool) (c : C) (m : SortingMethod) (offset limit : ℕ) (t : Table R)
      {page : List (Uuid × R)}
      → Covers keys t
      → select p c m offset limit t ≡ some page
      → (all : List (Uuid × R)) × Enumerates (λ k r. p k r ≡ true) t all
        × (length all ≡ length (rows_where p t keys))
        × (in_order c m all ≡ true)
        × (page ≡ take limit (drop offset all))

-- The columns by name, in the order of their names, which is the one of `sorted(sort_columns)`.
abbrev pub find_column : {C : Type 0} → List (String × C) → String → Option C
find_column [] name = none
find_column ((k, c) ∷ rest) name = if name == k then some c else find_column rest name

abbrev pub column_names : {C : Type 0} → List (String × C) → List String
column_names [] = []
column_names ((k, c) ∷ rest) = k ∷ column_names rest

-- Which rows stand on a page that is listed by the keys of `columns`, and what its meta data tells: all rows
-- of `t` of which `P` holds are put in order, and the page is cut from them.
pub record IsPage {C R : Type 0} (sql : Listing C R) (columns : List (String × C))
    (P : Uuid → R → Type 0) (t : Table R) (request : BaseListRequest) (page : List (Uuid × R))
    (meta : PaginationMeta) : Type 0 where
  pub all : List (Uuid × R)
  pub enumerates : Enumerates P t all
  pub ordered :
      (all ≡ [])
      ⊎ ((c : C) × (find_column columns request.sort_key ≡ some c)
          × (sql.in_order c request.sorting_method all ≡ true))
  pub cut : page ≡ take request.limit (drop (pagination_offset request) all)
  pub total : meta.total_items ≡ length all
  pub pages : meta ≡ build_pagination_meta request.page_number request.limit (length all)

abbrev pub apply_sorting : {C S : Type 0} → List (String × C) → String → Exec S C
apply_sorting sort_columns sort_key s = elim (find_column sort_columns sort_key) [
  | none ↦ (err (invalid_sort_key sort_key (column_names sort_columns)), s)
  | some column ↦ (ok column, s)
]

pub apply_sorting-Returns :
    {C S : Type 0} (columns : List (String × C)) (key : String) (s : S) {c : C} {s' : S}
    → Returns (apply_sorting columns key) s c s'
    → (find_column columns key ≡ some c) × (s' ≡ s)
apply_sorting-Returns columns key s h = elim (Option-cases (find_column columns key)) [
  | inl unknown ↦ absurd (ground arith)
  | inr (c, e) ↦ ground arith
]

module _ {C R : Type 0} (sql : Listing C R) (p : Uuid → R → Bool) where
  unfoldable pub count_rows : Exec (Table R) ℕ
  count_rows t = elim (sql.count p t) [ none ↦ (err sqlalchemy_error, t) | some n ↦ (ok n, t) ]

  unfoldable pub select_page : C → SortingMethod → ℕ → ℕ → Exec (Table R) (List (Uuid × R))
  select_page c m offset limit t = elim (sql.select p c m offset limit t) [
    | none ↦ (err sqlalchemy_error, t)
    | some page ↦ (ok page, t)
  ]

  pub count_rows-Returns :
      (t : Table R) {n : ℕ} {t' : Table R}
      → Returns count_rows t n t'
      → n ≡ length (rows_where p t sql.keys)
  unfolding count_rows
  count_rows-Returns t h = elim (Option-cases (sql.count p t)) [
    | inl failed ↦ absurd (ground arith)
    | inr (n, e) ↦ ground (arith, sql.count_done p t e)
  ]

  select_page-Returns :
      (c : C) (m : SortingMethod) (offset limit : ℕ) (t : Table R) {page : List (Uuid × R)}
      {t' : Table R}
      → Returns (select_page c m offset limit) t page t'
      → sql.select p c m offset limit t ≡ some page
  unfolding select_page
  select_page-Returns c m offset limit t h = elim (Option-cases (sql.select p c m offset limit t)) [
    | inl failed ↦ absurd (ground arith)
    | inr (rows, e) ↦ ground arith
  ]

-- A count and a page of one condition make the page of a listing.
pub listed-IsPage :
    {C R : Type 0} (sql : Listing C R) (columns : List (String × C)) (p : Uuid → R → Bool)
    (t : Table R) (request : BaseListRequest) {c : C} {total : ℕ} {page : List (Uuid × R)}
    {t' t'' : Table R}
    → Covers sql.keys t
    → find_column columns request.sort_key ≡ some c
    → Returns (count_rows sql p) t total t'
    → Returns
        (select_page sql p c request.sorting_method (pagination_offset request) request.limit)
        t
        page
        t''
    → IsPage sql columns
        (λ k r. p k r ≡ true)
        t
        request
        page
        (build_pagination_meta request.page_number request.limit total)
unfolding build_pagination_meta
listed-IsPage sql columns p t request {c} {total} covers column counted selected =
    let n = count_rows-Returns sql p t counted in
    let (all, each, size, in_order, cut) =
      sql.select_done p c request.sorting_method (pagination_offset request) request.limit t covers
        (select_page-Returns sql p c request.sorting_method (pagination_offset request)
          request.limit t selected) in
    record {
      all = all;
      enumerates = each;
      ordered = inr (c, column, in_order);
      cut = cut;
      total = n ∙ sym size;
      pages = ap (build_pagination_meta request.page_number request.limit) (n ∙ sym size);
    }

All-iff {ℓ κ} :
    {A : Type ℓ} (P Q : A → Type κ) (xs : List A) → ((x : A) → P x → Q x) → All P xs → All Q xs
All-iff P Q [] f h = tt
All-iff P Q (x ∷ xs) f (h, hs) = (f x h, All-iff P Q xs f hs)

-- A condition may be put for an equivalent one.
pub Enumerates-iff :
    {R : Type 0} (P Q : Uuid → R → Type 0) (t : Table R) (all : List (Uuid × R))
    → ((k : Uuid) (r : R) → t k ≡ some r → (P k r → Q k r) × (Q k r → P k r))
    → Enumerates P t all
    → Enumerates Q t all
Enumerates-iff P Q t all same e = record {
  distinct = e.distinct;
  sound =
      All-iff (λ x. (t (x.0) ≡ some (x.1)) × P (x.0) (x.1))
        (λ x. (t (x.0) ≡ some (x.1)) × Q (x.0) (x.1)) all
        (λ x (here, holds). (here, (same (x.0) (x.1) here).0 holds)) e.sound;
  complete = λ k r here holds. e.complete k r here ((same k r here).1 holds);
}

pub IsPage-iff :
    {C R : Type 0} (sql : Listing C R) (columns : List (String × C)) (P Q : Uuid → R → Type 0)
    (t : Table R) (request : BaseListRequest) {page : List (Uuid × R)} {meta : PaginationMeta}
    → ((k : Uuid) (r : R) → t k ≡ some r → (P k r → Q k r) × (Q k r → P k r))
    → IsPage sql columns P t request page meta
    → IsPage sql columns Q t request page meta
IsPage-iff sql columns P Q t request same x = record {
  all = x.all;
  enumerates = Enumerates-iff P Q t x.all same x.enumerates;
  ordered = x.ordered;
  cut = x.cut;
  total = x.total;
  pages = x.pages;
}
