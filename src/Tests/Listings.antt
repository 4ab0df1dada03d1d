-- ===== src/Tests/Listings.antt =====
-- The listings on a concrete backend.
use base_backend.Users.Listings.Rows.{users_with_profiles}
use mathlib.Core.List.{Memᴰ}
use mathlib.Core.List.Memᴰ
use base_backend.Prelude.{
  ap, subst, arith, ◌==◌, ◌≡◌, refl, sym, inl, inr, Bool, true, none, some, List, [], ◌∷◌, String,
  Bool-cases, Option-cases, nat_eq, string_eq,
}
use base_backend.Errors.{Result, ok, err}
use base_backend.Exec.Inversion.{Returns}
use base_backend.Redis.{Uuid}
use base_backend.Sql.{Table}
use base_backend.Authorization.{admin, role_eq, status_eq}
use base_backend.Users.{user_dto}
use base_backend.Users.Repository.{to_entity}
use base_backend.Pagination.{
  asc, BaseListRequest, pagination_offset, pagination_total_pages, ceil_div, build_pagination_meta,
}
use base_backend.Pagination.Listing.{
  length, take, drop, All, Distinct, rows_where, Covers, Listing, count_rows, select_page,
}
use base_backend.Users.Listings.{
  UserColumn, UserRow, UserListRequest, UsersPageDto, count_users, list_users, list_page,
  users_page, get_users,
}
use base_backend.Users.Listings.Shown.{IsUsersPage, get_users-Returns}
use base_backend.Auth.Repository.{session_entity}
use base_backend.Auth.Listings.{
  SessionColumn, SessionRow, SessionsPageDto, session_dtos, count_sessions_for_user,
  list_sessions_for_user, get_sessions,
}
use base_backend.Auth.Listings.Own.{sessions_with_devices, IsSessionsPage, get_sessions-Returns}
use base_backend.Tests.Database.{same_value}
use base_backend.Tests.Fixtures.{ann, signed_in}

abbrev AllDistinct : List Uuid → Type 0
AllDistinct [] = Unit
AllDistinct (k ∷ ks) = All (λ x. ¬ (x ≡ k)) ks × AllDistinct ks

-- A listing of the rows with the keys `ks`, in their order.
module _ {R : Type 0} (p : Uuid → R → Bool) (t : Table R) where
  -- What holds of all keys holds of those of the rows.
  All-keys :
      (P : Uuid → Type 0) (ks : List Uuid) → All P ks → All (λ x. P (x.0)) (rows_where p t ks)
  All-keys P [] h = tt
  All-keys P (k ∷ ks) (h, hs) = elim (Option-cases (t k)) [
    | inl missing ↦ rw (missing, rows_where) (All-keys P ks hs)
    | inr (r, here) ↦ elim (Bool-cases (p k r)) [
      | inl yes_ ↦ rw (here, yes_, rows_where) (h, All-keys P ks hs)
      | inr no_ ↦ rw (here, no_, rows_where) (All-keys P ks hs)
    ]
  ]

  Distinct-rows_where : (ks : List Uuid) → AllDistinct ks → Distinct (rows_where p t ks)
  Distinct-rows_where [] h = tt
  Distinct-rows_where (k ∷ ks) (h, hs) = elim (Option-cases (t k)) [
    | inl missing ↦ rw (missing, rows_where) (Distinct-rows_where ks hs)
    | inr (r, here) ↦ elim (Bool-cases (p k r)) [
      | inl yes_ ↦
          rw (here, yes_, rows_where) (All-keys (λ x. ¬ (x ≡ k)) ks h, Distinct-rows_where ks hs)
      | inr no_ ↦ rw (here, no_, rows_where) (Distinct-rows_where ks hs)
    ]
  ]

  sound-rows_where :
      (ks : List Uuid)
      → All (λ x. (t (x.0) ≡ some (x.1)) × (p (x.0) (x.1) ≡ true)) (rows_where p t ks)
  sound-rows_where [] = tt
  sound-rows_where (k ∷ ks) = elim (Option-cases (t k)) [
    | inl missing ↦ rw (missing, rows_where) (sound-rows_where ks)
    | inr (r, here) ↦ elim (Bool-cases (p k r)) [
      | inl yes_ ↦ rw (here, yes_, rows_where) ((here, yes_), sound-rows_where ks)
      | inr no_ ↦ rw (here, no_, rows_where) (sound-rows_where ks)
    ]
  ]

  complete-rows_where :
      (ks : List Uuid) (k : Uuid) (r : R)
      → Memᴰ k ks
      → t k ≡ some r
      → p k r ≡ true
      → Memᴰ (k, r) (rows_where p t ks)
  complete-rows_where [] k r m here holds = absurd (Memᴰ.not-nil m)
  complete-rows_where (x ∷ ks) k r (Memᴰ.head e) here holds =
      let here' : t x ≡ some r = subst (λ y. t y ≡ some r) e here in
      let holds' : p x r ≡ true = subst (λ y. p y r ≡ true) e holds in
      rw (here', holds', rows_where) (Memᴰ.head (ap (λ (y : Uuid). (y, r)) e))
  complete-rows_where (x ∷ ks) k r (Memᴰ.tail m) here holds =
      let rest = complete-rows_where ks k r m here holds in
      elim (Option-cases (t x)) [
        | inl missing ↦ rw (missing, rows_where) rest
        | inr (y, there) ↦ elim (Bool-cases (p x y)) [
          | inl yes_ ↦ rw (there, yes_, rows_where) (Memᴰ.tail rest)
          | inr no_ ↦ rw (there, no_, rows_where) rest
        ]
      ]

abbrev listing : {C R : Type 0} → (ks : List Uuid) → AllDistinct ks → Listing C R
listing ks distinct = record {
  keys = ks;
  in_order = λ c m rows. true;
  count = λ p t. some (length (rows_where p t ks));
  count_done = λ p t h. sym (same_value h);
  select = λ p c m offset limit t. some (take limit (drop offset (rows_where p t ks)));
  select_done = λ p c m offset limit t covers h. (
    rows_where p t ks,
    record {
      distinct = Distinct-rows_where p t ks distinct;
      sound = sound-rows_where p t ks;
      complete = λ k r here holds. complete-rows_where p t ks k r (covers k r here) here holds;
    },
    refl,
    refl,
    sym (same_value h),
  );
}

abbrev first_page : String → BaseListRequest
first_page key = record { page_number = 1; limit = 1; sorting_method = asc; sort_key = key }

abbrev everyone : UserListRequest
everyone = record {
  page = first_page "created_at";
  filters = record {
    role = none;
    status = none;
    is_verified = some true;
    is_profile_completed = none;
    created_at_from = none;
    created_at_to = some 5;
    search = some "";
  };
}

abbrev strip : String → String
strip s = s

abbrev ilike : String → String → Bool
ilike pattern s = true

abbrev user_rows : Listing UserColumn UserRow
user_rows = listing (1 ∷ 2 ∷ []) (((λ e. omega arith), tt), (tt, tt))

abbrev ann_page : UsersPageDto
ann_page = record {
  items = user_dto (to_entity 1 ann none) ∷ [];
  pagination = build_pagination_meta 1 1 2;
}

users_shown : Returns (get_users strip ilike user_rows admin everyone) signed_in ann_page signed_in
unfolding get_users users_page list_page count_users list_users count_rows select_page
    pagination_offset build_pagination_meta pagination_total_pages ceil_div user_dto to_entity
users_shown = refl

Covers-users : Covers (user_rows.keys) (users_with_profiles signed_in)
Covers-users u r h = elim (Bool-cases (u == 1)) [
  | inl first ↦ Memᴰ.head ((nat_eq.equal_iff u 1).0 first)
  | inr other ↦ elim (Bool-cases (u == 2)) [
    | inl second ↦ Memᴰ.tail (Memᴰ.head ((nat_eq.equal_iff u 2).0 second))
    | inr neither ↦ absurd (ground arith)
  ]
]

get_users-Returns_example :
    IsUsersPage strip ilike user_rows signed_in admin everyone ann_page signed_in
get_users-Returns_example =
    get_users-Returns strip ilike user_rows signed_in admin everyone Covers-users users_shown

abbrev session_rows : Listing SessionColumn SessionRow
session_rows =
    listing (21 ∷ 22 ∷ 23 ∷ [])
      ((λ e. omega arith, (λ e. omega arith, tt)), ((λ e. omega arith, tt), (tt, tt)))

abbrev or_no_page : Result SessionsPageDto → SessionsPageDto
or_no_page (ok d) = d
or_no_page (err e) = record { items = []; pagination = build_pagination_meta 1 1 0 }

abbrev active_sessions : SessionsPageDto
active_sessions =
    or_no_page (get_sessions session_rows 1 (first_page "expires_at") (some true) signed_in).0

sessions_shown :
    Returns
      (get_sessions session_rows 1 (first_page "expires_at") (some true))
      signed_in
      active_sessions
      signed_in
unfolding get_sessions count_sessions_for_user list_sessions_for_user count_rows select_page
    session_dtos session_entity pagination_offset build_pagination_meta pagination_total_pages
    ceil_div
sessions_shown = refl

one_active : length active_sessions.items ≡ 1
unfolding get_sessions count_sessions_for_user list_sessions_for_user count_rows select_page
    session_dtos session_entity pagination_offset build_pagination_meta pagination_total_pages
    ceil_div
one_active = refl

Covers-sessions : Covers (session_rows.keys) (sessions_with_devices signed_in)
Covers-sessions u r h = elim (Bool-cases (u == 21)) [
  | inl first ↦ Memᴰ.head ((nat_eq.equal_iff u 21).0 first)
  | inr other ↦ elim (Bool-cases (u == 22)) [
    | inl second ↦ Memᴰ.tail (Memᴰ.head ((nat_eq.equal_iff u 22).0 second))
    | inr more ↦ elim (Bool-cases (u == 23)) [
      | inl third ↦ Memᴰ.tail (Memᴰ.tail (Memᴰ.head ((nat_eq.equal_iff u 23).0 third)))
      | inr none_ ↦ absurd (ground arith)
    ]
  ]
]

get_sessions-Returns_example :
    IsSessionsPage session_rows signed_in 1
      (some true)
      (first_page "expires_at")
      active_sessions
      signed_in
get_sessions-Returns_example =
    get_sessions-Returns session_rows signed_in 1 (some true) (first_page "expires_at")
      Covers-sessions sessions_shown
