-- ===== src/Users/Listings/Rows.antt =====
-- The rows of a listing of users.
use base_backend.Prelude.{
  ◌≡◌, ◌∙◌, ap, sym, subst, refl, String, Bool, true, List, [], ◌∷◌, map, map_option, nat_eq,
}
use base_backend.Exec.{on}
use base_backend.Exec.Inversion.{Returns, bind-ok, pure-Returns, on-Returns}
use base_backend.Redis.{Uuid}
use base_backend.Sql.{Table}
use base_backend.World.{World}
use base_backend.Users.{User, UserDto, user_dto}
use base_backend.Users.Repository.{to_entity}
use base_backend.Pagination.{pagination_offset, build_pagination_meta}
use base_backend.Pagination.Listing.{
  Covers, Listing, IsPage, apply_sorting, apply_sorting-Returns, count_rows, select_page,
  listed-IsPage,
}
use base_backend.Users.Listings.{
  UserRow, joined, UserColumn, user_sort_columns, UserFilters, UserListRequest, UsersPageDto,
  user_conditions, count_users, user_from_row, list_users, list_page,
}
use base_backend.Users.Listings.Asked.{uploaded, uploaded-completed_at}

-- The rows of the users, each with its profile if it has one.
abbrev pub users_with_profiles : World → Table UserRow
users_with_profiles w u = map_option (λ m. (m, w.db.profiles u)) (w.db.users u)

-- A row as it is shown.
abbrev pub shown_user : Uuid × UserRow → UserDto
shown_user (u, (m, profile)) = record {
  id = u;
  email = m.email;
  role = m.role;
  status = m.status;
  is_verified = m.is_verified;
  created_at = m.created_at;
  is_user_data_uploaded = uploaded profile;
}

module _ (strip : String → String) (ilike : String → String → Bool)
    (sql : Listing UserColumn UserRow) (w : World) where
  user_dto-row :
      (row : Uuid × UserRow) → user_dto (user_from_row strip ilike sql row) ≡ shown_user row
  unfolding user_dto to_entity
  user_dto-row (u, (m, profile)) =
      ap (λ (b : Bool). record (shown_user (u, (m, profile))) { is_user_data_uploaded = b })
        (uploaded-completed_at profile)

  user_dto-rows :
      (rows : List (Uuid × UserRow))
      → map user_dto (map (user_from_row strip ilike sql) rows) ≡ map shown_user rows
  user_dto-rows [] = refl
  user_dto-rows (row ∷ rows) = cc (user_dto-row row, user_dto-rows rows)

  -- A page that is listed has the rows of the conditions.
  pub list_page-Returns :
      (request : UserListRequest) (f : UserFilters) {d : UsersPageDto} {w' : World}
      → Covers sql.keys (users_with_profiles w)
      → Returns (list_page strip ilike sql request f) w d w'
      → (rows : List (Uuid × UserRow)) × IsPage sql user_sort_columns
          (λ u r. user_conditions strip ilike f u r ≡ true)
          (users_with_profiles w)
          request.page
          rows
          d.pagination
        × (d.items ≡ map shown_user rows)
        × (w' ≡ w)
  unfolding list_page list_users count_users
  list_page-Returns request f {d} {w'} covers h =
      let p = user_conditions strip ilike f in
      let rows_of = λ (x : World). joined x.db in
      let count = on rows_of (λ t (x : World). x) (count_rows sql p) in
      let list =
        list_users strip ilike sql f (pagination_offset request.page) request.page.limit
          request.page.sort_key request.page.sorting_method in
      let (total, w1, e1, r1) = bind-ok count _ w h in
      let (us, w2, e2, r2) = bind-ok list _ w1 r1 in
      let (_, counted, g1) = on-Returns rows_of (λ t (x : World). x) (count_rows sql p) w e1 in
      let (c, w3, e3, r3) =
        bind-ok (apply_sorting user_sort_columns request.page.sort_key) _ w
          (subst (λ y. Returns list y us w2) g1 e2) in
      let select =
        select_page sql p c request.page.sorting_method (pagination_offset request.page)
          request.page.limit in
      let (column, g3) = apply_sorting-Returns user_sort_columns request.page.sort_key w e3 in
      let (rows, w4, e4, r4) = bind-ok (on rows_of (λ t (x : World). x) select) _ w3 r3 in
      let (_, selected, g4) =
        on-Returns rows_of (λ t (x : World). x) select w
          (subst (λ y. Returns (on rows_of (λ t (x : World). x) select) y rows w4) g3 e4) in
      let (e5, g5) = pure-Returns (map (user_from_row strip ilike sql) rows) w4 r4 in
      let page : UsersPageDto = record {
        items = map user_dto us;
        pagination = build_pagination_meta request.page.page_number request.page.limit total;
      } in
      let (e6, g6) = pure-Returns page w2 r2 in
      (
        rows,
        subst
            (λ (x : UsersPageDto).
              IsPage sql user_sort_columns (λ u r. p u r ≡ true) (users_with_profiles w)
                request.page rows x.pagination)
            e6
            (listed-IsPage sql user_sort_columns p (joined w.db) request.page covers column counted
              selected),
        sym (ap (λ (x : UsersPageDto). x.items) e6)
            ∙ ap (λ (x : List User). map user_dto x) (sym e5)
            ∙ user_dto-rows rows,
        g6 ∙ g5 ∙ g4,
      )
