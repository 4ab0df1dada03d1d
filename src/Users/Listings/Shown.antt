-- ===== src/Users/Listings/Shown.antt =====
-- Whom a listing shows, and how many.
use base_backend.Prelude.{
  ℕ, zero, suc, ◌≡◌, ◌⊎◌, inl, inr, sym, subst, refl, arith, String, Bool, true, false, Option,
  none, some, List, [], map, Bool-cases, ◌==◌, nat_eq,
}
use base_backend.Exec.Inversion.{Returns, pure-Returns}
use base_backend.Redis.{Uuid}
use base_backend.Authorization.{UserRole, super_admin, user, role_eq}
use base_backend.World.{UserModel, World}
use base_backend.Pagination.{pagination_offset, build_pagination_meta}
use base_backend.Pagination.Listing.{Covers, take, drop, Listing, IsPage, IsPage-iff}
use base_backend.Users.Listings.{
  UserRow, if_given, UserColumn, user_sort_columns, UserFilters, UserListRequest, UsersPageDto,
  user_conditions, users_page, get_users,
}
use base_backend.Users.Listings.Asked.{Given, IsAskedFor, user_conditions_iff}
use base_backend.Users.Listings.Rows.{users_with_profiles, shown_user, list_page-Returns}

module _ (strip : String → String) (ilike : String → String → Bool)
    (sql : Listing UserColumn UserRow) (w : World) where
  -- A user that an actor may see: one that the request asks for, and a plain user unless the actor is a
  -- super admin.
  abbrev pub MaySee : UserRole → UserFilters → Uuid → UserRow → Type 0
  MaySee actor f u (m, profile) =
      IsAskedFor strip ilike f m profile × ((actor ≡ super_admin) ⊎ (m.role ≡ user))

  super_sees :
      (actor : UserRole) (f : UserFilters) (u : Uuid) (r : UserRow)
      → actor ≡ super_admin
      → (user_conditions strip ilike f u r ≡ true → MaySee actor f u r)
        × (MaySee actor f u r → user_conditions strip ilike f u r ≡ true)
  super_sees actor f u (m, profile) top =
      let (there, back) = user_conditions_iff strip ilike f u m profile in
      (λ h. (there h, inl top), λ (asked, _). back asked)

  with_role_of :
      (f : UserFilters) (q : Option UserRole) (m : UserModel) (u : Uuid) (r : UserRow)
      → if_given q (λ x. x == user) ≡ true
      → r.0 ≡ m
      → (IsAskedFor strip ilike (record f { role = some user }) (r.0) (r.1)
          → IsAskedFor strip ilike (record f { role = q }) (r.0) (r.1) × (r.0.role ≡ user))
        × (IsAskedFor strip ilike (record f { role = q }) (r.0) (r.1) × (r.0.role ≡ user)
            → IsAskedFor strip ilike (record f { role = some user }) (r.0) (r.1))
  with_role_of f none m u (_, profile) plain e = (
    λ x. (
      record {
        role = tt;
        status = x.status;
        is_verified = x.is_verified;
        is_profile_completed = x.is_profile_completed;
        created_at_from = x.created_at_from;
        created_at_to = x.created_at_to;
        search = x.search;
      },
      x.role,
    ),
    λ (x, is_user). record {
      role = is_user;
      status = x.status;
      is_verified = x.is_verified;
      is_profile_completed = x.is_profile_completed;
      created_at_from = x.created_at_from;
      created_at_to = x.created_at_to;
      search = x.search;
    },
  )
  with_role_of f (some q) m u r plain e =
      let same : q ≡ user = (role_eq.equal_iff q user).0 plain in
      (
        λ x. (
          subst (λ y. IsAskedFor strip ilike (record f { role = some y }) (r.0) (r.1)) (sym same) x,
          x.role,
        ),
        λ (x, _).
            subst (λ y. IsAskedFor strip ilike (record f { role = some y }) (r.0) (r.1)) same x,
      )

  others_see :
      (actor : UserRole) (f : UserFilters) (u : Uuid) (r : UserRow)
      → (actor == super_admin) ≡ false
      → if_given f.role (λ x. x == user) ≡ true
      → (user_conditions strip ilike (record f { role = some user }) u r ≡ true
          → MaySee actor f u r)
        × (MaySee actor f u r
            → user_conditions strip ilike (record f { role = some user }) u r ≡ true)
  others_see actor f u (m, profile) below plain =
      let (there, back) =
        user_conditions_iff strip ilike (record f { role = some user }) u m profile in
      let (narrow, widen) = with_role_of f f.role m u (m, profile) plain refl in
      (λ h. let (a, e) = narrow (there h) in (a, inr e), λ x. back (widen (plain_user x)))
    where
      plain_user :
          MaySee actor f u (m, profile) → IsAskedFor strip ilike f m profile × (m.role ≡ user)
      plain_user (a, inl top) = absurd (ground (arith, role_eq.equal_iff actor super_admin))
      plain_user (a, inr e) = (a, e)

  -- Nobody may be seen who has not the role of a plain user, if that is asked for by one who is no super
  -- admin.
  nobody :
      (actor : UserRole) (f : UserFilters) (u : Uuid) (r : UserRow)
      → (actor == super_admin) ≡ false
      → if_given f.role (λ x. x == user) ≡ false
      → ¬ MaySee actor f u r
  nobody actor f u (m, profile) below other (a, inl top) =
      ground (arith, role_eq.equal_iff actor super_admin)
  nobody actor f u (m, profile) below other (a, inr e) = not_asked f.role other a.role
    where
      not_asked :
          (q : Option UserRole) → if_given q (λ x. x == user) ≡ false → ¬ Given q (λ x. m.role ≡ x)
      not_asked none h k = absurd (cc)
      not_asked (some q) h k = ground (arith, role_eq.equal_iff q user, k, e)

  pub record IsUsersPage (actor : UserRole) (request : UserListRequest) (d : UsersPageDto)
      (w' : World) : Type 0 where
    pub rows : List (Uuid × UserRow)
    pub page :
        IsPage sql user_sort_columns
          (MaySee actor request.filters)
          (users_with_profiles w)
          request.page
          rows
          d.pagination
    pub items : d.items ≡ map shown_user rows
    pub unchanged : w' ≡ w

  empty_page :
      (actor : UserRole) (request : UserListRequest) {d : UsersPageDto} {w' : World}
      → (actor == super_admin) ≡ false
      → if_given request.filters.role (λ x. x == user) ≡ false
      → Returns (users_page strip ilike sql request none) w d w'
      → IsUsersPage actor request d w'
  unfolding users_page build_pagination_meta
  empty_page actor request {d} {w'} below other h =
      let empty : UsersPageDto = record {
        items = [];
        pagination = build_pagination_meta request.page.page_number request.page.limit 0;
      } in
      let (e, g) = pure-Returns empty w h in
      subst (λ x. IsUsersPage actor request x w') e
        (record {
          rows = [];
          page = record {
            all = [];
            enumerates = record {
              distinct = tt;
              sound = tt;
              complete =
                  λ u r here sees. absurd (nobody actor request.filters u r below other sees);
            };
            ordered = inl refl;
            cut = cut_of_none request.page.limit (pagination_offset request.page);
            total = refl;
            pages = refl;
          };
          items = refl;
          unchanged = g;
        })
    where
      cut_of_none : (n k : ℕ) → ◌≡◌ {A = List (Uuid × UserRow)} [] (take n (drop k []))
      cut_of_none zero zero = refl
      cut_of_none (suc n) zero = refl
      cut_of_none zero (suc k) = refl
      cut_of_none (suc n) (suc k) = refl

  full_page :
      (actor : UserRole) (request : UserListRequest) (q : Option UserRole) {d : UsersPageDto}
      {w' : World}
      → Covers sql.keys (users_with_profiles w)
      → ((u : Uuid) (r : UserRow)
          → (user_conditions strip ilike (record (request.filters) { role = q }) u r ≡ true
              → MaySee actor request.filters u r)
            × (MaySee actor request.filters u r
                → user_conditions strip ilike (record (request.filters) { role = q }) u r ≡ true))
      → Returns (users_page strip ilike sql request (some q)) w d w'
      → IsUsersPage actor request d w'
  unfolding users_page
  full_page actor request q covers same h =
      let f = record (request.filters) { role = q } in
      let (rows, page, items, back) = list_page-Returns strip ilike sql w request f covers h in
      record {
        rows = rows;
        page =
            IsPage-iff sql user_sort_columns (λ u r. user_conditions strip ilike f u r ≡ true)
              (MaySee actor request.filters) (users_with_profiles w) request.page
              (λ u r _. same u r) page;
        items = items;
        unchanged = back;
      }

  -- A listing shows the users that the request asks for, each filter only if it is given, and to an actor
  -- that is no super admin the plain ones of these. They are put in the order of the column of the sort key;
  -- the page is cut from them at its offset and has at most the rows of its limit, and the total that its
  -- meta data tells is the number of all of them. Each is shown with the fields of its row and whether its
  -- profile is complete, and nothing is written. The keys of `sql` are those of the users.
  pub get_users-Returns :
      (actor : UserRole) (request : UserListRequest) {d : UsersPageDto} {w' : World}
      → Covers sql.keys (users_with_profiles w)
      → Returns (get_users strip ilike sql actor request) w d w'
      → IsUsersPage actor request d w'
  unfolding get_users
  get_users-Returns actor request {d} {w'} covers h = elim (Bool-cases (actor == super_admin)) [
    | inl top ↦
        full_page actor request request.filters.role covers
          (λ u r.
            super_sees actor request.filters u r ((role_eq.equal_iff actor super_admin).0 top))
          (rw top at h)
    | inr below ↦ elim (Bool-cases (if_given request.filters.role (λ x. x == user))) [
      | inl plain ↦
          full_page actor request (some user) covers
            (λ u r. others_see actor request.filters u r below plain) (rw (below, plain) at h)
      | inr other ↦ empty_page actor request below other (rw (below, other) at h)
    ]
  ]
