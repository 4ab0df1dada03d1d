-- ===== src/Users/Listings.antt =====
-- The listing of users: `count_users` and `list_users` of
-- app/modules/users/infrastructure/sqlalchemy_repositories.py, and
-- app/modules/users/application/use_cases/get_users.py. `strip` is `str.strip`, and `ilike` is the operator of
-- PostgreSQL, pattern first. A row is one of the outer join of users and profiles.
pub mod Asked
pub mod Rows
pub mod Shown
use base_backend.Prelude.{
  ℕ, ◌-◌, String, Bool, true, false, ◌&&◌, ◌||◌, Option, none, some, List, [], ◌∷◌, map, leb,
  is_some, is_none, ◌==◌, nat_eq, string_eq, map_option, if◌then◌else◌,
}
use Prim.Native.String.{◌++◌ as ◌<>◌}
use base_backend.Exec.{Exec, pure, on, ◌>>=◌, ◌>>◌}
use base_backend.Redis.{Time, Uuid}
use base_backend.Sql.{Table}
use base_backend.Authorization.{UserRole, UserStatus, super_admin, user, role_eq, status_eq}
use base_backend.World.{UserModel, UserProfileModel, Db, World}
use base_backend.Users.{User, UserDto, user_dto}
use base_backend.Users.Repository.{to_entity, completed_at}
use base_backend.Pagination.{
  SortingMethod, BaseListRequest, PaginationMeta, pagination_offset, build_pagination_meta,
}
use base_backend.Pagination.Listing.{Listing, apply_sorting, count_rows, select_page}

abbrev pub UserRow : Type 0
UserRow = UserModel × Option UserProfileModel

abbrev pub joined : Db → Table UserRow
joined db k = map_option (λ m. (m, db.profiles k)) (db.users k)

-- The keys of `_USER_SORT_COLUMNS`.
pub data UserColumn : Type 0 where
  by_id by_email by_role by_status by_authorization_version by_is_verified by_created_at
        by_full_name by_phone_number :
      UserColumn

abbrev pub user_sort_columns : List (String × UserColumn)
user_sort_columns =
    ("authorization_version", by_authorization_version)
    ∷ ("created_at", by_created_at)
    ∷ ("email", by_email)
    ∷ ("full_name", by_full_name)
    ∷ ("id", by_id)
    ∷ ("is_verified", by_is_verified)
    ∷ ("phone_number", by_phone_number)
    ∷ ("role", by_role)
    ∷ ("status", by_status)
    ∷ []

pub record UserFilters : Type 0 where
  pub role : Option UserRole
  pub status : Option UserStatus
  pub is_verified : Option Bool
  pub is_profile_completed : Option Bool
  pub created_at_from : Option Time
  pub created_at_to : Option Time
  pub search : Option String

-- `UserListRequest`.
pub record UserListRequest : Type 0 where
  pub page : BaseListRequest
  pub filters : UserFilters

pub record UsersPageDto : Type 0 where
  pub items : List UserDto
  pub pagination : PaginationMeta

-- A condition that is added only if its value is not `None`.
abbrev pub if_given : {A : Type 0} → Option A → (A → Bool) → Bool
if_given none p = true
if_given (some a) p = p a

abbrev pub same_bool : Bool → Bool → Bool
same_bool true b = b
same_bool false true = false
same_bool false false = true

abbrev pub phone_of : Option UserProfileModel → Option String
phone_of none = none
phone_of (some p) = p.phone_number

-- `NULL ILIKE pattern` does not hold.
abbrev pub ilike_or_null : (String → String → Bool) → String → Option String → Bool
ilike_or_null ilike pattern none = false
ilike_or_null ilike pattern (some s) = ilike pattern s

module _ (strip : String → String) (ilike : String → String → Bool) where
  abbrev pub matches_search : String → UserRow → Bool
  matches_search search (m, profile) =
      let pattern = "%" <> (strip search <> "%") in
      ilike pattern m.email
      || (ilike_or_null ilike pattern (map_option (λ (p : UserProfileModel). p.full_name) profile)
          || ilike_or_null ilike pattern (phone_of profile))

  -- `_user_conditions`, all of which hold of a row that is shown.
  abbrev pub user_conditions : UserFilters → Uuid → UserRow → Bool
  user_conditions f k (m, profile) =
      if_given f.role (λ role. m.role == role)
      && (if_given f.status (λ status. m.status == status)
          && (if_given f.is_verified (same_bool m.is_verified)
              && (if_given f.is_profile_completed (same_bool (is_some (completed_at profile)))
                  && (if_given f.created_at_from (λ from. leb from m.created_at)
                      && (if_given f.created_at_to (λ to. leb m.created_at to)
                          && if_given f.search (λ search.
                            if search == "" then true else matches_search search (m, profile)))))))

  module _ (sql : Listing UserColumn UserRow) where
    -- A statement on the joined rows, which it does not write.
    abbrev on_rows : {A : Type 0} → Exec (Table UserRow) A → Exec World A
    on_rows = on (λ w. joined w.db) (λ t w. w)

    unfoldable pub count_users : UserFilters → Exec World ℕ
    count_users f = on_rows (count_rows sql (user_conditions f))

    abbrev pub user_from_row : Uuid × UserRow → User
    user_from_row (id, (m, profile)) = to_entity id m (completed_at profile)

    unfoldable pub list_users :
        UserFilters → ℕ → ℕ → String → SortingMethod → Exec World (List User)
    list_users f offset limit sort_key sorting_method = do
      column ← apply_sorting user_sort_columns sort_key
      rows ← on_rows (select_page sql (user_conditions f) column sorting_method offset limit)
      pure (map user_from_row rows)

    -- The first lines of `execute`: `none` is the empty page, and else the filter on the role.
    abbrev pub role_filter : UserRole → Option UserRole → Option (Option UserRole)
    role_filter actor_role requested_role =
        if actor_role == super_admin
        then some requested_role
        else if if_given requested_role (λ r. r == user)
        then some (some user)
        else none

    unfoldable pub list_page : UserListRequest → UserFilters → Exec World UsersPageDto
    list_page request f = do
      total ← count_users f
      rows ←
          list_users f (pagination_offset request.page) request.page.limit request.page.sort_key
            request.page.sorting_method
      pure (record {
        items = map user_dto rows;
        pagination = build_pagination_meta request.page.page_number request.page.limit total;
      })

    -- The rest of `execute`, on what the role filter is.
    unfoldable pub users_page : UserListRequest → Option (Option UserRole) → Exec World UsersPageDto
    users_page request none = pure (record {
      items = [];
      pagination = build_pagination_meta request.page.page_number request.page.limit 0;
    })
    users_page request (some role) = list_page request (record (request.filters) { role = role })

    unfoldable pub get_users : UserRole → UserListRequest → Exec World UsersPageDto
    get_users actor_role request = users_page request (role_filter actor_role request.filters.role)
