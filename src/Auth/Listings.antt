-- ===== src/Auth/Listings.antt =====
-- The listing of sessions: `count_sessions_for_user` and `list_sessions_for_user` of
-- app/modules/auth/infrastructure/sqlalchemy_repositories.py, and
-- app/modules/auth/application/use_cases/get_sessions.py. A row is a session with the device that its
-- relationship loads.
pub mod Own
use base_backend.Prelude.{
  ℕ, String, Bool, true, false, ◌&&◌, Option, none, some, List, [], ◌∷◌, is_some, is_none, ◌==◌,
  nat_eq, string_eq, map_option, map, if◌then◌else◌,
}
use base_backend.Errors.{Result, ok, err, value_error}
use base_backend.Exec.{Exec, pure, lift, on, ◌>>=◌, ◌>>◌}
use base_backend.Redis.{Time, Uuid}
use base_backend.Sql.{Table}
use base_backend.World.{UserDeviceModel, UserSessionModel, Db, World}
use base_backend.Auth.{UserDevice, UserSession}
use base_backend.Auth.Repository.{device_entity, session_entity}
use base_backend.Pagination.{
  SortingMethod, BaseListRequest, PaginationMeta, pagination_offset, build_pagination_meta,
}
use base_backend.Pagination.Listing.{Listing, apply_sorting, count_rows, select_page}

abbrev pub SessionRow : Type 0
SessionRow = UserSessionModel × Option UserDeviceModel

abbrev pub with_device : Db → Table SessionRow
with_device db k = map_option (λ m. (m, db.devices m.user_device_id)) (db.sessions k)

-- The keys of `_SESSION_SORT_COLUMNS`.
pub data SessionColumn : Type 0 where
  by_id by_user_id by_user_device_id by_refresh_token_hash by_expires_at by_created_at
        by_last_active_at by_revoked_at :
      SessionColumn

abbrev pub session_sort_columns : List (String × SessionColumn)
session_sort_columns =
    ("created_at", by_created_at)
    ∷ ("expires_at", by_expires_at)
    ∷ ("id", by_id)
    ∷ ("last_active_at", by_last_active_at)
    ∷ ("refresh_token_hash", by_refresh_token_hash)
    ∷ ("revoked_at", by_revoked_at)
    ∷ ("user_device_id", by_user_device_id)
    ∷ ("user_id", by_user_id)
    ∷ []

pub record DeviceDto : Type 0 where
  pub id : Uuid
  pub client_device_id : String
  pub os : String
  pub os_version : String
  pub model : String
  pub app_version : String
  pub push_provider : Option String
  pub has_notification_token : Bool

pub record SessionDto : Type 0 where
  pub id : Uuid
  pub user_id : Uuid
  pub refresh_token_hash : String
  pub device : DeviceDto
  pub created_at : Time
  pub expires_at : Time
  pub last_active : Time
  pub revoked_at : Option Time
  pub is_revoked : Bool

pub record SessionsPageDto : Type 0 where
  pub items : List SessionDto
  pub pagination : PaginationMeta

abbrev pub device_dto : UserDevice → DeviceDto
device_dto d = record {
  id = d.id;
  client_device_id = d.client_device_id;
  os = d.os;
  os_version = d.os_version;
  model = d.model;
  app_version = d.app_version;
  push_provider = d.push_provider;
  has_notification_token = is_some d.push_token;
}

abbrev of_device : UserSession → Option UserDevice → Result SessionDto
of_device s none = err value_error
of_device s (some d) = ok (record {
  id = s.id;
  user_id = s.user_id;
  refresh_token_hash = s.refresh_token_hash;
  device = device_dto d;
  created_at = s.created_at;
  expires_at = s.expires_at;
  last_active = s.last_active_at;
  revoked_at = s.revoked_at;
  is_revoked = is_some s.revoked_at;
})

-- `SessionDto.from_entity`
abbrev pub session_dto : UserSession → Result SessionDto
session_dto s = of_device s s.user_device

abbrev pub cons_ok : Result SessionDto → Result (List SessionDto) → Result (List SessionDto)
cons_ok (err e) rest = err e
cons_ok (ok d) (err e) = err e
cons_ok (ok d) (ok ds) = ok (d ∷ ds)

-- `[SessionDto.from_entity(row) for row in rows]`
unfoldable pub session_dtos : List UserSession → Result (List SessionDto)
session_dtos [] = ok []
session_dtos (s ∷ ss) = cons_ok (session_dto s) (session_dtos ss)

-- `revoked_at IS NULL`, `IS NOT NULL`, or no condition.
abbrev pub activity : Option Bool → UserSessionModel → Bool
activity none m = true
activity (some true) m = is_none m.revoked_at
activity (some false) m = is_some m.revoked_at

abbrev pub session_conditions : Uuid → Option Bool → Uuid → SessionRow → Bool
session_conditions user_id is_active k (m, device) = (m.user_id == user_id) && activity is_active m

module _ (sql : Listing SessionColumn SessionRow) where
  -- A statement on the rows, which it does not write.
  abbrev on_rows : {A : Type 0} → Exec (Table SessionRow) A → Exec World A
  on_rows = on (λ w. with_device w.db) (λ t w. w)

  unfoldable pub count_sessions_for_user : Uuid → Option Bool → Exec World ℕ
  count_sessions_for_user user_id is_active =
      on_rows (count_rows sql (session_conditions user_id is_active))

  -- `_session_entity(row, include_device=True)`
  abbrev pub session_from_row : Uuid × SessionRow → UserSession
  session_from_row (k, (m, device)) =
      session_entity k m (map_option (device_entity m.user_device_id) device)

  unfoldable pub list_sessions_for_user :
      Uuid → ℕ → ℕ → Option Bool → String → SortingMethod → Exec World (List UserSession)
  list_sessions_for_user user_id offset limit is_active sort_key sorting_method = do
    column ← apply_sorting session_sort_columns sort_key
    rows ←
        on_rows (
          select_page sql (session_conditions user_id is_active) column sorting_method offset limit)
    pure (map session_from_row rows)

  unfoldable pub get_sessions : Uuid → BaseListRequest → Option Bool → Exec World SessionsPageDto
  get_sessions user_id request is_active = do
    total ← count_sessions_for_user user_id is_active
    rows ←
        list_sessions_for_user user_id (pagination_offset request) request.limit is_active
          request.sort_key request.sorting_method
    items ← lift (session_dtos rows)
    pure (record {
      items = items;
      pagination = build_pagination_meta request.page_number request.limit total;
    })
