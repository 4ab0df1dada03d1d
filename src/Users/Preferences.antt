-- ===== src/Users/Preferences.antt =====
-- User preferences: the operations of `SqlAlchemyUserRepository` on them, and the use cases
-- create_user_preferences.py, update_user_preferences.py and get_user_preferences.py of
-- app/modules/users/application/use_cases. `now` is what `datetime.now(UTC)` returned. The language and the
-- theme of a row are texts, which need not be members of the enums.
pub mod Changes
pub mod Stored
use base_backend.Prelude.{
  String, Bool, true, false, not, Option, none, some, is_some, ◌==◌, nat_eq, string_eq,
  if◌then◌else◌,
}
use base_backend.Errors.{
  Result, ok, err, forbidden, user_not_found, user_preferences_already_exists,
  user_preferences_not_found, value_error,
}
use base_backend.Exec.{Exec, pure, raise, raise_if, or_raise, lift, ◌>>=◌, ◌>>◌}
use base_backend.Redis.{Time, Uuid}
use base_backend.Sql.{select_one, update_all, insert_row}
use base_backend.Authorization.{active, status_eq}
use base_backend.World.{
  UserPreferencesModel, World, Backend, on_preferences, commit, rollback, transaction,
}
use base_backend.Users.Repository.{get_by_id}

pub data UserLanguage : Type 0 where
  en ru kk : UserLanguage

pub data UserTheme : Type 0 where
  system light dark : UserTheme

abbrev pub language_value : UserLanguage → String
language_value en = "en"
language_value ru = "ru"
language_value kk = "kk"

abbrev pub theme_value : UserTheme → String
theme_value system = "system"
theme_value light = "light"
theme_value dark = "dark"

-- `UserLanguage(value)` and `UserTheme(value)`
abbrev pub language_of : String → Result UserLanguage
language_of s =
    if s == "en"
    then ok en
    else if s == "ru"
    then ok ru
    else if s == "kk"
    then ok kk
    else err value_error

abbrev pub theme_of : String → Result UserTheme
theme_of s =
    if s == "system"
    then ok system
    else if s == "light"
    then ok light
    else if s == "dark"
    then ok dark
    else err value_error

pub record UserPreferences : Type 0 where
  pub user_id : Uuid
  pub language : UserLanguage
  pub theme : UserTheme
  pub push_notifications_enabled : Bool
  pub email_notifications_enabled : Bool
  pub marketing_notifications_enabled : Bool
  pub created_at : Time
  pub updated_at : Time

-- `UserPreferencesDto` has the fields of the entity.
pub record UserPreferencesDto : Type 0 where
  pub user_id : Uuid
  pub language : UserLanguage
  pub theme : UserTheme
  pub push_notifications_enabled : Bool
  pub email_notifications_enabled : Bool
  pub marketing_notifications_enabled : Bool
  pub created_at : Time
  pub updated_at : Time

unfoldable pub preferences_dto : UserPreferences → UserPreferencesDto
preferences_dto p = record {
  user_id = p.user_id;
  language = p.language;
  theme = p.theme;
  push_notifications_enabled = p.push_notifications_enabled;
  email_notifications_enabled = p.email_notifications_enabled;
  marketing_notifications_enabled = p.marketing_notifications_enabled;
  created_at = p.created_at;
  updated_at = p.updated_at;
}

abbrev pub entity_with :
    Uuid → UserPreferencesModel → Result UserLanguage → Result UserTheme → Result UserPreferences
entity_with id m (err e) theme = err e
entity_with id m (ok language) (err e) = err e
entity_with id m (ok language) (ok theme) = ok (record {
  user_id = id;
  language = language;
  theme = theme;
  push_notifications_enabled = m.push_notifications_enabled;
  email_notifications_enabled = m.email_notifications_enabled;
  marketing_notifications_enabled = m.marketing_notifications_enabled;
  created_at = m.created_at;
  updated_at = m.updated_at;
})

unfoldable pub preferences_entity : Uuid → UserPreferencesModel → Result UserPreferences
preferences_entity id m = entity_with id m (language_of m.language) (theme_of m.theme)

-- The arguments of `create_preferences`.
pub record NewPreferences : Type 0 where
  pub language : UserLanguage
  pub theme : UserTheme
  pub push_notifications_enabled : Bool
  pub email_notifications_enabled : Bool
  pub marketing_notifications_enabled : Bool

-- The row that it adds.
abbrev pub new_preferences : NewPreferences → Time → UserPreferencesModel
new_preferences n now = record {
  language = language_value n.language;
  theme = theme_value n.theme;
  push_notifications_enabled = n.push_notifications_enabled;
  email_notifications_enabled = n.email_notifications_enabled;
  marketing_notifications_enabled = n.marketing_notifications_enabled;
  created_at = now;
  updated_at = now;
}

-- The arguments of `update_preferences`.
pub record PreferencesChange : Type 0 where
  pub language : Option UserLanguage
  pub theme : Option UserTheme
  pub push_notifications_enabled : Option Bool
  pub email_notifications_enabled : Option Bool
  pub marketing_notifications_enabled : Option Bool

abbrev or_kept : {A : Type 0} → A → Option A → A
or_kept old none = old
or_kept old (some new) = new

abbrev or_kept_value : {A : Type 0} → (A → String) → String → Option A → String
or_kept_value value old none = old
or_kept_value value old (some new) = value new

-- The assignments of `update_preferences`.
abbrev pub changed_preferences :
    PreferencesChange → Time → UserPreferencesModel → UserPreferencesModel
changed_preferences c now m = record {
  language = or_kept_value language_value m.language c.language;
  theme = or_kept_value theme_value m.theme c.theme;
  push_notifications_enabled = or_kept m.push_notifications_enabled c.push_notifications_enabled;
  email_notifications_enabled = or_kept m.email_notifications_enabled c.email_notifications_enabled;
  marketing_notifications_enabled =
      or_kept m.marketing_notifications_enabled c.marketing_notifications_enabled;
  created_at = m.created_at;
  updated_at = now;
}

abbrev pub some_result : Result UserPreferences → Result (Option UserPreferences)
some_result (err e) = err e
some_result (ok p) = ok (some p)

abbrev pub optional_entity : Uuid → Option UserPreferencesModel → Result (Option UserPreferences)
optional_entity id none = ok none
optional_entity id (some m) = some_result (preferences_entity id m)

module _ (b : Backend) where
  unfoldable pub get_preferences : Uuid → Exec World (Option UserPreferences)
  get_preferences user_id = do
    row ← on_preferences (select_one b.preferences user_id (λ _. true))
    lift (optional_entity user_id row)

  unfoldable pub create_preferences : Uuid → NewPreferences → Time → Exec World UserPreferences
  create_preferences user_id n now = do
    on_preferences (insert_row b.preferences user_id (new_preferences n now))
    lift (preferences_entity user_id (new_preferences n now))

  unfoldable pub flush_preferences :
      Uuid
      → (UserPreferencesModel → UserPreferencesModel)
      → Option UserPreferencesModel
      → Exec World (Option UserPreferences)
  flush_preferences user_id f none = pure none
  flush_preferences user_id f (some m) =
      on_preferences (update_all b.preferences (λ k _. k == user_id) f)
      >> lift (some_result (preferences_entity user_id (f m)))

  unfoldable pub update_preferences :
      Uuid → PreferencesChange → Time → Exec World (Option UserPreferences)
  update_preferences user_id c now = do
    row ← on_preferences (select_one b.preferences user_id (λ _. true))
    flush_preferences user_id (changed_preferences c now) row

  -- The body of `try` in each use case, under the name of the use case.
  unfoldable pub create_user_preferences_steps :
      Uuid → NewPreferences → Time → Exec World UserPreferencesDto
  create_user_preferences_steps user_id n now = do
    preferences ← create_preferences user_id n now
    commit b
    pure (preferences_dto preferences)

  unfoldable pub create_user_preferences :
      Uuid → NewPreferences → Time → Exec World UserPreferencesDto
  create_user_preferences user_id n now = do
    found ← get_by_id b user_id
    user ← or_raise found user_not_found
    raise_if (not (user.status == active)) forbidden
    existing ← get_preferences user_id
    raise_if (is_some existing) user_preferences_already_exists
    transaction (create_user_preferences_steps user_id n now)

  unfoldable pub there_or_rollback : Option UserPreferences → Exec World UserPreferences
  there_or_rollback none = rollback >> raise user_preferences_not_found
  there_or_rollback (some p) = pure p

  unfoldable pub update_user_preferences_steps :
      Uuid → PreferencesChange → Time → Exec World UserPreferencesDto
  update_user_preferences_steps user_id c now = do
    row ← update_preferences user_id c now
    preferences ← there_or_rollback row
    commit b
    pure (preferences_dto preferences)

  unfoldable pub update_user_preferences :
      Uuid → PreferencesChange → Time → Exec World UserPreferencesDto
  update_user_preferences user_id c now = do
    found ← get_by_id b user_id
    user ← or_raise found user_not_found
    raise_if (not (user.status == active)) forbidden
    transaction (update_user_preferences_steps user_id c now)

  unfoldable pub get_user_preferences : Uuid → Exec World UserPreferencesDto
  get_user_preferences user_id = do
    row ← get_preferences user_id
    preferences ← or_raise row user_preferences_not_found
    pure (preferences_dto preferences)
