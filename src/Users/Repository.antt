-- ===== src/Users/Repository.antt =====
-- `SqlAlchemyUserRepository` of app/modules/users/infrastructure/sqlalchemy_repositories.py: the
-- operations on users. The outer join with the profile reads the profile of the same key.
pub mod Effects
pub mod Transactional
pub mod Creation
use base_backend.Prelude.{
  ℕ, ◌+◌, String, Bool, true, false, Option, none, some, is_some, ◌==◌, string_eq, map_option,
}
use base_backend.Exec.{Exec, pure, ◌>>=◌, ◌>>◌}
use base_backend.Redis.{Time, Uuid}
use base_backend.Sql.{select_one, select_first, update_row, insert_row}
use base_backend.Authorization.{UserRole, UserStatus, user, active}
use base_backend.World.{UserModel, UserProfileModel, World, Backend, on_users, on_profiles}
use base_backend.Users.{User}

-- `_to_entity`, with the `profile_completed_at` that the join has added, if it was made.
unfoldable pub to_entity : Uuid → UserModel → Option Time → User
to_entity id m profile_completed_at = record {
  id = id;
  email = m.email;
  role = m.role;
  status = m.status;
  is_verified = m.is_verified;
  created_at = m.created_at;
  is_user_data_uploaded = is_some profile_completed_at;
  authorization_version = m.authorization_version;
}

abbrev pub completed_at : Option UserProfileModel → Option Time
completed_at none = none
completed_at (some p) = p.completed_at

-- `UPDATE users SET role = :role, authorization_version = authorization_version + 1`
abbrev pub with_role : UserRole → UserModel → UserModel
with_role role m = record m { role = role; authorization_version = m.authorization_version + 1 }

abbrev pub with_status : UserStatus → UserModel → UserModel
with_status status m = record m {
  status = status;
  authorization_version = m.authorization_version + 1;
}

-- The row that `get_or_create` adds.
abbrev pub new_user : String → Time → UserModel
new_user email now = record {
  email = email;
  role = user;
  status = active;
  authorization_version = 1;
  is_verified = false;
  created_at = now;
}

module _ (b : Backend) where
  -- `_user_from_row` on the row of the outer join
  with_profile : Option (Uuid × UserModel) → Exec World (Option User)
  with_profile none = pure none
  with_profile (some (id, m)) = do
    profile ← on_profiles (select_one b.profiles id (λ _. true))
    pure (some (to_entity id m (completed_at profile)))

  unfoldable pub get_by_email : String → Exec World (Option User)
  unfolding with_profile
  get_by_email email = do
    row ← on_users (select_first b.users (λ _ m. m.email == email))
    with_profile row

  unfoldable pub get_by_id : Uuid → Exec World (Option User)
  unfolding with_profile
  get_by_id user_id = do
    row ← on_users (select_one b.users user_id (λ _. true))
    with_profile (map_option (λ m. (user_id, m)) row)

  or_create : Uuid → String → Time → Option User → Exec World User
  or_create id email now (some existing) = pure existing
  or_create id email now none = do
    on_users (insert_row b.users id (new_user email now))
    pure (to_entity id (new_user email now) none)

  -- `id` is the `uuid4()` of the new row.
  unfoldable pub get_or_create : Uuid → String → Time → Exec World User
  unfolding or_create
  get_or_create id email now = do existing ← get_by_email email; or_create id email now existing

  unfoldable pub set_verified : Uuid → Bool → Exec World (Unit {0})
  set_verified user_id value =
      on_users (update_row b.users user_id (λ m. record m { is_verified = value })) >> pure tt

  unfoldable pub update_role : Uuid → UserRole → Exec World (Option User)
  update_role user_id role = do
    row ← on_users (update_row b.users user_id (with_role role))
    pure (map_option (λ m. to_entity user_id m none) row)

  unfoldable pub update_status : Uuid → UserStatus → Exec World (Option User)
  update_status user_id status = do
    row ← on_users (update_row b.users user_id (with_status status))
    pure (map_option (λ m. to_entity user_id m none) row)
