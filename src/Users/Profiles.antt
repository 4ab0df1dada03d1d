-- ===== src/Users/Profiles.antt =====
-- User profiles: the operations of `SqlAlchemyUserRepository` on them, and the use cases
-- app/modules/users/application/use_cases/create_user_profile.py and update_user_profile.py. `now` is what
-- `datetime.now(UTC)` returned; `isdigit` is `str.isdigit`, whose table of digits is not modelled. A row
-- that is changed in the session is written by `flush`.
pub mod Completion
use base_backend.Prelude.{
  ℕ, String, Bool, true, false, not, Option, none, some, is_none, is_some, ◌==◌, nat_eq, string_eq,
  map_option, if◌then◌else◌,
}
use Prim.Native.String.{slice}
use base_backend.Errors.{
  forbidden, user_not_found, user_profile_already_exists, user_profile_not_found,
}
use base_backend.Exec.{Exec, pure, raise, raise_if, or_raise, ◌>>=◌, ◌>>◌}
use base_backend.Redis.{Time, Uuid}
use base_backend.Sql.{select_one, update_all, insert_row}
use base_backend.Authorization.{active, status_eq}
use base_backend.World.{
  UserProfileModel, World, Backend, on_profiles, commit, rollback, transaction,
}
use base_backend.Users.{User}
use base_backend.Users.Repository.{get_by_id}

pub record PhoneNumber : Type 0 where
  pub country_code : Option String
  pub dial_code : String
  pub number : String

pub record UserProfile : Type 0 where
  pub user_id : Uuid
  pub full_name : String
  pub phone_number : Option PhoneNumber
  pub avatar_url : Option String
  pub avatar_object_key : Option String
  pub created_at : Time
  pub updated_at : Time
  pub completed_at : Option Time

pub record UserProfileDto : Type 0 where
  pub user_id : Uuid
  pub full_name : String
  pub phone_number : Option PhoneNumber
  pub avatar_url : Option String
  pub created_at : Time
  pub updated_at : Time
  pub completed_at : Option Time

unfoldable pub profile_dto : UserProfile → UserProfileDto
profile_dto p = record {
  user_id = p.user_id;
  full_name = p.full_name;
  phone_number = p.phone_number;
  avatar_url = p.avatar_url;
  created_at = p.created_at;
  updated_at = p.updated_at;
  completed_at = p.completed_at;
}

-- The row that `create_profile` adds.
abbrev pub new_profile : String → Option PhoneNumber → Time → UserProfileModel
new_profile full_name phone now = record {
  full_name = full_name;
  country_code = elim phone [ none ↦ none | some p ↦ p.country_code ];
  dial_code = map_option (λ (p : PhoneNumber). p.dial_code) phone;
  phone_number = map_option (λ (p : PhoneNumber). p.number) phone;
  avatar_url = none;
  avatar_object_key = none;
  created_at = now;
  updated_at = now;
  completed_at = some now;
}

abbrev set_name : Option String → UserProfileModel → UserProfileModel
set_name none m = m
set_name (some name) m = record m { full_name = name }

abbrev set_phone : Option PhoneNumber → UserProfileModel → UserProfileModel
set_phone none m = m
set_phone (some p) m = record m {
  country_code = p.country_code;
  dial_code = some p.dial_code;
  phone_number = some p.number;
}

-- The assignments of `update_profile`.
abbrev pub changed_profile :
    Option String → Option PhoneNumber → Time → UserProfileModel → UserProfileModel
changed_profile full_name phone now m =
    let n = set_phone phone (set_name full_name m) in
    record n {
      updated_at = now;
      completed_at = elim n.completed_at [ none ↦ some now | some at ↦ some at ];
    }

module _ (isdigit : String → Bool) where
  unfoldable pub phone_number_entity :
      Option String → Option String → Option String → Option PhoneNumber
  phone_number_entity country_code (some dial_code) (some number) =
      if not (slice dial_code 0 1 == "+")
      then none
      else if not (isdigit number)
      then none
      else some (record { country_code = country_code; dial_code = dial_code; number = number })
  phone_number_entity country_code _ _ = none

  unfoldable pub profile_entity : Uuid → UserProfileModel → UserProfile
  profile_entity id m = record {
    user_id = id;
    full_name = m.full_name;
    phone_number = phone_number_entity m.country_code m.dial_code m.phone_number;
    avatar_url = m.avatar_url;
    avatar_object_key = m.avatar_object_key;
    created_at = m.created_at;
    updated_at = m.updated_at;
    completed_at = m.completed_at;
  }

  module _ (b : Backend) where
    unfoldable pub get_profile : Uuid → Exec World (Option UserProfile)
    get_profile user_id = do
      row ← on_profiles (select_one b.profiles user_id (λ _. true))
      pure (map_option (λ m. profile_entity user_id m) row)

    unfoldable pub create_profile :
        Uuid → String → Option PhoneNumber → Time → Exec World UserProfile
    create_profile user_id full_name phone now = do
      on_profiles (insert_row b.profiles user_id (new_profile full_name phone now))
      pure (profile_entity user_id (new_profile full_name phone now))

    -- The end of the operations that change a row of the session: nothing, if there is none.
    unfoldable pub flush_change :
        Uuid
        → (UserProfileModel → UserProfileModel)
        → Option UserProfileModel
        → Exec World (Option UserProfile)
    flush_change user_id f none = pure none
    flush_change user_id f (some m) =
        on_profiles (update_all b.profiles (λ k _. k == user_id) f)
        >> pure (some (profile_entity user_id (f m)))

    unfoldable pub update_profile :
        Uuid → Option String → Option PhoneNumber → Time → Exec World (Option UserProfile)
    update_profile user_id full_name phone now = do
      row ← on_profiles (select_one b.profiles user_id (λ _. true))
      flush_change user_id (changed_profile full_name phone now) row

    unfoldable pub update_avatar : Uuid → String → String → Time → Exec World (Option UserProfile)
    update_avatar user_id avatar_url avatar_object_key now = do
      row ← on_profiles (select_one b.profiles user_id (λ _. true))
      flush_change user_id
          (λ m. record m {
            avatar_url = some avatar_url;
            avatar_object_key = some avatar_object_key;
            updated_at = now;
          })
          row

    unfoldable pub clear_avatar : Uuid → Time → Exec World (Option UserProfile)
    clear_avatar user_id now = do
      row ← on_profiles (select_one b.profiles user_id (λ _. true))
      flush_change user_id
          (λ m. record m { avatar_url = none; avatar_object_key = none; updated_at = now }) row

    -- The body of `try`.
    unfoldable pub create_user_profile_steps :
        Uuid → String → Option PhoneNumber → Time → Exec World UserProfileDto
    create_user_profile_steps user_id full_name phone now = do
      profile ← create_profile user_id full_name phone now
      commit b
      pure (profile_dto profile)

    unfoldable pub create_user_profile :
        Uuid → String → Option PhoneNumber → Time → Exec World UserProfileDto
    create_user_profile user_id full_name phone now = do
      found ← get_by_id b user_id
      user ← or_raise found user_not_found
      raise_if (not (user.status == active)) forbidden
      existing ← get_profile user_id
      raise_if (is_some existing) user_profile_already_exists
      transaction (create_user_profile_steps user_id full_name phone now)

    unfoldable pub found_or_rollback : Option UserProfile → Exec World UserProfile
    found_or_rollback none = rollback >> raise user_profile_not_found
    found_or_rollback (some p) = pure p

    unfoldable pub update_user_profile_steps :
        Uuid → Option String → Option PhoneNumber → Time → Exec World UserProfileDto
    update_user_profile_steps user_id full_name phone now = do
      row ← update_profile user_id full_name phone now
      profile ← found_or_rollback row
      commit b
      pure (profile_dto profile)

    unfoldable pub update_user_profile :
        Uuid → Option String → Option PhoneNumber → Time → Exec World UserProfileDto
    update_user_profile user_id full_name phone now = do
      found ← get_by_id b user_id
      user ← or_raise found user_not_found
      raise_if (not (user.status == active)) forbidden
      transaction (update_user_profile_steps user_id full_name phone now)
