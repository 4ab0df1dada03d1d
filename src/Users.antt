-- ===== src/Users.antt =====
-- app/modules/users/domain/entities.py and dto.py of app/modules/users/application.
pub mod Repository
pub mod Requests
pub mod Profiles
pub mod Preferences
pub mod Avatars
pub mod Listings
use base_backend.Prelude.{ℕ, String, Bool}
use base_backend.Redis.{Time, Uuid}
use base_backend.Authorization.{UserRole, UserStatus}

-- It is also the `AuthorizationIdentity` of app/common/authorization/entities.py.
pub record User : Type 0 where
  pub id : Uuid
  pub email : String
  pub role : UserRole
  pub status : UserStatus
  pub is_verified : Bool
  pub created_at : Time
  pub is_user_data_uploaded : Bool
  pub authorization_version : ℕ

pub record UserDto : Type 0 where
  pub id : Uuid
  pub email : String
  pub role : UserRole
  pub status : UserStatus
  pub is_verified : Bool
  pub created_at : Time
  pub is_user_data_uploaded : Bool

-- `UserDto.from_entity`
unfoldable pub user_dto : User → UserDto
user_dto u = record {
  id = u.id;
  email = u.email;
  role = u.role;
  status = u.status;
  is_verified = u.is_verified;
  created_at = u.created_at;
  is_user_data_uploaded = u.is_user_data_uploaded;
}
