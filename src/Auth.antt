-- ===== src/Auth.antt =====
-- app/modules/auth/domain/entities.py and dto.py of app/modules/auth/application.
pub mod Tokens
pub mod Repository
pub mod Sessions
pub mod RefreshToken
pub mod ValidateAccessToken
pub mod SignedOut
pub mod Race
pub mod LoginRequests
pub mod VerifyEmail
pub mod LoginUser
pub mod Listings
use base_backend.Prelude.{ℕ, String, Bool, Option}
use base_backend.Redis.{Time, Uuid}

pub record DeviceNotifications : Type 0 where
  pub push_provider : Option String
  pub push_token : Option String

pub record DeviceInfo : Type 0 where
  pub device_id : String
  pub os : String
  pub os_version : String
  pub model : String
  pub app_version : String
  pub push_provider : Option String
  pub push_token : Option String

pub record LoginResultDto : Type 0 where
  pub message_code : String
  pub login_request_id : String
  pub otp_expires_in : ℕ

pub record UserDevice : Type 0 where
  pub id : Uuid
  pub client_device_id : String
  pub os : String
  pub os_version : String
  pub model : String
  pub app_version : String
  pub push_provider : Option String
  pub push_token : Option String

pub record UserSession : Type 0 where
  pub id : Uuid
  pub user_id : Uuid
  pub user_device_id : Uuid
  pub refresh_token_hash : String
  pub expires_at : Time
  pub created_at : Time
  pub last_active_at : Time
  pub revoked_at : Option Time
  pub user_device : Option UserDevice

pub record TokenPairDto : Type 0 where
  pub access_token : String
  pub refresh_token : String

pub record MessageResultDto : Type 0 where
  pub message_code : String
