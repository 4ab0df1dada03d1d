-- ===== src/Handlers/Statuses.antt =====
-- What the status codes say of the exceptions.
use base_backend.Prelude.{◌≡◌, refl, String, Bool, true, Option, none, some, is_some, string_eq}
use base_backend.Errors.{
  Error, forbidden, dependency_unavailable, invalid_dependency_state, otp_recipient_rejected,
  invalid_login_request, invalid_credentials, login_request_already_used, otp_expired,
  too_many_attempts, invalid_otp, token_expired, invalid_token, invalid_refresh_token,
  session_not_found, session_already_revoked, session_revoked, user_not_found,
  user_profile_already_exists, user_profile_not_found, user_preferences_already_exists,
  user_preferences_not_found, invalid_user_status_transition, invalid_avatar_upload,
  otp_delivery_failed, invalid_sort_key, sqlalchemy_error, redis_error, value_error, key_error,
  index_error, type_error, attribute_error, runtime_error, os_error,
}
use base_backend.Handlers.{error_code, application_status_codes, status_of}

code_is_listed : Option String → Bool
code_is_listed none = true
code_is_listed (some code) = is_some (status_of application_status_codes code)

code_listed : (e : Error) → code_is_listed (error_code e) ≡ true
unfolding code_is_listed
code_listed forbidden = refl
code_listed (dependency_unavailable _) = refl
code_listed (invalid_dependency_state _) = refl
code_listed otp_recipient_rejected = refl
code_listed invalid_login_request = refl
code_listed (invalid_credentials _) = refl
code_listed (login_request_already_used _) = refl
code_listed otp_expired = refl
code_listed too_many_attempts = refl
code_listed (invalid_otp _) = refl
code_listed token_expired = refl
code_listed invalid_token = refl
code_listed invalid_refresh_token = refl
code_listed session_not_found = refl
code_listed session_already_revoked = refl
code_listed session_revoked = refl
code_listed user_not_found = refl
code_listed user_profile_already_exists = refl
code_listed user_profile_not_found = refl
code_listed user_preferences_already_exists = refl
code_listed user_preferences_not_found = refl
code_listed invalid_user_status_transition = refl
code_listed (invalid_avatar_upload _) = refl
code_listed otp_delivery_failed = refl
code_listed (invalid_sort_key _ _) = refl
code_listed sqlalchemy_error = refl
code_listed redis_error = refl
code_listed value_error = refl
code_listed key_error = refl
code_listed index_error = refl
code_listed type_error = refl
code_listed attribute_error = refl
code_listed runtime_error = refl
code_listed os_error = refl

pub status_of-error_code :
    (e : Error) (code : String)
    → error_code e ≡ some code
    → is_some (status_of application_status_codes code) ≡ true
unfolding code_is_listed
status_of-error_code e code h = rw h at (code_listed e)
