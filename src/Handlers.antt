-- ===== src/Handlers.antt =====
-- app/common/exceptions/handlers.py: which handler answers an exception, and with which status code.
pub mod Statuses
pub mod Bodies
use base_backend.Prelude.{
  ℕ, String, Option, none, some, List, [], ◌∷◌, ◌==◌, string_eq, if◌then◌else◌,
}
use base_backend.Errors.{
  Error, forbidden, dependency_unavailable, invalid_dependency_state, otp_recipient_rejected,
  invalid_login_request, invalid_credentials, login_request_already_used, otp_expired,
  too_many_attempts, invalid_otp, token_expired, invalid_token, invalid_refresh_token,
  session_not_found, session_already_revoked, session_revoked, user_not_found,
  user_profile_already_exists, user_profile_not_found, user_preferences_already_exists,
  user_preferences_not_found, invalid_user_status_transition, invalid_avatar_upload,
  otp_delivery_failed, invalid_sort_key, sqlalchemy_error, redis_error, value_error, key_error,
}

-- The codes of app/common/exceptions/base.py.
abbrev pub base_code : Error → Option String
base_code forbidden = some "FORBIDDEN"
base_code (dependency_unavailable _) = some "DEPENDENCY_UNAVAILABLE"
base_code (invalid_dependency_state _) = some "INVALID_DEPENDENCY_STATE"
base_code _ = none

-- The codes of app/modules/auth/domain/exceptions.py.
abbrev pub auth_code : Error → Option String
auth_code otp_recipient_rejected = some "OTP_RECIPIENT_REJECTED"
auth_code invalid_login_request = some "INVALID_LOGIN_REQUEST"
auth_code (invalid_credentials _) = some "INVALID_CREDENTIALS"
auth_code (login_request_already_used _) = some "LOGIN_REQUEST_ALREADY_USED"
auth_code otp_expired = some "OTP_EXPIRED"
auth_code too_many_attempts = some "TOO_MANY_ATTEMPTS"
auth_code (invalid_otp _) = some "INVALID_OTP"
auth_code token_expired = some "TOKEN_EXPIRED"
auth_code invalid_token = some "INVALID_TOKEN"
auth_code invalid_refresh_token = some "INVALID_REFRESH_TOKEN"
auth_code session_not_found = some "SESSION_NOT_FOUND"
auth_code session_already_revoked = some "SESSION_ALREADY_REVOKED"
auth_code session_revoked = some "SESSION_REVOKED"
auth_code _ = none

-- The codes of app/modules/users/domain/exceptions.py.
abbrev pub users_code : Error → Option String
users_code user_not_found = some "USER_NOT_FOUND"
users_code user_profile_already_exists = some "USER_PROFILE_ALREADY_EXISTS"
users_code user_profile_not_found = some "USER_PROFILE_NOT_FOUND"
users_code user_preferences_already_exists = some "USER_PREFERENCES_ALREADY_EXISTS"
users_code user_preferences_not_found = some "USER_PREFERENCES_NOT_FOUND"
users_code invalid_user_status_transition = some "INVALID_USER_STATUS_TRANSITION"
users_code (invalid_avatar_upload _) = some "INVALID_AVATAR_UPLOAD"
users_code _ = none

abbrev pub first_code : Option String → Option String → Option String
first_code none c = c
first_code (some c) _ = some c

-- `exc.code`, for an exception that is an `ApplicationError`.
abbrev pub error_code : Error → Option String
error_code otp_delivery_failed = some "OTP_DELIVERY_FAILED"
error_code (invalid_sort_key _ _) = some "INVALID_SORT_KEY"
error_code e = first_code (base_code e) (first_code (auth_code e) (users_code e))

-- `_APPLICATION_STATUS_CODES`
abbrev pub application_status_codes : List (String × ℕ)
application_status_codes =
    ("FORBIDDEN", 403)
    ∷ ("DEPENDENCY_UNAVAILABLE", 503)
    ∷ ("INVALID_CREDENTIALS", 400)
    ∷ ("INVALID_DEPENDENCY_STATE", 503)
    ∷ ("INVALID_AVATAR_UPLOAD", 400)
    ∷ ("INVALID_LOGIN_REQUEST", 400)
    ∷ ("INVALID_OTP", 400)
    ∷ ("INVALID_REFRESH_TOKEN", 401)
    ∷ ("INVALID_SORT_KEY", 422)
    ∷ ("INVALID_TOKEN", 401)
    ∷ ("INVALID_USER_STATUS_TRANSITION", 400)
    ∷ ("LOGIN_REQUEST_ALREADY_USED", 410)
    ∷ ("OTP_EXPIRED", 410)
    ∷ ("OTP_DELIVERY_FAILED", 503)
    ∷ ("OTP_RECIPIENT_REJECTED", 422)
    ∷ ("SESSION_ALREADY_REVOKED", 401)
    ∷ ("SESSION_NOT_FOUND", 404)
    ∷ ("SESSION_REVOKED", 401)
    ∷ ("TOKEN_EXPIRED", 401)
    ∷ ("TOO_MANY_ATTEMPTS", 429)
    ∷ ("USER_NOT_FOUND", 404)
    ∷ ("USER_PREFERENCES_ALREADY_EXISTS", 409)
    ∷ ("USER_PREFERENCES_NOT_FOUND", 404)
    ∷ ("USER_PROFILE_ALREADY_EXISTS", 409)
    ∷ ("USER_PROFILE_NOT_FOUND", 404)
    ∷ []

-- `table.get(code)`
abbrev pub status_of : List (String × ℕ) → String → Option ℕ
status_of [] code = none
status_of ((c, n) ∷ rest) code = if code == c then some n else status_of rest code

abbrev pub or_bad_request : Option ℕ → ℕ
or_bad_request none = 400
or_bad_request (some n) = n
