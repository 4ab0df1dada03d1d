-- ===== src/Errors.antt =====
-- The exceptions that the components raise, those of app/common/exceptions/base.py and of the modules
-- auth and users among them. `Result` is what a call that may raise returns.
use base_backend.Prelude.{◌≡◌, ap, Bool, true, false, ℕ, String, Option, List}

-- One constructor for each exception class, with the details that the class stores. The last ones
-- stand for exceptions that are no `ApplicationError`: errors of SQLAlchemy and of Redis, and Python's own. A
-- `JSONDecodeError` is a `ValueError`.
pub data Error : Type 0 where
  forbidden : Error
  dependency_unavailable : String → Error
  invalid_dependency_state : String → Error
  otp_recipient_rejected : Error
  otp_delivery_failed : Error
  invalid_login_request : Error
  invalid_credentials : Option ℕ → Error
  login_request_already_used : Option ℕ → Error
  otp_expired : Error
  too_many_attempts : Error
  invalid_otp : ℕ → Error
  token_expired : Error
  invalid_token : Error
  invalid_refresh_token : Error
  session_not_found : Error
  session_already_revoked : Error
  session_revoked : Error
  user_not_found : Error
  user_profile_already_exists : Error
  user_profile_not_found : Error
  user_preferences_already_exists : Error
  user_preferences_not_found : Error
  invalid_user_status_transition : Error
  invalid_avatar_upload : String → Error
  invalid_sort_key : String → List String → Error
  sqlalchemy_error : Error
  redis_error : Error
  value_error : Error
  key_error : Error
  index_error : Error
  type_error : Error
  attribute_error : Error
  runtime_error : Error
  os_error : Error

pub data Result {ℓ} (A : Type ℓ) : Type ℓ where
  ok : A → Result A
  err : Error → Result A

-- The errors of the database and of Redis, which no use case raises by itself.
abbrev pub is_failure : Error → Bool
is_failure sqlalchemy_error = true
is_failure redis_error = true
is_failure (dependency_unavailable _) = true
is_failure (invalid_dependency_state _) = true
is_failure _ = false

abbrev or_default {ℓ} : {A : Type ℓ} → A → Result A → A
or_default d (ok a) = a
or_default d (err e) = d

pub ok-injective {ℓ} : {A : Type ℓ} {x y : A} → ok x ≡ ok y → x ≡ y
ok-injective {x = x} h = ap (or_default x) h
