-- ===== src/Auth/Tokens.antt =====
-- `JwtTokenService` of app/modules/auth/infrastructure/jwt_token_service.py, and the claims that the
-- use cases read.
use base_backend.Prelude.{
  ℕ, ◌+◌, ◌*◌, ◌/◌, String, Option, none, some, ◌==◌, string_eq, if◌then◌else◌,
}
use base_backend.Errors.{Result, ok, err, token_expired, invalid_token, value_error, key_error}
use base_backend.Redis.{Time, second, Uuid, Value, number, uuid, other}
use base_backend.Authorization.{UserRole, super_admin, admin, user}
use base_backend.World.{Payload, Decoded, claims, expired, invalid, Jwt, number_claim}

abbrev pub role_value : UserRole → String
role_value super_admin = "super_admin"
role_value admin = "admin"
role_value user = "user"

abbrev pub minute : ℕ
minute = 60 * second

abbrev pub day : ℕ
day = 86_400 * second

-- `UUID(str(payload[key]))`
abbrev pub uuid_claim : Option Value → Result Uuid
uuid_claim none = err key_error
uuid_claim (some (uuid u)) = ok u
uuid_claim (some _) = err value_error

-- `UserRole(str(payload["role"]))`
abbrev pub role_claim : Option Value → Result UserRole
role_claim none = err key_error
role_claim (some (other s)) =
    if s == "super_admin"
    then ok super_admin
    else if s == "admin"
    then ok admin
    else if s == "user"
    then ok user
    else err value_error
role_claim (some _) = err value_error

-- `int(str(payload["av"]))`
abbrev pub int_claim : Option Value → Result ℕ
int_claim none = err key_error
int_claim (some (number n)) = ok n
int_claim (some _) = err value_error

unfoldable pub access_payload : Time → ℕ → Uuid → Uuid → UserRole → ℕ → Payload
access_payload now access_expire_minutes user_id session_id role authorization_version = record {
  sub = some (uuid user_id);
  sid = some (uuid session_id);
  jti = none;
  role = some (other (role_value role));
  av = number_claim authorization_version;
  typ = some "access";
  iat = number_claim (now / second);
  exp = number_claim ((now + access_expire_minutes * minute) / second);
}

unfoldable pub refresh_payload : Time → ℕ → Uuid → Uuid → Payload
refresh_payload now refresh_expire_days user_id session_id = record {
  sub = some (uuid user_id);
  sid = none;
  jti = some (uuid session_id);
  role = none;
  av = none;
  typ = some "refresh";
  iat = number_claim (now / second);
  exp = number_claim ((now + refresh_expire_days * day) / second);
}

-- `except ExpiredSignatureError` and `except PyJWTError`
abbrev pub decoded : Decoded → Result Payload
decoded (claims p) = ok p
decoded expired = err token_expired
decoded invalid = err invalid_token

module _ (jwt : Jwt) where
  unfoldable pub create_access_token : Time → ℕ → Uuid → Uuid → UserRole → ℕ → String
  create_access_token now access_expire_minutes user_id session_id role authorization_version =
      jwt.encode
        (access_payload now access_expire_minutes user_id session_id role authorization_version)

  unfoldable pub create_refresh_token : Time → ℕ → Uuid → Uuid → String
  create_refresh_token now refresh_expire_days user_id session_id =
      jwt.encode (refresh_payload now refresh_expire_days user_id session_id)

  unfoldable pub decode_token : Time → String → Result Payload
  decode_token now token = decoded (jwt.decode now token)
