-- ===== src/World.antt =====
-- The state that a request works on: the rows of the database as its transaction sees them and as
-- they are committed, and the contents of Redis. `Backend` holds what the program calls and does not
-- implement: the database, Redis, PyJWT, SHA-256 and bcrypt. The models are those of
-- app/modules/*/infrastructure/sqlalchemy_models.py, without the primary key, which is the key of
-- the table; `commit` and `rollback` are `SqlAlchemyUnitOfWork` of app/core/database.py.
pub mod Transactions
pub mod Failures
use base_backend.Prelude.{
  ℕ, ◌*◌, ◌≤◌, ◌≡◌, String, Bool, true, false, Option, none, some, ltb, if◌then◌else◌,
}
use base_backend.Errors.{Result, ok, err, sqlalchemy_error}
use base_backend.Exec.{Exec, on, except_raise}
use base_backend.Redis.{Time, second, Uuid, Value, Keyspace, Redis}
use base_backend.Sql.{Table, Sql}
use base_backend.Authorization.{UserRole, UserStatus}

pub record UserModel : Type 0 where
  pub email : String
  pub role : UserRole
  pub status : UserStatus
  pub authorization_version : ℕ
  pub is_verified : Bool
  pub created_at : Time

pub record UserProfileModel : Type 0 where
  pub full_name : String
  pub country_code : Option String
  pub dial_code : Option String
  pub phone_number : Option String
  pub avatar_url : Option String
  pub avatar_object_key : Option String
  pub created_at : Time
  pub updated_at : Time
  pub completed_at : Option Time

pub record UserPreferencesModel : Type 0 where
  pub language : String
  pub theme : String
  pub push_notifications_enabled : Bool
  pub email_notifications_enabled : Bool
  pub marketing_notifications_enabled : Bool
  pub created_at : Time
  pub updated_at : Time

pub record UserDeviceModel : Type 0 where
  pub user_id : Uuid
  pub client_device_id : String
  pub os : String
  pub os_version : String
  pub model : String
  pub app_version : String
  pub push_provider : Option String
  pub push_token : Option String
  pub push_token_updated_at : Option Time
  pub last_seen_at : Time
  pub created_at : Time

pub record UserSessionModel : Type 0 where
  pub user_id : Uuid
  pub user_device_id : Uuid
  pub refresh_token_hash : String
  pub expires_at : Time
  pub created_at : Time
  pub last_active_at : Time
  pub revoked_at : Option Time

pub record Db : Type 0 where
  pub users : Table UserModel
  pub profiles : Table UserProfileModel
  pub preferences : Table UserPreferencesModel
  pub devices : Table UserDeviceModel
  pub sessions : Table UserSessionModel

pub record World : Type 0 where
  pub db : Db
  pub committed : Db
  pub redis : Keyspace

-- The claims of a token, as far as the program reads or writes them. A claim that is missing is
-- `none`; `iat` and `exp` are seconds since the epoch.
pub record Payload : Type 0 where
  pub sub : Option Value
  pub sid : Option Value
  pub jti : Option Value
  pub role : Option Value
  pub av : Option Value
  pub typ : Option String
  pub iat : Option Value
  pub exp : Option Value

-- `jwt.decode` returns the claims, raises `ExpiredSignatureError`, or raises another `PyJWTError`.
pub data Decoded : Type 0 where
  claims : Payload → Decoded
  expired : Decoded
  invalid : Decoded

abbrev pub number_claim : ℕ → Option Value
number_claim n = some (Value.number n)

-- PyJWT with the secret and the algorithm of the settings.
pub record Jwt : Type 0 where
  pub encode : Payload → String
  pub decode : Time → String → Decoded

-- PyJWT's contract on a payload: what it encoded decodes to the claims until it expires, if it was not
-- issued in the future.
pub record RoundTrips (jwt : Jwt) (p : Payload) : Type 0 where
  pub decode-encode :
      (now : Time) (iat exp : ℕ)
      → p.iat ≡ number_claim iat
      → p.exp ≡ number_claim exp
      → iat * second ≤ now
      → jwt.decode now (jwt.encode p) ≡ (if ltb now (exp * second) then claims p else expired)

pub record Backend : Type 0 where
  pub redis : Redis
  pub users : Sql UserModel
  pub profiles : Sql UserProfileModel
  pub preferences : Sql UserPreferencesModel
  pub devices : Sql UserDeviceModel
  pub sessions : Sql UserSessionModel
  -- whether `pg_advisory_xact_lock` returns, rather than raises
  pub locks : ℕ → Db → Bool
  -- whether the database accepts the commit of a transaction; it raises where not
  pub commits : Db → Bool
  pub jwt : Jwt
  -- `hashlib.sha256(token.encode("utf-8")).hexdigest()`
  pub sha256_hex : String → String

abbrev pub on_users : {A : Type 0} → Exec (Table UserModel) A → Exec World A
on_users = on (λ w. w.db.users) (λ t w. record w { db = record (w.db) { users = t } })

abbrev pub on_profiles : {A : Type 0} → Exec (Table UserProfileModel) A → Exec World A
on_profiles = on (λ w. w.db.profiles) (λ t w. record w { db = record (w.db) { profiles = t } })

abbrev pub on_preferences : {A : Type 0} → Exec (Table UserPreferencesModel) A → Exec World A
on_preferences =
    on (λ w. w.db.preferences) (λ t w. record w { db = record (w.db) { preferences = t } })

abbrev pub on_devices : {A : Type 0} → Exec (Table UserDeviceModel) A → Exec World A
on_devices = on (λ w. w.db.devices) (λ t w. record w { db = record (w.db) { devices = t } })

abbrev pub on_sessions : {A : Type 0} → Exec (Table UserSessionModel) A → Exec World A
on_sessions = on (λ w. w.db.sessions) (λ t w. record w { db = record (w.db) { sessions = t } })

abbrev pub on_redis : {A : Type 0} → Exec Keyspace A → Exec World A
on_redis = on (λ w. w.redis) (λ k w. record w { redis = k })

-- A commit that raises has committed nothing.
unfoldable pub commit : Backend → Exec World (Unit {0})
commit b w =
    if b.commits w.db then (ok tt, record w { committed = w.db }) else (err sqlalchemy_error, w)

unfoldable pub rollback : Exec World (Unit {0})
rollback w = (ok tt, record w { db = w.committed })

-- `try: ... except Exception: await self._unit_of_work.rollback(); raise`
abbrev pub transaction : {A : Type 0} → Exec World A → Exec World A
transaction m = except_raise m (λ _. rollback)
