-- ===== src/Tests/Fixtures.antt =====
-- A backend for the examples, and a state in which one user is signed in.
use base_backend.Prelude.{
  ℕ, ◌*◌, true, Option, none, some, [], ◌∷◌, ltb, ◌==◌, nat_eq, string_eq, update_at, if◌then◌else◌,
}
use base_backend.Redis.{
  Time, second, Uuid, number, uuid, user_version, user_sessions, session, key_eq, empty_set,
  Keyspace,
}
use base_backend.Redis.SortedSets.{put}
use base_backend.Redis.Server.{server}
use base_backend.Authorization.{user, active, deletion_requested, CurrentPrincipal}
use base_backend.World.{
  UserModel, UserDeviceModel, UserSessionModel, Db, World, Payload, Decoded, claims, expired,
  invalid, Jwt, Backend,
}
use base_backend.Auth.Tokens.{day, access_payload, refresh_payload}
use base_backend.Auth.ValidateAccessToken.{ValidateCall}
use base_backend.Auth.RefreshToken.{RefreshCall}
use base_backend.Tests.Database.{table}

abbrev pub at : ℕ → Time
at seconds = seconds * second

-- Ann is user 1 with the device 11; her session 21 is active and 22 was revoked. The user 2 has asked
-- for the deletion of the account.
abbrev pub ann : UserModel
ann = record {
  email = "ann@example.com";
  role = user;
  status = active;
  authorization_version = 3;
  is_verified = true;
  created_at = 0;
}

abbrev pub bob : UserModel
bob = record {
  email = "bob@example.com";
  role = user;
  status = deletion_requested;
  authorization_version = 2;
  is_verified = true;
  created_at = 0;
}

abbrev pub device : UserDeviceModel
device = record {
  user_id = 1;
  client_device_id = "phone";
  os = "ios";
  os_version = "17";
  model = "15";
  app_version = "1.0";
  push_provider = none;
  push_token = none;
  push_token_updated_at = none;
  last_seen_at = 0;
  created_at = 0;
}

abbrev pub session_of : Uuid → Option Time → UserSessionModel
session_of u revoked_at = record {
  user_id = u;
  user_device_id = 11;
  refresh_token_hash = "hash of refresh";
  expires_at = 90 * day;
  created_at = 0;
  last_active_at = 0;
  revoked_at = revoked_at;
}

abbrev pub rows : Db
rows = record {
  users = update_at 1 (some ann) (update_at 2 (some bob) (λ _. none));
  profiles = λ _. none;
  preferences = λ _. none;
  devices = update_at 11 (some device) (λ _. none);
  sessions = update_at 21 (some (session_of 1 none)) (
      update_at 22 (some (session_of 1 (some (at 100))))
        (update_at 23 (some (session_of 2 none)) (λ _. none)));
}

abbrev pub cached : Keyspace
cached = record {
  strings = update_at (user_version 1) (some (record { value = number 3; expires = none })) (
      update_at (session 21) (some (record { value = uuid 1; expires = some (90 * day) }))
        (λ _. none));
  zsets = update_at (user_sessions 1) (put (uuid 21) (90 * day) empty_set) (λ _. empty_set);
}

abbrev pub signed_in : World
signed_in = record { db = rows; committed = rows; redis = cached }

-- The cache knows nothing.
abbrev pub uncached : World
uncached = record {
  db = rows;
  committed = rows;
  redis = record { strings = λ _. none; zsets = λ _. empty_set };
}

abbrev pub access_claims : Payload
access_claims = access_payload (at 1_000) 15 1 21 user 3

abbrev pub refresh_claims : Uuid → Payload
refresh_claims sid = refresh_payload 0 90 1 sid

abbrev until : Time → ℕ → Payload → Decoded
until now exp p = if ltb now (exp * second) then claims p else expired

abbrev pub jwt : Jwt
jwt = record {
  encode = λ p. elim p.sid [ none ↦ "next" | some _ ↦ "access" ];
  decode = λ now token.
      if token == "access"
      then until now 1_900 access_claims
      else if token == "refresh"
      then until now 7_776_000 (refresh_claims 21)
      else if token == "reused"
      then until now 7_776_000 (refresh_claims 22)
      else invalid;
}

abbrev pub backend : Backend
backend = record {
  redis = server;
  users = table (1 ∷ 2 ∷ []);
  profiles = table [];
  preferences = table [];
  devices = table (11 ∷ []);
  sessions = table (21 ∷ 22 ∷ 23 ∷ []);
  locks = λ _ _. true;
  commits = λ _. true;
  jwt = jwt;
  sha256_hex = λ token. if token == "refresh" then "hash of refresh" else "hash of next";
}

abbrev pub principal : CurrentPrincipal
principal = record { user_id = 1; session_id = 21; role = user; authorization_version = 3 }

abbrev pub validate_at : ℕ → ValidateCall
validate_at seconds = record {
  decode_now = at seconds;
  read_now = at seconds;
  now = at seconds;
  cache_now = at seconds;
}

abbrev pub refresh_at : ℕ → Uuid → RefreshCall
refresh_at seconds new = record {
  refresh_expire_days = 90;
  access_expire_minutes = 15;
  decode_now = at seconds;
  now = at seconds;
  refresh_now = at seconds;
  access_now = at seconds;
  reuse_now = at seconds;
  reuse_revoke_now = at seconds;
  new_session_id = new;
}
