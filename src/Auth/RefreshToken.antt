-- ===== src/Auth/RefreshToken.antt =====
-- app/modules/auth/application/use_cases/refresh_token.py. `Clock` holds what the calls of
-- `datetime.now(UTC)` returned, and `new_session_id` what `uuid4()` did.
pub mod Branches
pub mod Rotation
pub mod Replay
pub mod Failures
pub mod Settling
pub mod Reuse
use base_backend.Prelude.{
  ℕ, ◌+◌, ◌*◌, String, Bool, true, false, not, Option, none, some, ltb, ◌==◌, nat_eq, string_eq,
  if◌then◌else◌,
}
use base_backend.Errors.{Error, invalid_token, invalid_refresh_token, token_expired}
use base_backend.Exec.{Exec, pure, raise, raise_if, lift, ◌>>=◌, ◌>>◌}
use base_backend.Redis.{Time, second, Uuid, Value, number}
use base_backend.Authorization.{active, status_eq}
use base_backend.Authorization.Store
use base_backend.World.{World, Backend, Payload, UserSessionModel, on_redis, commit, transaction}
use base_backend.Users.{User}
use base_backend.Users.Repository.{get_by_id}
use base_backend.Auth.{UserSession, TokenPairDto}
use base_backend.Auth.Tokens.{
  uuid_claim, day, decode_token, create_refresh_token, create_access_token,
}
use base_backend.Auth.Repository.{
  lock_user_refresh, get_session_for_update, revoke_session_by_id, revoke_all_active_for_user,
  create_session, touch_user_device,
}

-- The settings and the results of the clock and of `uuid4()` during one call.
pub record RefreshCall : Type 0 where
  pub refresh_expire_days : ℕ
  pub access_expire_minutes : ℕ
  -- in `decode_token`, `execute`, `create_refresh_token` and `create_access_token`
  pub decode_now : Time
  pub now : Time
  pub refresh_now : Time
  pub access_now : Time
  -- in `_maybe_revoke_all_on_reuse`
  pub reuse_now : Time
  pub reuse_revoke_now : Time
  pub new_session_id : Uuid

-- `isinstance(exp, (int, float)) and datetime.now(UTC).timestamp() < float(exp)`
abbrev pub is_unexpired : Time → Option Value → Bool
is_unexpired now (some (number exp)) = ltb now (exp * second)
is_unexpired now _ = false

-- `self._hasher.verify_refresh_hash(refresh_token, stored)`: `hmac.compare_digest` of the hash
abbrev pub verify_refresh_hash : Backend → String → String → Bool
verify_refresh_hash b token stored_hex = b.sha256_hex token == stored_hex

-- How the body of `try` ends where it raises nothing: with the tokens, or with the error that it
-- raises after a commit (`committed_before_error`), which the handler does not roll back.
pub data Outcome : Type 0 where
  issued : TokenPairDto → Outcome
  raised_after_commit : Error → Outcome

abbrev pub finish : Outcome → Exec World TokenPairDto
finish (issued tokens) = pure tokens
finish (raised_after_commit e) = raise e

-- `user is None or user.status != UserStatus.ACTIVE`
abbrev pub active_user : Option User → Exec World User
active_user none = raise invalid_refresh_token
active_user (some u) = if u.status == active then pure u else raise invalid_refresh_token

-- `payload.get("typ") == TokenType.REFRESH.value`
abbrev pub is_refresh : Payload → Bool
is_refresh payload = elim payload.typ [ none ↦ false | some typ ↦ typ == "refresh" ]

module _ (b : Backend) (call : RefreshCall) where
  -- `revoke_all_active_for_user`, then `revoke_all_sessions` of the access state
  unfoldable pub revoke_everything : Uuid → Time → Exec World (Unit {0})
  revoke_everything user_id at = do
    revoke_all_active_for_user b user_id at
    on_redis (Store.revoke_all_sessions b.redis at user_id)

  unfoldable pub maybe_revoke_all_on_reuse : Payload → Uuid → Exec World Bool
  maybe_revoke_all_on_reuse payload user_id =
      if is_unexpired call.reuse_now payload.exp
      then (revoke_everything user_id call.reuse_revoke_now >> pure true)
      else pure false

  -- No active session: the token may be one that was used before.
  unfoldable pub refuse_missing : Payload → Uuid → Exec World Outcome
  refuse_missing payload user_id = do
    reuse ← maybe_revoke_all_on_reuse payload user_id
    if reuse
        then (commit b >> pure (raised_after_commit invalid_refresh_token))
        else raise invalid_refresh_token

  -- Revoke everything of the user, commit, and raise.
  unfoldable pub refuse_all : Uuid → Exec World Outcome
  refuse_all user_id = do
    revoke_everything user_id call.now
    commit b
    pure (raised_after_commit invalid_refresh_token)

  unfoldable pub refuse_expired : Uuid → Uuid → Exec World Outcome
  refuse_expired user_id session_id = do
    revoke_session_by_id b session_id call.now
    on_redis (Store.revoke_session b.redis call.now user_id session_id)
    commit b
    pure (raised_after_commit token_expired)

  abbrev pub new_refresh_token : Uuid → String
  new_refresh_token user_id =
      create_refresh_token b.jwt call.refresh_now call.refresh_expire_days user_id
        call.new_session_id

  -- The row of the session that replaces an old one on its device.
  abbrev pub new_session : Uuid → Uuid → UserSessionModel
  new_session user_id user_device_id = record {
    user_id = user_id;
    user_device_id = user_device_id;
    refresh_token_hash = b.sha256_hex (new_refresh_token user_id);
    expires_at = call.now + call.refresh_expire_days * day;
    created_at = call.now;
    last_active_at = call.now;
    revoked_at = none;
  }

  -- The old session ends and a new one begins.
  unfoldable pub rotate : Uuid → Uuid → UserSession → Exec World Outcome
  rotate user_id session_id session = do
    revoke_session_by_id b session_id call.now
    on_redis (Store.revoke_session b.redis call.now user_id session_id)
    found ← get_by_id b user_id
    user ← active_user found
    create_session b call.new_session_id (new_session user_id session.user_device_id)
    touch_user_device b session.user_device_id call.now
    commit b
    pure (
        issued (record {
          access_token =
              create_access_token b.jwt call.access_now call.access_expire_minutes user_id
                call.new_session_id user.role user.authorization_version;
          refresh_token = new_refresh_token user_id;
        }))

  -- The tests on a session that is there and not revoked.
  unfoldable pub check_session : String → Uuid → Uuid → UserSession → Exec World Outcome
  check_session refresh_token user_id session_id session =
      if not (session.user_id == user_id)
      then refuse_all user_id
      else if ltb session.expires_at call.now
      then refuse_expired user_id session_id
      else if not (verify_refresh_hash b refresh_token session.refresh_token_hash)
      then refuse_all session.user_id
      else rotate user_id session_id session

  unfoldable pub on_session :
      String → Payload → Uuid → Uuid → Option UserSession → Exec World Outcome
  on_session refresh_token payload user_id session_id none = refuse_missing payload user_id
  on_session refresh_token payload user_id session_id (some session) =
      check_session refresh_token user_id session_id session

  -- The body of `try`.
  unfoldable pub attempt : String → Payload → Uuid → Uuid → Exec World Outcome
  attempt refresh_token payload user_id session_id = do
    lock_user_refresh b user_id
    session ← get_session_for_update b session_id
    on_session refresh_token payload user_id session_id session

  unfoldable pub refresh_token : String → Exec World TokenPairDto
  refresh_token token = do
    payload ← lift (decode_token b.jwt call.decode_now token)
    raise_if (not (is_refresh payload)) invalid_token
    user_id ← lift (uuid_claim payload.sub)
    session_id ← lift (uuid_claim payload.jti)
    outcome ← transaction (attempt token payload user_id session_id)
    finish outcome
