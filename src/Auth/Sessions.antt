-- ===== src/Auth/Sessions.antt =====
-- The use cases of app/modules/auth/application/use_cases that end sessions: revoke_token.py,
-- revoke_all_tokens.py, logout_user.py, and update_device_notifications.py, which asks for a session
-- that is not revoked. `now` is what `datetime.now(UTC)` returned.
pub mod Atomic
pub mod Revocation
use base_backend.Prelude.{Option, none, some, is_none, is_some, ◌&&◌, ◌==◌, nat_eq, if◌then◌else◌}
use base_backend.Errors.{forbidden, session_not_found, session_already_revoked, session_revoked}
use base_backend.Exec.{Exec, pure, raise, raise_if, ◌>>=◌, ◌>>◌}
use base_backend.Redis.{Time, Uuid}
use base_backend.Authorization.Store
use base_backend.World.{World, Backend, on_redis, commit, transaction}
use base_backend.Auth.{UserSession, DeviceNotifications, MessageResultDto}
use base_backend.Auth.Repository.{
  update_user_device_notifications, get_session, revoke_session, revoke_session_by_id,
  revoke_all_active_for_user,
}

-- `if row is None: raise SessionNotFoundError()`, and `ForbiddenSessionError` for another's session
abbrev pub own_session : Uuid → Option UserSession → Exec World UserSession
own_session user_id none = raise session_not_found
own_session user_id (some row) = if row.user_id == user_id then pure row else raise forbidden

module _ (b : Backend) (now : Time) where
  -- Why nothing was revoked: the branch `if not ok` of `RevokeTokenUseCase`.
  unfoldable pub not_revoked : Uuid → Uuid → Exec World (Unit {0})
  not_revoked user_id session_id = do
    row ← get_session b session_id
    own_session user_id row
    raise session_already_revoked

  -- The body of `try` in each use case, under the name of the use case.
  unfoldable pub revoke_token_steps : Uuid → Uuid → Exec World MessageResultDto
  revoke_token_steps user_id session_id = do
    done ← revoke_session b session_id user_id now
    if done then pure tt else not_revoked user_id session_id
    on_redis (Store.revoke_session b.redis now user_id session_id)
    commit b
    pure (record { message_code = "session_deleted" })

  unfoldable pub revoke_token : Uuid → Uuid → Exec World MessageResultDto
  revoke_token user_id session_id = transaction (revoke_token_steps user_id session_id)

  unfoldable pub revoke_all_tokens_steps : Uuid → Exec World MessageResultDto
  revoke_all_tokens_steps user_id = do
    revoke_all_active_for_user b user_id now
    on_redis (Store.revoke_all_sessions b.redis now user_id)
    commit b
    pure (record { message_code = "all_sessions_deleted" })

  unfoldable pub revoke_all_tokens : Uuid → Exec World MessageResultDto
  revoke_all_tokens user_id = transaction (revoke_all_tokens_steps user_id)

  unfoldable pub logout_user_steps : Uuid → Uuid → Exec World MessageResultDto
  logout_user_steps user_id session_id = do
    found ← get_session b session_id
    row ← own_session user_id found
    if is_none row.revoked_at then revoke_session_by_id b session_id now else pure tt
    on_redis (Store.revoke_session b.redis now user_id session_id)
    commit b
    pure (record { message_code = "logged_out" })

  unfoldable pub logout_user : Uuid → Uuid → Exec World MessageResultDto
  logout_user user_id session_id = transaction (logout_user_steps user_id session_id)

  update_device_notifications_steps : Uuid → Uuid → DeviceNotifications → Exec World (Unit {0})
  update_device_notifications_steps user_id session_id body = do
    found ← get_session b session_id
    row ← own_session user_id found
    raise_if (is_some row.revoked_at) session_revoked
    update_user_device_notifications b row.user_device_id body.push_provider body.push_token now
    commit b

  pub update_device_notifications : Uuid → Uuid → DeviceNotifications → Exec World (Unit {0})
  update_device_notifications user_id session_id body =
      if is_none body.push_provider && is_none body.push_token
      then pure tt
      else transaction (update_device_notifications_steps user_id session_id body)
