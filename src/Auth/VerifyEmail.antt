-- ===== src/Auth/VerifyEmail.antt =====
-- app/modules/auth/application/use_cases/verify_email.py, from the normalized email
-- (`email.strip().lower()`) on. `Verification` holds the settings, the results of the clock and of
-- `uuid4()` during one call, and the comparison of bcrypt.
pub mod Steps
pub mod Opened
pub mod Accepted
pub mod Failures
pub mod Attempts
use base_backend.Prelude.{
  ℕ, ◌+◌, ◌-◌, ◌*◌, String, Bool, true, false, not, ◌||◌, Option, none, some, is_some, ltb, leb,
  ◌==◌, nat_eq, string_eq, if◌then◌else◌,
}
use base_backend.Errors.{
  invalid_login_request, invalid_credentials, login_request_already_used, otp_expired,
  too_many_attempts, invalid_otp,
}
use base_backend.Exec.{Exec, pure, raise, raise_if, or_raise, except_raise, on, ◌>>=◌, ◌>>◌}
use base_backend.Redis.{Time, Uuid}
use base_backend.Authorization.Store
use base_backend.World.{World, Backend, UserSessionModel, on_redis, commit, rollback}
use base_backend.Users.{User}
use base_backend.Users.Repository.{get_by_id, set_verified}
use base_backend.Auth.{TokenPairDto}
use base_backend.Auth.Tokens.{day, create_access_token, create_refresh_token}
use base_backend.Auth.Repository.{
  revoke_active_sessions_for_user_device, create_session, touch_user_device,
}
use base_backend.Auth.LoginRequests.Pending.{PendingSet}
use base_backend.Auth.LoginRequests.{
  LoginRequest, Requests, LoginRedis, get_login_request, mark_login_consumed, update_login_attempts,
}

pub record Verification : Type 0 where
  pub refresh_expire_days : ℕ
  pub access_expire_minutes : ℕ
  pub dev_otp_code : Option String
  -- `bcrypt.checkpw`, false where it raises `ValueError`
  pub verify_otp : String → String → Bool
  pub now : Time
  -- the times of Redis at the read and at the patch of the request
  pub read_now : Time
  pub patch_now : Time
  pub revoke_now : Time
  pub refresh_now : Time
  pub access_now : Time
  pub new_session_id : Uuid

-- The state of a request, and the log-in requests in Redis with the sets of those pending.
pub record LoginState : Type 0 where
  pub world : World
  pub logins : Requests
  pub pending : Uuid → Uuid → Option PendingSet

abbrev pub on_world : {A : Type 0} → Exec World A → Exec LoginState A
on_world = on (λ s. s.world) (λ w s. record s { world = w })

abbrev pub on_logins : {A : Type 0} → Exec Requests A → Exec LoginState A
on_logins = on (λ s. s.logins) (λ r s. record s { logins = r })

-- `user is None or user.email != normalized`
abbrev pub user_of_email : String → ℕ → Option User → Exec LoginState User
user_of_email email attempts_left none = raise (invalid_credentials (some attempts_left))
user_of_email email attempts_left (some u) =
    if u.email == email then pure u else raise (invalid_credentials (some attempts_left))

-- A code that differs from the development code in length differs from it. `secrets.compare_digest` raises
-- `TypeError` on a text that is not ASCII, which is not modelled.
abbrev pub is_dev_code : Option String → String → Bool
is_dev_code none code = false
is_dev_code (some dev) code = code == dev

module _ (b : Backend) (redis : LoginRedis) (v : Verification) where
  abbrev pub otp_ok : String → LoginRequest → Bool
  otp_ok code request = is_dev_code v.dev_otp_code code || v.verify_otp code request.otp_hash

  unfoldable pub refuse_code : String → LoginRequest → Exec LoginState TokenPairDto
  refuse_code request_id request = do
    on_logins (update_login_attempts redis v.patch_now request_id (request.attempts_left - 1))
    on_world (commit b)
    raise (
        if leb (request.attempts_left - 1) 0
        then too_many_attempts
        else invalid_otp (request.attempts_left - 1))

  abbrev pub first_session : Uuid → Uuid → UserSessionModel
  first_session user_id user_device_id = record {
    user_id = user_id;
    user_device_id = user_device_id;
    refresh_token_hash =
        b.sha256_hex
          (create_refresh_token b.jwt v.refresh_now v.refresh_expire_days user_id v.new_session_id);
    expires_at = v.now + v.refresh_expire_days * day;
    created_at = v.now;
    last_active_at = v.now;
    revoked_at = none;
  }

  -- The rows of a log-in, and its commit.
  unfoldable pub open_session : User → LoginRequest → Exec World TokenPairDto
  open_session user request = do
    if user.is_verified then pure tt else set_verified b user.id true
    revoke_active_sessions_for_user_device b user.id request.user_device_id v.now
    on_redis (Store.revoke_all_sessions b.redis v.revoke_now user.id)
    create_session b v.new_session_id (first_session user.id request.user_device_id)
    touch_user_device b request.user_device_id v.now
    commit b
    pure (record {
      access_token =
          create_access_token b.jwt v.access_now v.access_expire_minutes user.id v.new_session_id
            user.role user.authorization_version;
      refresh_token =
          create_refresh_token b.jwt v.refresh_now v.refresh_expire_days user.id v.new_session_id;
    })

  unfoldable pub accept_code : String → User → LoginRequest → Exec LoginState TokenPairDto
  accept_code request_id user request = do
    on_logins (mark_login_consumed redis v.patch_now request_id v.now)
    on_world (open_session user request)

  -- The tests on the request, in the order of the source.
  unfoldable pub check_request : LoginRequest → Exec LoginState (Unit {0})
  check_request request = do
    raise_if (is_some request.consumed_at) (login_request_already_used (some request.attempts_left))
    raise_if (ltb request.expires_at v.now) otp_expired
    raise_if (leb request.attempts_left 0) too_many_attempts

  unfoldable pub on_code : String → String → User → LoginRequest → Exec LoginState TokenPairDto
  on_code code request_id user request =
      if otp_ok code request
      then accept_code request_id user request
      else refuse_code request_id request

  -- The body of `try`.
  unfoldable pub verify_email_steps : String → String → String → Exec LoginState TokenPairDto
  verify_email_steps email code request_id = do
    found ← on_logins (get_login_request redis v.read_now request_id)
    request ← or_raise found invalid_login_request
    row ← on_world (get_by_id b request.user_id)
    user ← user_of_email email request.attempts_left row
    check_request request
    on_code code request_id user request

  unfoldable pub verify_email : String → String → String → Exec LoginState TokenPairDto
  verify_email email code request_id =
      except_raise (verify_email_steps email code request_id) (λ _. on_world rollback)
