-- ===== src/Auth/LoginUser.antt =====
-- app/modules/auth/application/use_cases/login_user.py, from the normalized email
-- (`email.strip().lower()`) on, and `send_otp_code` of app/modules/auth/infrastructure/email_otp_provider.py.
-- `Login` holds the settings, the results of the clock, of `uuid4()` and of the random generator during
-- one call, the salted hash of bcrypt, and what the mail server did. An exception of the mail server that
-- the source does not catch stands as `value_error`.
pub mod Steps
pub mod Requested
pub mod Verified
pub mod Failures
pub mod Cleaned
use base_backend.Prelude.{
  ℕ, ◌+◌, ◌*◌, String, Bool, true, false, Option, none, some, ◌==◌, string_eq, if◌then◌else◌,
}
use base_backend.Errors.{
  Error, Result, ok, err, otp_recipient_rejected, otp_delivery_failed, value_error,
}
use base_backend.Exec.{Exec, pure, lift, except_raise, on, ◌>>=◌, ◌>>◌}
use base_backend.Redis.{Time, second, Uuid}
use base_backend.Sql.Upsert.{Upsert}
use base_backend.World.{UserDeviceModel, Backend, commit, rollback}
use base_backend.Users.{User}
use base_backend.Users.Repository.{get_or_create}
use base_backend.Auth.{DeviceInfo, LoginResultDto}
use base_backend.Auth.Repository.{upsert_user_device}
use base_backend.Auth.LoginRequests.{LoginRequest, LoginRedis}
use base_backend.Auth.LoginRequests.Pending.{
  LoginKeys, LoginPipeline, delete_pending_logins, create_login_request, delete_login_request,
}
use base_backend.Auth.VerifyEmail.{LoginState, on_world}

-- What `smtplib` did; `other_error` is an exception that the provider does not catch.
pub data Delivery : Type 0 where
  sent : Delivery
  recipients_refused : Delivery
  os_error : Delivery
  smtp_error : Delivery
  other_error : Delivery

abbrev pub send_otp_code : Delivery → Result (Unit {0})
send_otp_code sent = ok tt
send_otp_code recipients_refused = err otp_recipient_rejected
send_otp_code os_error = err otp_delivery_failed
send_otp_code smtp_error = err otp_delivery_failed
send_otp_code other_error = err value_error

pub record Login : Type 0 where
  pub otp_expire_seconds : ℕ
  pub otp_max_attempts : ℕ
  pub dev_otp_code : Option String
  pub otp_code : String
  pub hash_otp : String → String
  pub delivery : String → String → Delivery
  pub now : Time
  -- the times of Redis at the deletion of what is pending, at the creation, and in the handler
  pub delete_now : Time
  pub create_now : Time
  pub cleanup_now : Time
  pub new_user_id : Uuid
  pub new_device_id : Uuid
  pub request_id : String

abbrev pub on_keys : {A : Type 0} → Exec LoginKeys A → Exec LoginState A
on_keys =
    on (λ s. record { requests = s.logins; pending = s.pending })
      (λ k s. record s { logins = k.requests; pending = k.pending })

-- The end of a handler that was entered with `e`: `raise`, unless the handler raised.
abbrev pub raise_unless : {S A : Type 0} → Error → Result (Unit {0}) × S → Result A × S
raise_unless e (ok _, t) = (err e, t)
raise_unless e (err e', t) = (err e', t)

-- `except Exception: handler; raise`, where the handler may raise instead.
abbrev pub raise_after : {S A : Type 0} → Exec S (Unit {0}) → Result A × S → Result A × S
raise_after handler (ok a, s) = (ok a, s)
raise_after handler (err e, s) = raise_unless e (handler s)

-- An empty code is none.
abbrev pub chosen_code : Option String → String → String
chosen_code none generated = generated
chosen_code (some dev) generated = if dev == "" then generated else dev

module _ (b : Backend) (devices : Upsert UserDeviceModel) (redis : LoginRedis)
    (pipe : LoginPipeline) (c : Login) where
  abbrev pub code : String
  code = chosen_code c.dev_otp_code c.otp_code

  abbrev pub new_request : Uuid → Uuid → LoginRequest
  new_request user_id user_device_id = record {
    user_id = user_id;
    user_device_id = user_device_id;
    otp_hash = c.hash_otp code;
    attempts_left = c.otp_max_attempts;
    expires_at = c.now + c.otp_expire_seconds * second;
    consumed_at = none;
  }

  -- The body of `try` until the request has an id.
  unfoldable pub prepare : String → DeviceInfo → Exec LoginState (Uuid × Uuid)
  prepare normalized device = do
    user ← on_world (get_or_create b c.new_user_id normalized c.now)
    user_device_id ← on_world (upsert_user_device devices c.new_device_id user.id device c.now)
    on_keys (delete_pending_logins redis pipe c.delete_now user.id user_device_id)
    pure (user.id, user_device_id)

  -- The rest of it.
  unfoldable pub announce : String → Uuid × Uuid → Exec LoginState (Unit {0})
  announce normalized (user_id, user_device_id) = do
    on_keys (
        create_login_request redis pipe c.create_now c.request_id
          (new_request user_id user_device_id))
    lift (send_otp_code (c.delivery normalized code))
    on_world (commit b)

  -- The handler, once the request has an id.
  unfoldable pub clean_up : Exec LoginState (Unit {0})
  clean_up =
      on_keys (delete_login_request redis pipe c.cleanup_now c.request_id) >> on_world rollback

  abbrev pub login_result : LoginResultDto
  login_result = record {
    message_code = "otp_sent_to_email";
    login_request_id = c.request_id;
    otp_expires_in = c.otp_expire_seconds;
  }

  unfoldable pub login_user : String → DeviceInfo → Exec LoginState LoginResultDto
  login_user normalized device = do
    ids ← except_raise (prepare normalized device) (λ _. on_world rollback)
    (λ s. raise_after clean_up (announce normalized ids s))
    pure login_result
