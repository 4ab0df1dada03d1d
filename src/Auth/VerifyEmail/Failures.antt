-- ===== src/Auth/VerifyEmail/Failures.antt =====
-- The parts of `VerifyEmailUseCase.execute` that raise failures only, and those that do not raise
-- `InvalidOtpError`.
use base_backend.Prelude.{
  ℕ, ◌≡◌, ◌≢◌, inl, inr, String, Bool, true, false, Option, none, some, is_some, arith, Bool-cases,
  Option-cases, ltb, leb, ◌==◌, string_eq, nat_eq,
}
use base_backend.Errors.{
  Error, invalid_login_request, login_request_already_used, otp_expired, too_many_attempts,
  invalid_otp, is_failure,
}
use base_backend.Exec.{Exec, raise_if, or_raise}
use base_backend.Exec.NeverRaises.{NeverRaises, bind-NeverRaises, on-NeverRaises}
use base_backend.Redis.{Time, Uuid}
use base_backend.Sql.{select_one}
use base_backend.World.{World, Backend}
use base_backend.World.Failures.{failure_rules}
use base_backend.Users.{User}
use base_backend.Users.Repository.{get_by_id, set_verified}
use base_backend.Auth.Repository.{
  revoke_active_sessions_for_user_device, create_session, touch_user_device,
}
use base_backend.Auth.LoginRequests.{
  LoginRequest, Requests, LoginRedis, get_login_request, read_ttl, write_request, patch_found,
  patch_request, mark_login_consumed,
}
use base_backend.Auth.VerifyEmail.{
  Verification, LoginState, on_world, on_logins, user_of_email, open_session, accept_code,
  check_request,
}

module _ (e : Error) (own : is_failure e ≡ false) where
  pub on_world-NeverRaises :
      {A : Type 0} (m : Exec World A) → NeverRaises e m → NeverRaises e (on_world m)
  on_world-NeverRaises m k =
      on-NeverRaises e (λ (s : LoginState). s.world) (λ w (s : LoginState). record s { world = w })
        m k

  pub on_logins-NeverRaises :
      {A : Type 0} (m : Exec Requests A) → NeverRaises e m → NeverRaises e (on_logins m)
  on_logins-NeverRaises m k =
      on-NeverRaises e (λ (s : LoginState). s.logins)
        (λ r (s : LoginState). record s { logins = r }) m k

  module _ (redis : LoginRedis) (now : Time) (id : String) where
    pub get_login_request-NeverRaises : NeverRaises e (get_login_request redis now id)
    unfolding get_login_request
    get_login_request-NeverRaises = record {
      at = λ s u h. elim (Option-cases (redis.get now id s)) [
        | inl f ↦ ground arith
        | inr (r, f) ↦ cc
      ];
    }

    read_ttl-NeverRaises : NeverRaises e (read_ttl redis now id)
    unfolding read_ttl
    read_ttl-NeverRaises = record {
      at = λ s u h. elim (Option-cases (redis.ttl now id s)) [
        | inl f ↦ ground arith
        | inr (r, f) ↦ cc
      ];
    }

    write_request-NeverRaises :
        (r : LoginRequest) (seconds : ℕ) → NeverRaises e (write_request redis now id r seconds)
    unfolding write_request
    write_request-NeverRaises r seconds = record {
      at = λ s u h. elim (Bool-cases (redis.set_ex now id r seconds s).0) [
        | inl f ↦ cc
        | inr f ↦ ground arith
      ];
    }

    patch_found-NeverRaises :
        (f : LoginRequest → LoginRequest) (found : Option LoginRequest)
        → NeverRaises e (patch_found redis now id f found)
    unfolding patch_found
    patch_found-NeverRaises f none = search failure_rules
    patch_found-NeverRaises f (some r) =
        search (failure_rules, read_ttl-NeverRaises, write_request-NeverRaises)

    pub patch_request-NeverRaises :
        (f : LoginRequest → LoginRequest) → NeverRaises e (patch_request redis now id f)
    unfolding patch_request
    patch_request-NeverRaises f =
        search (failure_rules, get_login_request-NeverRaises, patch_found-NeverRaises)

  module _ (b : Backend) (redis : LoginRedis) (v : Verification) where
    pub get_by_id-NeverRaises : (u : Uuid) → NeverRaises e (get_by_id b u)
    unfolding get_by_id select_one
    get_by_id-NeverRaises u = record {
      at = λ w x h. elim (Option-cases (b.users.select u (λ _. true) w.db.users)) [
        | inl failed ↦ ground arith
        | inr (none, f) ↦ ground arith
        | inr (some m, f) ↦ elim (Option-cases (b.profiles.select u (λ _. true) w.db.profiles)) [
          | inl failed ↦ ground arith
          | inr (r, f') ↦ ground arith
        ]
      ];
    }

    open_session-NeverRaises :
        (u : User) (r : LoginRequest) → NeverRaises e (open_session b redis v u r)
    unfolding open_session set_verified revoke_active_sessions_for_user_device create_session
        touch_user_device
    open_session-NeverRaises u r = search failure_rules depth 14

    pub accept_code-NeverRaises :
        (id : String) (u : User) (r : LoginRequest) → NeverRaises e (accept_code b redis v id u r)
    unfolding accept_code mark_login_consumed
    accept_code-NeverRaises id u r =
        search
          (
            failure_rules, on_logins-NeverRaises, on_world-NeverRaises, patch_request-NeverRaises,
            open_session-NeverRaises,
          )
          depth 8

module _ (n : ℕ) where
  module _ (b : Backend) (redis : LoginRedis) (v : Verification) where
    pub user_of_email-NeverRaises :
        (email : String) (k : ℕ) (found : Option User)
        → NeverRaises (invalid_otp n) (user_of_email email k found)
    user_of_email-NeverRaises email k none = record { at = λ s u h. cc }
    user_of_email-NeverRaises email k (some x) = record {
      at = λ s u h. elim (Bool-cases (x.email == email)) [
        | inl f ↦ cc (rw f at h)
        | inr f ↦ cc (rw f at h)
      ];
    }

    raise_if-NeverRaises :
        (c : Bool) (x : Error)
        → x ≢ invalid_otp n
        → NeverRaises {S = LoginState} (invalid_otp n) (raise_if c x)
    raise_if-NeverRaises true x other = record { at = λ s u h. other (cc) }
    raise_if-NeverRaises false x other = record { at = λ s u h. cc }

    pub check_request-NeverRaises :
        (r : LoginRequest) → NeverRaises (invalid_otp n) (check_request b redis v r)
    unfolding check_request
    check_request-NeverRaises r =
        bind-NeverRaises (invalid_otp n) _ _
          (raise_if-NeverRaises (is_some r.consumed_at)
            (login_request_already_used (some r.attempts_left)) (λ h. cc))
          (λ _.
            bind-NeverRaises (invalid_otp n) _ _
              (raise_if-NeverRaises (ltb r.expires_at v.now) otp_expired (λ h. cc))
              (λ _. raise_if-NeverRaises (leb r.attempts_left 0) too_many_attempts (λ h. cc)))

    pub or_raise-NeverRaises :
        (o : Option LoginRequest)
        → NeverRaises {S = LoginState} (invalid_otp n) (or_raise o invalid_login_request)
    or_raise-NeverRaises none = record { at = λ s u h. cc }
    or_raise-NeverRaises (some r) = record { at = λ s u h. cc }
