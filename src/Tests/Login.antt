-- ===== src/Tests/Login.antt =====
-- The verification of a code on a concrete backend, and the same log-in request again.
use base_backend.Prelude.{
  ℕ, ◌+◌, ◌*◌, ◌<◌, ◌≡◌, refl, sym, true, false, ◌&&◌, none, some, arith, ◌==◌, string_eq, nat_eq,
  update_at,
}
use base_backend.Exec.Inversion.{Returns}
use base_backend.Redis.{second, run, runs}
use base_backend.Auth.LoginRequests.Patches.{Patched}
use base_backend.Auth.VerifyEmail.Attempts.{verify_email-counts}
use base_backend.Exec.NeverRaises.{Raises}
use base_backend.Errors.{invalid_otp}
use base_backend.Tests.Database.{same_value}
use base_backend.Sql.{select_one, update_all, insert_row}
use base_backend.Authorization.Store
use base_backend.World.{commit, rollback}
use base_backend.Users.Repository.{get_by_id, to_entity}
use base_backend.Auth.{TokenPairDto}
use base_backend.Auth.Tokens.{
  access_payload, refresh_payload, create_access_token, create_refresh_token,
}
use base_backend.Auth.Repository.{
  revoke_active_sessions_for_user_device, create_session, touch_user_device,
}
use base_backend.Auth.LoginRequests.{
  LoginRequest, live_request, LoginRedis, get_login_request, read_ttl, write_request, patch_found,
  patch_request, mark_login_consumed, update_login_attempts,
}
use base_backend.Auth.VerifyEmail.{
  Verification, LoginState, otp_ok, refuse_code, open_session, accept_code, check_request, on_code,
  verify_email_steps, verify_email,
}
use base_backend.Auth.VerifyEmail.Accepted.{IsVerified, verify_email-accepts, verify_email-once}
use base_backend.Tests.Fixtures.{backend, signed_in, at}

abbrev pub login_redis : LoginRedis
login_redis = record {
  get = λ now id s. some (live_request now (s id));
  get_done = λ now id s h. sym (same_value h);
  ttl = λ now id s. some 300;
  set_ex = λ now id r seconds s.
      (true, update_at id (some (record { request = r; expires = now + seconds * second })) s);
  set_ex_done = λ now id r seconds s h. refl;
}

abbrev pending_request : LoginRequest
pending_request = record {
  user_id = 1;
  user_device_id = 11;
  otp_hash = "hash of 123456";
  attempts_left = 5;
  expires_at = at 5_600;
  consumed_at = none;
}

abbrev pub requested : LoginState
requested = record {
  world = signed_in;
  logins =
      update_at "req_1" (some (record { request = pending_request; expires = at 5_600 }))
        (λ _. none);
  pending = λ _ _. none;
}

abbrev pub verification : ℕ → Verification
verification seconds = record {
  refresh_expire_days = 90;
  access_expire_minutes = 15;
  dev_otp_code = none;
  verify_otp = λ code hashed. (hashed == "hash of 123456") && (code == "123456");
  now = at seconds;
  read_now = at seconds;
  patch_now = at seconds;
  revoke_now = at seconds;
  refresh_now = at seconds;
  access_now = at seconds;
  new_session_id = 31;
}

abbrev tokens : TokenPairDto
tokens = record { access_token = "access"; refresh_token = "next" }

abbrev verified_state : LoginState
verified_state =
    (verify_email backend login_redis (verification 5_100) "ann@example.com" "123456" "req_1"
      requested).1

code_accepted :
    Returns
      (verify_email backend login_redis (verification 5_100) "ann@example.com" "123456" "req_1")
      requested
      tokens
      verified_state
unfolding verify_email verify_email_steps get_login_request get_by_id to_entity select_one
    check_request on_code accept_code mark_login_consumed patch_request patch_found read_ttl
    write_request open_session revoke_active_sessions_for_user_device update_all
    Store.revoke_all_sessions Store.write run runs create_session insert_row touch_user_device
    commit create_access_token create_refresh_token access_payload refresh_payload
code_accepted = refl

verify_email-accepts_example :
    IsVerified backend login_redis
      (verification 5_100)
      "ann@example.com"
      "123456"
      "req_1"
      requested
      verified_state
      tokens
verify_email-accepts_example =
    verify_email-accepts backend login_redis (verification 5_100) "ann@example.com" "123456" "req_1"
      requested code_accepted

verify_email-once_example :
    ¬ Returns
      (verify_email backend login_redis (verification 5_200) "ann@example.com" "123456" "req_1")
      verified_state
      tokens
      verified_state
verify_email-once_example =
    verify_email-once backend login_redis (verification 5_100) (verification 5_200)
      "ann@example.com" "123456" "ann@example.com" "123456" "req_1" requested code_accepted
      (omega arith)

abbrev missed : LoginState
missed =
    (verify_email backend login_redis (verification 5_100) "ann@example.com" "654321" "req_1"
      requested).1

code_refused :
    Raises
      (verify_email backend login_redis (verification 5_100) "ann@example.com" "654321" "req_1")
      requested
      (invalid_otp 4)
      missed
unfolding verify_email verify_email_steps get_login_request get_by_id to_entity select_one
    check_request on_code refuse_code update_login_attempts patch_request patch_found read_ttl
    write_request commit rollback
code_refused = refl

verify_email-counts_example :
    (r : LoginRequest) × (live_request (at 5_100) (requested.logins "req_1") ≡ some r)
    × (otp_ok backend login_redis (verification 5_100) "654321" r ≡ false)
    × (0 < 4)
    × (r.attempts_left ≡ 5)
    × Patched
        (at 5_100)
        "req_1"
        (λ x. record x { attempts_left = 4 })
        requested.logins
        missed.logins
verify_email-counts_example =
    verify_email-counts 4 backend login_redis (verification 5_100) "ann@example.com" "654321"
      "req_1" requested code_refused
