-- ===== src/Tests/LoginUser.antt =====
-- A log-in on a concrete backend, the verification of its code, and a log-in whose code is refused.
use base_backend.Prelude.{
  ◌≡◌, refl, sym, inl, ap, subst, Bool, true, false, Option, none, some, [], ◌∷◌, String, arith,
  nat_eq, string_eq, update_at, contains,
}
use base_backend.Errors.{err, is_failure, sqlalchemy_error, otp_recipient_rejected}
use base_backend.Exec.{Exec}
use base_backend.Exec.Inversion.{Returns}
use base_backend.Exec.NeverRaises.{Raises}
use base_backend.Redis
use base_backend.Redis.{second, Uuid}
use base_backend.Authorization.Store
use base_backend.Sql.{Table, select_one, select_first, update_all, insert_row}
use base_backend.Sql.Upsert.{Upsert, Upserted, upsert_row}
use base_backend.World.{UserDeviceModel, Backend, commit, rollback}
use base_backend.Users.Repository.{get_or_create, get_by_email, get_by_id, to_entity}
use base_backend.Auth.{DeviceInfo, LoginResultDto, TokenPairDto}
use base_backend.Auth.Repository.{
  upsert_user_device, revoke_active_sessions_for_user_device, create_session, touch_user_device,
}
use base_backend.Auth.Tokens.{
  access_payload, refresh_payload, create_access_token, create_refresh_token,
}
use base_backend.Auth.LoginRequests.{
  get_login_request, read_ttl, write_request, patch_found, patch_request, mark_login_consumed,
}
use base_backend.Auth.LoginRequests.Pending.{
  LoginPipeline, live_members, run, exec_pipe, read_members, delete_all, delete_pending_logins,
  create_login_request, forget_pending, delete_login_request,
}
use base_backend.Auth.LoginUser.{
  Delivery, sent, recipients_refused, send_otp_code, Login, prepare, announce, clean_up, login_user,
}
use base_backend.Auth.LoginUser.Requested.{IsRequested, login_user-Returns}
use base_backend.Auth.LoginUser.Verified.{login_user-verifies}
use base_backend.Auth.LoginUser.Cleaned.{login_user-cleans}
use base_backend.Auth.VerifyEmail.{
  LoginState, open_session, accept_code, check_request, on_code, verify_email_steps, verify_email,
}
use base_backend.Tests.Database.{same_value, find_row, find_row-found}
use base_backend.Tests.Fixtures.{backend, signed_in, at}
use base_backend.Tests.Login.{login_redis, requested, verification}

abbrev pipeline : LoginPipeline
pipeline = record {
  smembers = λ now u d k. some (live_members now (k.pending u d));
  smembers_done = λ now u d k id h. ap (λ ids. contains ids id) (sym (same_value h));
  exec = λ now cs k. (true, run now cs k);
  exec_done = λ now cs k h. refl;
}

-- A table of devices that sees the row 11, and fails where that is not in conflict.
abbrev update_found :
    (UserDeviceModel → UserDeviceModel)
    → Table UserDeviceModel
    → Option (Uuid × UserDeviceModel)
    → Option (Uuid × Table UserDeviceModel)
update_found f t none = none
update_found f t (some (j, x)) = some (j, update_at j (some (f x)) t)

update_found-done :
    (p : Uuid → UserDeviceModel → Bool) (k : Uuid) (r : UserDeviceModel)
    (f : UserDeviceModel → UserDeviceModel) (t : Table UserDeviceModel)
    (o : Option (Uuid × UserDeviceModel)) {j : Uuid} {t' : Table UserDeviceModel}
    → find_row (11 ∷ []) p t ≡ o
    → update_found f t o ≡ some (j, t')
    → Upserted p k r f t j t'
update_found-done p k r f t none found h = absurd (cc)
update_found-done p k r f t (some (j, x)) found h =
    let (here, holds) = find_row-found (11 ∷ []) p t found in
    let e = same_value h in
    subst (λ (y : Uuid × Table UserDeviceModel). Upserted p k r f t y.0 y.1) e
      (inl (x, here, holds, refl))

abbrev devices : Upsert UserDeviceModel
devices = record {
  upsert = λ p k r f t. update_found f t (find_row (11 ∷ []) p t);
  upsert_done = λ p k r f t h. update_found-done p k r f t (find_row (11 ∷ []) p t) refl h;
}

abbrev phone : DeviceInfo
phone = record {
  device_id = "phone";
  os = "ios";
  os_version = "18";
  model = "15";
  app_version = "1.1";
  push_provider = none;
  push_token = some "token";
}

abbrev login : Delivery → Login
login delivery = record {
  otp_expire_seconds = 600;
  otp_max_attempts = 5;
  dev_otp_code = none;
  otp_code = "123456";
  hash_otp = λ code. "hash of 123456";
  delivery = λ email code. delivery;
  now = at 5_000;
  delete_now = at 5_000;
  create_now = at 5_000;
  cleanup_now = at 5_000;
  new_user_id = 9;
  new_device_id = 19;
  request_id = "req_2";
}

abbrev login_of_ann : Delivery → Exec LoginState LoginResultDto
login_of_ann delivery =
    login_user backend devices login_redis pipeline (login delivery) "ann@example.com" phone

abbrev login_dto : LoginResultDto
login_dto = record {
  message_code = "otp_sent_to_email";
  login_request_id = "req_2";
  otp_expires_in = 600;
}

abbrev logged_in : LoginState
logged_in = (login_of_ann sent requested).1

code_sent : Returns (login_of_ann sent) requested login_dto logged_in
unfolding login_user prepare announce get_or_create get_by_email select_first select_one to_entity
    upsert_user_device upsert_row delete_pending_logins read_members delete_all exec_pipe run
    create_login_request commit
code_sent = refl

login_user-Returns_example :
    ◌≡◌ {A = String} "req_2" "req_2"
    × IsRequested backend devices login_redis pipeline
        (login sent)
        "ann@example.com"
        requested
        logged_in
login_user-Returns_example =
    login_user-Returns backend devices login_redis pipeline (login sent) "ann@example.com" phone
      requested code_sent

-- A database that refuses commits.
abbrev read_only : Backend
read_only = record backend { commits = λ _. false }

abbrev verify_sent : Exec LoginState TokenPairDto
verify_sent =
    verify_email read_only login_redis (verification 5_100) "ann@example.com" "123456" "req_2"

verification_fails : Raises verify_sent logged_in sqlalchemy_error (verify_sent logged_in).1
unfolding login_user prepare announce get_or_create get_by_email select_first select_one to_entity
    upsert_user_device upsert_row delete_pending_logins read_members delete_all exec_pipe run
    create_login_request commit verify_email verify_email_steps get_login_request get_by_id
    check_request on_code accept_code mark_login_consumed patch_request patch_found read_ttl
    write_request open_session revoke_active_sessions_for_user_device update_all
    Store.revoke_all_sessions Store.write Redis.run Redis.runs create_session insert_row
    touch_user_device create_access_token create_refresh_token access_payload refresh_payload
    rollback
verification_fails = refl

login_user-verifies_example : is_failure sqlalchemy_error ≡ true
login_user-verifies_example =
    login_user-verifies backend read_only devices login_redis pipeline (login sent)
      (verification 5_100) "ann@example.com" phone requested code_sent refl (omega arith)
      (omega arith) (omega arith) verification_fails

abbrev not_sent : LoginState
not_sent = (login_of_ann recipients_refused requested).1

code_refused : Raises (login_of_ann recipients_refused) requested otp_recipient_rejected not_sent
unfolding login_user prepare announce get_or_create get_by_email select_first select_one to_entity
    upsert_user_device upsert_row delete_pending_logins read_members delete_all exec_pipe run
    create_login_request clean_up delete_login_request get_login_request forget_pending rollback
code_refused = refl

login_user-cleans_example :
    (send_otp_code recipients_refused ≡ err otp_recipient_rejected)
    × (not_sent.logins "req_2" ≡ none)
    × (not_sent.world.db ≡ signed_in.committed)
    × (not_sent.world.committed ≡ signed_in.committed)
login_user-cleans_example =
    login_user-cleans backend devices login_redis pipeline (login recipients_refused)
      otp_recipient_rejected refl "ann@example.com" phone requested code_refused
