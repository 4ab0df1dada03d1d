-- ===== src/Auth/LoginUser/Requested.antt =====
-- What a log-in leaves when it returns.
use base_backend.Prelude.{
  ◌+◌, ◌*◌, ◌≡◌, ◌≢◌, ◌∙◌, ap, sym, arith, String, none, some, string_eq, contains, if◌then◌else◌,
}
use base_backend.Errors.{ok}
use base_backend.Exec.{except_raise}
use base_backend.Exec.Inversion.{Returns, bind-ok, pure-Returns}
use base_backend.Redis.{second, Uuid}
use base_backend.Sql.Upsert.{Upsert}
use base_backend.World.{UserDeviceModel, World, Backend, rollback}
use base_backend.Users.Repository.Creation.{HasEmail}
use base_backend.Auth.{DeviceInfo, LoginResultDto}
use base_backend.Auth.LoginRequests.{LoginRedis}
use base_backend.Auth.LoginRequests.Pending.{LoginPipeline, live_members, request_ttl}
use base_backend.Auth.VerifyEmail.{LoginState, on_world}
use base_backend.Auth.LoginUser.{
  Login, send_otp_code, raise_after, code, new_request, prepare, announce, clean_up, login_result,
  login_user,
}
use base_backend.Auth.LoginUser.Steps.{
  raise_after-Returns, handle-Returns, prepare-Returns, announce-Returns,
}

-- A code was requested: the user `user_id` of the email and its device `device_id` have the new
-- request, and no other that was pending.
pub record IsRequested (b : Backend) (devices : Upsert UserDeviceModel) (redis : LoginRedis)
    (pipe : LoginPipeline) (c : Login) (email : String) (s s' : LoginState) : Type 0 where
  pub user_id : Uuid
  pub device_id : Uuid
  pub user_row : HasEmail s'.world.db.users user_id email
  pub settled : s'.world.db ≡ s'.world.committed
  pub code_sent : send_otp_code (c.delivery email (code b devices redis pipe c)) ≡ ok tt
  pub stored :
      s'.logins c.request_id
      ≡ some (record {
        request = new_request b devices redis pipe c user_id device_id;
        expires =
            c.create_now
            + request_ttl (c.now + c.otp_expire_seconds * second) c.create_now * second;
      })
  pub others :
      (id : String)
      → id ≢ c.request_id
      → s'.logins id ≡ (
          if contains (live_members c.delete_now (s.pending user_id device_id)) id
          then none
          else s.logins id)

module _ (b : Backend) (devices : Upsert UserDeviceModel) (redis : LoginRedis)
    (pipe : LoginPipeline) (c : Login) where
  -- When a log-in returns, the code was sent, and the request that it names stands in Redis for the user
  -- with the email, which is committed: with the hash of the code, all attempts and the time at which it
  -- expires. What was pending for the same device is gone, and every other request is as it was.
  pub login_user-Returns :
      (email : String) (device : DeviceInfo) (s : LoginState) {r : LoginResultDto} {s' : LoginState}
      → Returns (login_user b devices redis pipe c email device) s r s'
      → (r.login_request_id ≡ c.request_id) × IsRequested b devices redis pipe c email s s'
  unfolding login_user
  login_user-Returns email device s {r} {s'} h =
      let first =
        except_raise (prepare b devices redis pipe c email device) (λ _. on_world rollback) in
      let ((u, d), s1, e1, r1) = bind-ok first _ s h in
      let rest = λ (x : LoginState).
        raise_after (clean_up b devices redis pipe c)
          (announce b devices redis pipe c email (u, d) x) in
      let (_, s2, e2, r2) = bind-ok rest _ s1 r1 in
      let f1 =
        handle-Returns (λ _. on_world rollback) (prepare b devices redis pipe c email device s)
          e1 in
      let f2 =
        raise_after-Returns (clean_up b devices redis pipe c)
          (announce b devices redis pipe c email (u, d) s1) e2 in
      let ((m, here, same), _, dropped) =
        prepare-Returns b devices redis pipe c email device s f1 in
      let (world, sent, logins) = announce-Returns b devices redis pipe c email u d s1 f2 in
      let (e3, g3) = pure-Returns (login_result b devices redis pipe c) s2 r2 in
      let world' = ap (λ (x : LoginState). x.world) g3 ∙ world in
      let logins' = ap (λ (x : LoginState). x.logins) g3 ∙ logins in
      (
        ap (λ (x : LoginResultDto). x.login_request_id) (sym e3),
        record {
          user_id = u;
          device_id = d;
          user_row = (m, ap (λ (x : World). x.db.users u) world' ∙ here, same);
          settled = ap (λ (x : World). x.db) world' ∙ sym (ap (λ (x : World). x.committed) world');
          code_sent = sent;
          stored =
              ap (λ (x : String → _). x c.request_id) logins'
              ∙ ground (arith, string_eq.equal_iff c.request_id c.request_id);
          others = λ id other.
              ap (λ (x : String → _). x id) logins'
              ∙ ground (arith, string_eq.equal_iff id c.request_id, dropped id);
        },
      )
