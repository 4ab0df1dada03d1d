-- ===== src/Auth/VerifyEmail/Opened.antt =====
-- The session that an accepted code opens: the rows, their commit and the access state after
-- `VerifyEmailUseCase` has returned.
use base_backend.Prelude.{
  ◌+◌, ◌*◌, ◌≡◌, ◌∙◌, ap, sym, subst, inl, inr, Bool, true, false, ◌&&◌, Option, none, some,
  is_none, arith, Option-cases, ◌==◌, nat_eq, map_option, update_at, if◌then◌else◌,
}
use base_backend.Exec.{pure}
use base_backend.Exec.Inversion.{Returns, bind-ok, pure-Returns}
use base_backend.Redis.{Time, Uuid, Keyspace}
use base_backend.Sql.{Table, update_rows, update_all}
use base_backend.Authorization.Store
use base_backend.World.{UserModel, UserSessionModel, Db, World, Backend, on_redis, commit}
use base_backend.World.Transactions.{commit-Returns, on_redis-Returns}
use base_backend.Users.Repository.{to_entity, set_verified}
use base_backend.Users.Repository.Effects.{verified, with_users, set_verified-Returns}
use base_backend.Auth.{TokenPairDto}
use base_backend.Auth.Tokens.{day, create_access_token, create_refresh_token}
use base_backend.Auth.Repository.{
  revoked, revoke_active_sessions_for_user_device, create_session, touch_user_device,
}
use base_backend.Auth.Repository.Effects.{
  with_sessions, with_devices, create_session-Returns, touch_user_device-Returns,
}
use base_backend.Auth.LoginRequests.{LoginRequest, LoginRedis}
use base_backend.Auth.VerifyEmail.{Verification, first_session, open_session}

-- The row of `u` is verified, unless it was before.
abbrev pub verified_users : Bool → Uuid → Table UserModel → Table UserModel
verified_users true u t = t
verified_users false u t = update_at u (map_option (verified true) (t u)) t

-- The active sessions of `u` on a device are revoked.
abbrev pub without_device : Uuid → Uuid → Time → Table UserSessionModel → Table UserSessionModel
without_device u device now t =
    update_rows (λ _ m. (m.user_id == u) && ((m.user_device_id == device) && is_none m.revoked_at))
      (λ m. record m { revoked_at = some now }) t

module _ (b : Backend) (v : Verification) (u device : Uuid) where
  -- The row of a session that begins at the call.
  abbrev pub begun : UserSessionModel
  begun = record {
    user_id = u;
    user_device_id = device;
    refresh_token_hash =
        b.sha256_hex
          (create_refresh_token b.jwt v.refresh_now v.refresh_expire_days u v.new_session_id);
    expires_at = v.now + v.refresh_expire_days * day;
    created_at = v.now;
    last_active_at = v.now;
    revoked_at = none;
  }

  -- The rows after a log-in.
  abbrev pub opened_db : Bool → Db → Db
  opened_db is_verified db = record db {
    users = verified_users is_verified u db.users;
    sessions = update_at v.new_session_id (some begun) (without_device u device v.now db.sessions);
    devices = update_rows (λ k _. k == device) (λ m. record m { last_seen_at = v.now }) db.devices;
  }

  -- A new session on the device has taken the place of those before, for a user that is verified now. It is
  -- committed, the keys of the user's sessions are gone from the access state, and the tokens name the
  -- new session.
  pub record IsOpened (user : UserModel) (w : World) (t : TokenPairDto) (w' : World) : Type 0 where
    pub redis : Keyspace
    pub fresh : without_device u device v.now w.db.sessions v.new_session_id ≡ none
    pub told : Returns (Store.revoke_all_sessions b.redis v.revoke_now u) w.redis tt redis
    pub tokens : t ≡ record {
      access_token =
          create_access_token b.jwt v.access_now v.access_expire_minutes u v.new_session_id
            user.role user.authorization_version;
      refresh_token =
          create_refresh_token b.jwt v.refresh_now v.refresh_expire_days u v.new_session_id;
    }
    pub state : w' ≡ record {
      db = opened_db user.is_verified w.db;
      committed = opened_db user.is_verified w.db;
      redis = redis;
    }

  verify-Returns :
      (is_verified : Bool) (w : World) {w' : World}
      → Returns (if is_verified then pure tt else set_verified b u true) w tt w'
      → w' ≡ with_users (verified_users is_verified u w.db.users) w
  verify-Returns true w h = (pure-Returns {S = World} tt w h).1
  verify-Returns false w h = set_verified-Returns b w u true h

  revoke-Returns :
      (w : World) {w' : World}
      → Returns (revoke_active_sessions_for_user_device b u device v.now) w tt w'
      → w' ≡ with_sessions (without_device u device v.now w.db.sessions) w
  unfolding revoke_active_sessions_for_user_device update_all
  revoke-Returns w h =
      let p = λ (k : Uuid) (m : UserSessionModel).
        (m.user_id == u) && ((m.user_device_id == device) && is_none m.revoked_at) in
      elim (Option-cases (b.sessions.update p (revoked v.now) w.db.sessions)) [
        | inl failed ↦ ground arith
        | inr ((_, _), e) ↦ ground (arith, b.sessions.update_done p (revoked v.now) w.db.sessions e)
      ]

pub open_session-Returns :
    (b : Backend) (redis : LoginRedis) (v : Verification) (u : Uuid) (m : UserModel)
    (o : Option Time) (request : LoginRequest) (w : World) {t : TokenPairDto} {w' : World}
    → Returns (open_session b redis v (to_entity u m o) request) w t w'
    → IsOpened b v u request.user_device_id m w t w'
unfolding open_session to_entity
open_session-Returns b redis v u m o request w {t} {w'} h =
    let d = request.user_device_id in
    let revoke = Store.revoke_all_sessions b.redis v.revoke_now u in
    let (_, w1, e1, r1) =
      bind-ok (if m.is_verified then pure tt else set_verified b u true) _ w h in
    let (_, w2, e2, r2) = bind-ok (revoke_active_sessions_for_user_device b u d v.now) _ w1 r1 in
    let (_, w3, e3, r3) = bind-ok (on_redis revoke) _ w2 r2 in
    let (_, w4, e4, r4) =
      bind-ok (create_session b v.new_session_id (first_session b redis v u d)) _ w3 r3 in
    let (_, w5, e5, r5) = bind-ok (touch_user_device b d v.now) _ w4 r4 in
    let (_, w6, e6, r6) = bind-ok (commit b) _ w5 r5 in
    let f1 = verify-Returns b v u d m.is_verified w e1 in
    let f2 =
      revoke-Returns b v u d w1 e2
      ∙ ap (λ (y : World). with_sessions (without_device u d v.now y.db.sessions) y) f1 in
    let (k, told, f3) = on_redis-Returns revoke w2 e3 in
    let (free, f4) =
      create_session-Returns b w3 v.new_session_id (first_session b redis v u d) e4 in
    let f5 = touch_user_device-Returns b w4 d v.now e5 in
    let f6 = commit-Returns b w5 e6 in
    let (f7, f8) = pure-Returns _ w6 r6 in
    let g3 = f3 ∙ ap (λ (y : World). record y { redis = k }) f2 in
    let g4 =
      f4
      ∙ ap
          (λ (y : World).
            with_sessions (update_at v.new_session_id (some (begun b v u d)) y.db.sessions) y)
          g3 in
    let g5 =
      f5
      ∙ ap
          (λ (y : World).
            with_devices
              (update_rows (λ k _. k == d) (λ x. record x { last_seen_at = v.now }) y.db.devices) y)
          g4 in
    record {
      redis = k;
      fresh = ap (λ (y : World). y.db.sessions v.new_session_id) (sym g3) ∙ free;
      told = subst (λ (y : World). Returns revoke y.redis tt k) f2 told;
      tokens = sym f7;
      state = f8 ∙ f6 ∙ ap (λ (y : World). record y { committed = y.db }) g5;
    }
