-- ===== src/Auth/RefreshToken/Rotation.antt =====
-- `RefreshTokenUseCase` when it issues tokens: what it has tested, and what it leaves.
use base_backend.Prelude.{
  ℕ, ◌+◌, ◌*◌, ◌≡◌, ◌∙◌, ap, subst, sym, Option, none, some, arith, ◌==◌, nat_eq, string_eq,
  update_at,
}
use base_backend.Exec.Inversion.{Returns, bind-ok, pure-Returns}
use base_backend.Redis.{Uuid, Keyspace}
use base_backend.Sql.{Table, update_rows}
use base_backend.Authorization.{UserRole, active}
use base_backend.Authorization.Store
use base_backend.World.{
  UserModel, UserDeviceModel, UserSessionModel, Db, World, Backend, on_redis, commit,
}
use base_backend.World.Transactions.{commit-Returns, on_redis-Returns}
use base_backend.Users.{User}
use base_backend.Users.Repository.{get_by_id}
use base_backend.Users.Repository.Effects.{user_at, user_at-some, get_by_id-Returns}
use base_backend.Auth.{UserSession, TokenPairDto}
use base_backend.Auth.Tokens.{day, create_access_token, create_refresh_token}
use base_backend.Auth.Repository.{revoke_session_by_id, create_session, touch_user_device}
use base_backend.Auth.Repository.Effects.{
  with_sessions, with_devices, revoke_where, revoke_session_by_id-Returns, create_session-Returns,
  touch_user_device-Returns,
}
use base_backend.Auth.RefreshToken.{RefreshCall, Outcome, issued, active_user, new_session, rotate}

-- The row of a session that begins at the call: for the device, with the hash of its refresh token, and for
-- as many days as that lasts.
abbrev pub begun : Backend → RefreshCall → Uuid → Uuid → UserSessionModel
begun b call u device = record {
  user_id = u;
  user_device_id = device;
  refresh_token_hash =
      b.sha256_hex (
        create_refresh_token b.jwt call.refresh_now call.refresh_expire_days u call.new_session_id);
  expires_at = call.now + call.refresh_expire_days * day;
  created_at = call.now;
  last_active_at = call.now;
  revoked_at = none;
}

-- The rows after the session `sid` of a device was replaced by a new one.
abbrev pub rotated_sessions :
    Backend → RefreshCall → Uuid → Uuid → Uuid → Table UserSessionModel → Table UserSessionModel
rotated_sessions b call u sid device t =
    update_at call.new_session_id (some (begun b call u device))
      (revoke_where (λ k _. k == sid) call.now t)

abbrev pub touched : RefreshCall → Uuid → Table UserDeviceModel → Table UserDeviceModel
touched call device t =
    update_rows (λ k _. k == device) (λ m. record m { last_seen_at = call.now }) t

abbrev pub rotated_db : Backend → RefreshCall → Uuid → Uuid → Uuid → Db → Db
rotated_db b call u sid device db = record db {
  sessions = rotated_sessions b call u sid device db.sessions;
  devices = touched call device db.devices;
}

abbrev tokens_of : Backend → RefreshCall → Uuid → UserRole → ℕ → TokenPairDto
tokens_of b call u role version = record {
  access_token =
      create_access_token b.jwt call.access_now call.access_expire_minutes u call.new_session_id
        role version;
  refresh_token =
      create_refresh_token b.jwt call.refresh_now call.refresh_expire_days u call.new_session_id;
}

-- The tokens for the new session of a user.
abbrev pub new_tokens : Backend → RefreshCall → Uuid → UserModel → TokenPairDto
new_tokens b call u m = tokens_of b call u m.role m.authorization_version

module _ (b : Backend) (call : RefreshCall) where
  active_user-Returns :
      (found : Option User) (s : World) {x : User} {w' : World}
      → Returns (active_user found) s x w'
      → (found ≡ some x) × (x.status ≡ active) × (w' ≡ s)
  active_user-Returns none s h = absurd (cc)
  active_user-Returns (some u) s h = ground arith

  -- The old session is revoked in the database and in the access state, the new one is inserted under
  -- a fresh key, and the tokens are for it.
  pub rotate-Returns :
      (u sid : Uuid) (session : UserSession) (w : World) {o : Outcome} {w' : World}
      → Returns (rotate b call u sid session) w o w'
      → (m : UserModel) × (k : Keyspace) × (w.db.users u ≡ some m)
        × (m.status ≡ active)
        × Returns (Store.revoke_session b.redis call.now u sid) w.redis tt k
        × (revoke_where (λ j _. j == sid) call.now w.db.sessions call.new_session_id ≡ none)
        × (o ≡ issued (new_tokens b call u m))
        × (w' ≡ record {
          db = rotated_db b call u sid session.user_device_id w.db;
          committed = rotated_db b call u sid session.user_device_id w.db;
          redis = k;
        })
  unfolding rotate
  rotate-Returns u sid session w h =
      let revoke = Store.revoke_session b.redis call.now u sid in
      let row = new_session b call u session.user_device_id in
      let (_, w1, e1, r1) = bind-ok (revoke_session_by_id b sid call.now) _ w h in
      let (_, w2, e2, r2) = bind-ok (on_redis revoke) _ w1 r1 in
      let (found, w3, e3, r3) = bind-ok (get_by_id b u) _ w2 r2 in
      let (x, w4, e4, r4) = bind-ok (active_user found) _ w3 r3 in
      let (_, w5, e5, r5) = bind-ok (create_session b call.new_session_id row) _ w4 r4 in
      let (_, w6, e6, r6) = bind-ok (touch_user_device b session.user_device_id call.now) _ w5 r5 in
      let (_, w7, e7, r7) = bind-ok (commit b) _ w6 r6 in
      let f1 = revoke_session_by_id-Returns b w sid call.now e1 in
      let (k, told, f2) = on_redis-Returns revoke w1 e2 in
      let (f3, answer) = get_by_id-Returns b w2 u e3 in
      let (there, act, f4) = active_user-Returns found w3 e4 in
      let (fresh, f5) = create_session-Returns b w4 call.new_session_id row e5 in
      let f6 = touch_user_device-Returns b w5 session.user_device_id call.now e6 in
      let f7 = commit-Returns b w6 e7 in
      let (f8, f9) = pure-Returns _ w7 r7 in
      let s1 = with_sessions (revoke_where (λ j _. j == sid) call.now w.db.sessions) w in
      let g2 : w2 ≡ record s1 { redis = k } = f2 ∙ ap (λ (y : World). record y { redis = k }) f1 in
      let g4 : w4 ≡ record s1 { redis = k } = f4 ∙ f3 ∙ g2 in
      let (m, here, p1, p2, p3) =
        user_at-some w.db u (ap (λ (y : World). user_at y.db u) (sym g2) ∙ sym answer ∙ there) in
      let final =
        f6
        ∙ ap (λ (y : World). with_devices (touched call session.user_device_id y.db.devices) y)
            (f5
              ∙ ap
                  (λ (y : World).
                    with_sessions (update_at call.new_session_id (some row) y.db.sessions) y)
                  g4) in
      (
        m,
        k,
        here,
        sym p2 ∙ act,
        subst (λ y. Returns revoke y.redis tt k) f1 told,
        ap (λ (y : World). y.db.sessions call.new_session_id) (sym g4) ∙ fresh,
        sym f8 ∙ (λ i. issued (tokens_of b call u (p1 i) (p3 i))),
        f9 ∙ f7 ∙ ap (λ (y : World). record y { committed = y.db }) final,
      )
