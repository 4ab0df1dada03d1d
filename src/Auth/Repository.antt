-- ===== src/Auth/Repository.antt =====
-- `SqlAlchemyAuthRepository` of app/modules/auth/infrastructure/sqlalchemy_repositories.py: one action
-- for each statement. `create_session` adds the row to the unit of work, which writes it with the
-- next statement; it is modelled as the insertion.
pub mod Effects
pub mod Transactional
use base_backend.Prelude.{
  ℕ, ◌/◌, ◌%◌, String, Bool, true, false, ◌&&◌, ◌||◌, Option, none, some, ltb, is_none, is_some,
  ◌==◌, nat_eq, string_eq, map_option, if◌then◌else◌,
}
use Prim.Native.Nat.{◌^◌}
use base_backend.Errors.{ok, err, sqlalchemy_error}
use base_backend.Exec.{Exec, pure, ◌>>=◌, ◌>>◌}
use base_backend.Redis.{Time, Uuid}
use base_backend.Sql.{select_one, update_all, insert_row}
use base_backend.Sql.Upsert.{Upsert, upsert_row}
use base_backend.World.{UserDeviceModel, UserSessionModel, World, Backend, on_devices, on_sessions}
use base_backend.Auth.{DeviceInfo, UserDevice, UserSession}

unfoldable pub device_entity : Uuid → UserDeviceModel → UserDevice
device_entity id m = record {
  id = id;
  client_device_id = m.client_device_id;
  os = m.os;
  os_version = m.os_version;
  model = m.model;
  app_version = m.app_version;
  push_provider = m.push_provider;
  push_token = m.push_token;
}

-- `user_device` is what the relationship has loaded, if the caller includes it.
unfoldable pub session_entity : Uuid → UserSessionModel → Option UserDevice → UserSession
session_entity id m device = record {
  id = id;
  user_id = m.user_id;
  user_device_id = m.user_device_id;
  refresh_token_hash = m.refresh_token_hash;
  expires_at = m.expires_at;
  created_at = m.created_at;
  last_active_at = m.last_active_at;
  revoked_at = m.revoked_at;
  user_device = device;
}

-- `int.from_bytes(user_id.bytes[:8], "big") % 2**31`
unfoldable pub refresh_lock_key : Uuid → ℕ
refresh_lock_key user_id = user_id / 2 ^ 64 % 2 ^ 31

abbrev pub is_active : UserSessionModel → Bool
is_active m = is_none m.revoked_at

abbrev pub revoked : Time → UserSessionModel → UserSessionModel
revoked at m = record m { revoked_at = some at }

abbrev set_token : Option String → Time → UserDeviceModel → UserDeviceModel
set_token none now d = d
set_token (some t) now d = record d { push_token = some t; push_token_updated_at = some now }

abbrev set_provider : Option String → UserDeviceModel → UserDeviceModel
set_provider none d = d
set_provider (some p) d = record d { push_provider = some p }

-- The `values` of `update_user_device_notifications`: what is `None` stays.
abbrev pub set_notifications :
    Option String → Option String → Time → UserDeviceModel → UserDeviceModel
set_notifications push_provider push_token now d =
    set_token push_token now (set_provider push_provider d)

-- The row that `upsert_user_device` inserts.
abbrev pub new_device : Uuid → DeviceInfo → Time → UserDeviceModel
new_device user_id device now = record {
  user_id = user_id;
  client_device_id = device.device_id;
  os = device.os;
  os_version = device.os_version;
  model = device.model;
  app_version = device.app_version;
  push_provider = device.push_provider;
  push_token = device.push_token;
  push_token_updated_at = map_option (λ (t : String). now) device.push_token;
  last_seen_at = now;
  created_at = now;
}

-- `set_on_conflict` of `upsert_user_device`.
abbrev pub seen_device : DeviceInfo → Time → UserDeviceModel → UserDeviceModel
seen_device device now d =
    let e = record d {
      os = device.os;
      os_version = device.os_version;
      model = device.model;
      app_version = device.app_version;
      last_seen_at = now;
    } in
    set_provider device.push_provider (set_token device.push_token now e)

-- The unique index on the user and the device that the client names.
abbrev pub same_device : Uuid → DeviceInfo → Uuid → UserDeviceModel → Bool
same_device user_id device k d = (d.user_id == user_id) && (d.client_device_id == device.device_id)

-- `row_id` is the `uuid4()` of a new row.
unfoldable pub upsert_user_device :
    Upsert UserDeviceModel → Uuid → Uuid → DeviceInfo → Time → Exec World Uuid
upsert_user_device sql row_id user_id device now = on_devices (
    upsert_row sql (same_device user_id device) row_id (new_device user_id device now)
      (seen_device device now))

module _ (b : Backend) where
  unfoldable pub lock_user_refresh : Uuid → Exec World (Unit {0})
  lock_user_refresh user_id w =
      (if b.locks (refresh_lock_key user_id) w.db then ok tt else err sqlalchemy_error, w)

  unfoldable pub update_user_device_notifications :
      Uuid → Option String → Option String → Time → Exec World (Unit {0})
  update_user_device_notifications user_device_id push_provider push_token now =
      if is_some push_provider || is_some push_token
      then on_devices (
          update_all b.devices (λ k _. k == user_device_id)
            (λ d. set_notifications push_provider push_token now d))
        >> pure tt
      else pure tt

  unfoldable pub touch_user_device : Uuid → Time → Exec World (Unit {0})
  touch_user_device user_device_id at =
      on_devices
        (update_all b.devices (λ k _. k == user_device_id) (λ d. record d { last_seen_at = at }))
      >> pure tt

  unfoldable pub revoke_active_sessions_for_user_device : Uuid → Uuid → Time → Exec World (Unit {0})
  revoke_active_sessions_for_user_device user_id user_device_id revoked_at =
      on_sessions (
        update_all b.sessions
          (λ _ m. (m.user_id == user_id) && ((m.user_device_id == user_device_id) && is_active m))
          (revoked revoked_at))
      >> pure tt

  unfoldable pub create_session : Uuid → UserSessionModel → Exec World (Unit {0})
  create_session session_id m =
      on_sessions (insert_row b.sessions session_id (record m { revoked_at = none }))

  unfoldable pub get_session : Uuid → Exec World (Option UserSession)
  get_session session_id = do
    row ← on_sessions (select_one b.sessions session_id (λ _. true))
    pure (map_option (λ m. session_entity session_id m none) row)

  unfoldable pub get_session_for_update : Uuid → Exec World (Option UserSession)
  get_session_for_update session_id = do
    row ← on_sessions (select_one b.sessions session_id is_active)
    pure (map_option (λ m. session_entity session_id m none) row)

  unfoldable pub revoke_session : Uuid → Uuid → Time → Exec World Bool
  revoke_session session_id user_id revoked_at = do
    n ← on_sessions (
        update_all b.sessions (λ k m. (k == session_id) && ((m.user_id == user_id) && is_active m))
          (revoked revoked_at))
    pure (ltb 0 n)

  unfoldable pub revoke_session_by_id : Uuid → Time → Exec World (Unit {0})
  revoke_session_by_id session_id revoked_at =
      on_sessions
        (update_all b.sessions (λ k m. (k == session_id) && is_active m) (revoked revoked_at))
      >> pure tt

  unfoldable pub revoke_all_active_for_user : Uuid → Time → Exec World (Unit {0})
  revoke_all_active_for_user user_id revoked_at =
      on_sessions
        (update_all b.sessions (λ _ m. (m.user_id == user_id) && is_active m) (revoked revoked_at))
      >> pure tt

  unfoldable pub update_session_last_active : Uuid → Time → Exec World (Unit {0})
  update_session_last_active session_id at =
      on_sessions (
        update_all b.sessions (λ k m. (k == session_id) && is_active m)
          (λ m. record m { last_active_at = at }))
      >> pure tt
