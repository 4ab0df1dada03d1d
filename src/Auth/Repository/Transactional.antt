-- ===== src/Auth/Repository/Transactional.antt =====
-- The operations of the auth repository commit nothing.
use base_backend.Prelude.{String, Option, refl}
use base_backend.Redis.{Time, Uuid}
use base_backend.World.{UserSessionModel, Backend}
use base_backend.World.Transactions.{KeepsCommitted, transaction_rules, if-KeepsCommitted}
use base_backend.Auth.Repository.{
  lock_user_refresh, update_user_device_notifications, touch_user_device,
  revoke_active_sessions_for_user_device, create_session, get_session, get_session_for_update,
  revoke_session, revoke_session_by_id, revoke_all_active_for_user,
}

module _ (b : Backend) where
  pub lock_user_refresh-KeepsCommitted : (u : Uuid) → KeepsCommitted (lock_user_refresh b u)
  unfolding lock_user_refresh
  lock_user_refresh-KeepsCommitted u = record { at = λ w. refl }

  pub touch_user_device-KeepsCommitted :
      (d : Uuid) (at : Time) → KeepsCommitted (touch_user_device b d at)
  unfolding touch_user_device
  touch_user_device-KeepsCommitted d at = search transaction_rules

  pub update_user_device_notifications-KeepsCommitted :
      (d : Uuid) (p t : Option String) (now : Time)
      → KeepsCommitted (update_user_device_notifications b d p t now)
  unfolding update_user_device_notifications
  update_user_device_notifications-KeepsCommitted d p t now = search transaction_rules

  pub revoke_active_sessions_for_user_device-KeepsCommitted :
      (u d : Uuid) (at : Time) → KeepsCommitted (revoke_active_sessions_for_user_device b u d at)
  unfolding revoke_active_sessions_for_user_device
  revoke_active_sessions_for_user_device-KeepsCommitted u d at = search transaction_rules

  pub create_session-KeepsCommitted :
      (sid : Uuid) (m : UserSessionModel) → KeepsCommitted (create_session b sid m)
  unfolding create_session
  create_session-KeepsCommitted sid m = search transaction_rules

  pub get_session-KeepsCommitted : (sid : Uuid) → KeepsCommitted (get_session b sid)
  unfolding get_session
  get_session-KeepsCommitted sid = search transaction_rules

  pub get_session_for_update-KeepsCommitted :
      (sid : Uuid) → KeepsCommitted (get_session_for_update b sid)
  unfolding get_session_for_update
  get_session_for_update-KeepsCommitted sid = search transaction_rules

  pub revoke_session-KeepsCommitted :
      (sid u : Uuid) (at : Time) → KeepsCommitted (revoke_session b sid u at)
  unfolding revoke_session
  revoke_session-KeepsCommitted sid u at = search transaction_rules

  pub revoke_session_by_id-KeepsCommitted :
      (sid : Uuid) (at : Time) → KeepsCommitted (revoke_session_by_id b sid at)
  unfolding revoke_session_by_id
  revoke_session_by_id-KeepsCommitted sid at = search transaction_rules

  pub revoke_all_active_for_user-KeepsCommitted :
      (u : Uuid) (at : Time) → KeepsCommitted (revoke_all_active_for_user b u at)
  unfolding revoke_all_active_for_user
  revoke_all_active_for_user-KeepsCommitted u at = search transaction_rules

pub ruleset auth_repository_rules = (
  transaction_rules, lock_user_refresh-KeepsCommitted, touch_user_device-KeepsCommitted,
  update_user_device_notifications-KeepsCommitted,
  revoke_active_sessions_for_user_device-KeepsCommitted, create_session-KeepsCommitted,
  get_session-KeepsCommitted, get_session_for_update-KeepsCommitted, revoke_session-KeepsCommitted,
  revoke_session_by_id-KeepsCommitted, revoke_all_active_for_user-KeepsCommitted,
)
