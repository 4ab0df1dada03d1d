-- ===== src/Auth/Sessions/Atomic.antt =====
-- The use cases that end sessions are atomic.
use base_backend.Prelude.{Option, none, some, nat_eq}
use base_backend.Redis.{Time, Uuid}
use base_backend.World.{World, Backend}
use base_backend.World.Transactions.{
  KeepsCommitted, CommitsLast, IsAtomic, transaction-IsAtomic, transaction_rules,
}
use base_backend.Auth.{UserSession, DeviceNotifications}
use base_backend.Auth.Repository.Transactional.{auth_repository_rules}
use base_backend.Auth.Sessions.{
  own_session, not_revoked, revoke_token_steps, revoke_all_tokens_steps, logout_user_steps,
  update_device_notifications_steps, revoke_token, revoke_all_tokens, logout_user,
}

pub own_session-KeepsCommitted :
    (u : Uuid) (row : Option UserSession) → KeepsCommitted (own_session u row)
own_session-KeepsCommitted u none = search transaction_rules
own_session-KeepsCommitted u (some s) = search transaction_rules

module _ (b : Backend) (now : Time) (u : Uuid) where
  not_revoked-KeepsCommitted : (sid : Uuid) → KeepsCommitted (not_revoked b now u sid)
  unfolding not_revoked
  not_revoked-KeepsCommitted sid = search (auth_repository_rules, own_session-KeepsCommitted)

  revoke_token_steps-CommitsLast : (sid : Uuid) → CommitsLast (revoke_token_steps b now u sid)
  unfolding revoke_token_steps
  revoke_token_steps-CommitsLast sid =
      search (auth_repository_rules, own_session-KeepsCommitted, not_revoked-KeepsCommitted) depth 8

  revoke_all_tokens_steps-CommitsLast : CommitsLast (revoke_all_tokens_steps b now u)
  unfolding revoke_all_tokens_steps
  revoke_all_tokens_steps-CommitsLast =
      search (auth_repository_rules, own_session-KeepsCommitted, not_revoked-KeepsCommitted) depth 8

  logout_user_steps-CommitsLast : (sid : Uuid) → CommitsLast (logout_user_steps b now u sid)
  unfolding logout_user_steps
  logout_user_steps-CommitsLast sid =
      search (auth_repository_rules, own_session-KeepsCommitted, not_revoked-KeepsCommitted) depth 8

  update_device_notifications_steps-CommitsLast :
      (sid : Uuid) (body : DeviceNotifications)
      → CommitsLast (update_device_notifications_steps b now u sid body)
  unfolding update_device_notifications_steps
  update_device_notifications_steps-CommitsLast sid body =
      search (auth_repository_rules, own_session-KeepsCommitted) depth 8

-- Whatever the database and Redis do, each of the use cases that end a session leaves nothing
-- uncommitted when it returns, and when it raises it has changed no row.
pub ending_sessions-IsAtomic :
    (b : Backend) (now : Time) (w : World) (u sid : Uuid)
    → IsAtomic w.committed (revoke_token b now u sid w)
      × IsAtomic w.committed (revoke_all_tokens b now u w)
      × IsAtomic w.committed (logout_user b now u sid w)
unfolding revoke_token revoke_all_tokens logout_user
ending_sessions-IsAtomic b now w u sid = (
  transaction-IsAtomic _ w (revoke_token_steps-CommitsLast b now u sid),
  transaction-IsAtomic _ w (revoke_all_tokens_steps-CommitsLast b now u),
  transaction-IsAtomic _ w (logout_user_steps-CommitsLast b now u sid),
)
