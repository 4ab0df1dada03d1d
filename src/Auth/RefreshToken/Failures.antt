-- ===== src/Auth/RefreshToken/Failures.antt =====
-- The parts of `RefreshTokenUseCase` that raise failures only, and not `InvalidRefreshTokenError`.
use base_backend.Prelude.{arith, nat_eq}
use base_backend.Errors.{invalid_refresh_token}
use base_backend.Exec.NeverRaises.{NeverRaises}
use base_backend.Redis.{Time, Uuid}
use base_backend.World.{Backend}
use base_backend.World.Failures.{failure_rules}
use base_backend.Auth.Repository.{
  lock_user_refresh, get_session_for_update, revoke_all_active_for_user,
}
use base_backend.Auth.RefreshToken.{RefreshCall, revoke_everything}

module _ (b : Backend) where
  pub lock_user_refresh-NeverRaises :
      (u : Uuid) → NeverRaises invalid_refresh_token (lock_user_refresh b u)
  unfolding lock_user_refresh
  lock_user_refresh-NeverRaises u = record { at = λ s t h. ground arith }

  pub get_session_for_update-NeverRaises :
      (sid : Uuid) → NeverRaises invalid_refresh_token (get_session_for_update b sid)
  unfolding get_session_for_update
  get_session_for_update-NeverRaises sid = search failure_rules

  revoke_all_active-NeverRaises :
      (u : Uuid) (at : Time) → NeverRaises invalid_refresh_token (revoke_all_active_for_user b u at)
  unfolding revoke_all_active_for_user
  revoke_all_active-NeverRaises u at = search failure_rules

  pub revoke_everything-NeverRaises :
      (call : RefreshCall) (u : Uuid) (at : Time)
      → NeverRaises invalid_refresh_token (revoke_everything b call u at)
  unfolding revoke_everything
  revoke_everything-NeverRaises call u at = search (failure_rules, revoke_all_active-NeverRaises)
