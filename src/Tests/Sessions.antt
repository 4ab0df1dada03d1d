-- ===== src/Tests/Sessions.antt =====
-- The use cases that end sessions on a concrete backend.
use base_backend.Prelude.{ℕ, refl, inl, nat_eq, arith}
use base_backend.Exec.Inversion.{Returns}
use base_backend.Redis.{key_eq, value_eq, run, runs}
use base_backend.Sql.{update_all}
use base_backend.Authorization.Store
use base_backend.Authorization.Store.Index.{IsIndexed}
use base_backend.World.{World, commit}
use base_backend.Auth.{MessageResultDto}
use base_backend.Auth.Repository.{revoke_session, revoke_all_active_for_user}
use base_backend.Auth.Sessions.{
  revoke_token_steps, revoke_token, revoke_all_tokens_steps, revoke_all_tokens,
}
use base_backend.Auth.ValidateAccessToken.{validate_access_token}
use base_backend.Auth.SignedOut.{revoke_all_tokens-refuses, ended_session-refuses}
use base_backend.Tests.Fixtures.{backend, signed_in, cached, principal, at, validate_at}

abbrev pub deleted_message : MessageResultDto
deleted_message = record { message_code = "session_deleted" }

abbrev signed_out : World
signed_out = (revoke_token backend (at 1_500) 1 21 signed_in).1

revoke_token_returns :
    Returns (revoke_token backend (at 1_500) 1 21) signed_in deleted_message signed_out
unfolding revoke_token revoke_token_steps revoke_session update_all Store.revoke_session Store.write
    run runs commit
revoke_token_returns = refl

ended_session-refuses_example :
    ¬ Returns
      (validate_access_token backend (validate_at 1_600) "access")
      signed_out
      principal
      signed_out
ended_session-refuses_example =
    ended_session-refuses backend (at 1_500) signed_in 1 21 (validate_at 1_600) "access"
      (inl revoke_token_returns) refl

abbrev all_message : MessageResultDto
all_message = record { message_code = "all_sessions_deleted" }

abbrev all_out : World
all_out = (revoke_all_tokens backend (at 1_500) 1 signed_in).1

revoke_all_tokens_returns :
    Returns (revoke_all_tokens backend (at 1_500) 1) signed_in all_message all_out
unfolding revoke_all_tokens revoke_all_tokens_steps revoke_all_active_for_user update_all
    Store.revoke_all_sessions Store.write run runs commit
revoke_all_tokens_returns = refl

-- The only live session key of the example is in the index.
pub cached-IsIndexed : (seconds : ℕ) → IsIndexed (at seconds) cached
cached-IsIndexed seconds = record { indexed = λ sid u h. ground arith }

revoke_all_tokens-refuses_example :
    ¬ Returns (validate_access_token backend (validate_at 1_600) "access") all_out principal all_out
revoke_all_tokens-refuses_example =
    revoke_all_tokens-refuses backend (at 1_500) signed_in 1 (validate_at 1_600) "access"
      (cached-IsIndexed 1_500) (omega arith) revoke_all_tokens_returns refl
