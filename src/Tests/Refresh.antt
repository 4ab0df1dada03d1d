-- ===== src/Tests/Refresh.antt =====
-- The exchange of refresh tokens on a concrete backend: one exchange, the same token again, and a token
-- whose session was revoked.
use base_backend.Prelude.{◌≡◌, refl, true, false, some, nat_eq, arith, ◌==◌}
use base_backend.Errors.{ok, invalid_refresh_token}
use base_backend.Exec.Inversion.{Returns}
use base_backend.Exec.NeverRaises.{Raises}
use base_backend.Redis.{Uuid, Keyspace, run, runs}
use base_backend.Sql.{select_one, update_all, insert_row}
use base_backend.Authorization.Store
use base_backend.World.{UserSessionModel, World, Payload, commit}
use base_backend.Users.Repository.{get_by_id, to_entity}
use base_backend.Auth.{TokenPairDto}
use base_backend.Auth.Tokens.{
  decode_token, refresh_payload, access_payload, create_access_token, create_refresh_token,
}
use base_backend.Auth.Repository.{
  is_active, session_entity, lock_user_refresh, get_session_for_update, revoke_session_by_id,
  create_session, touch_user_device, revoke_all_active_for_user,
}
use base_backend.Auth.Repository.Effects.{revoke_where}
use base_backend.Auth.RefreshToken.{
  is_unexpired, revoke_everything, maybe_revoke_all_on_reuse, refuse_missing, rotate, check_session,
  on_session, attempt, refresh_token,
}
use base_backend.Auth.RefreshToken.Branches.{committed_with}
use base_backend.Auth.RefreshToken.Replay.{
  NamesSession, IsExchanged, refresh_token-exchanges, refresh_token-once,
}
use base_backend.Auth.RefreshToken.Settling.{refresh_token-settles}
use base_backend.Auth.RefreshToken.Reuse.{refresh_token-reuse}
use base_backend.Tests.Fixtures.{backend, signed_in, refresh_at, refresh_claims}

abbrev tokens : TokenPairDto
tokens = record { access_token = "access"; refresh_token = "next" }

abbrev exchanged : World
exchanged = (refresh_token backend (refresh_at 5_000 31) "refresh" signed_in).1

exchange_returns :
    Returns (refresh_token backend (refresh_at 5_000 31) "refresh") signed_in tokens exchanged
unfolding refresh_token attempt on_session check_session rotate lock_user_refresh
    get_session_for_update select_one session_entity revoke_session_by_id update_all
    Store.revoke_session Store.write run runs get_by_id to_entity create_session insert_row
    touch_user_device commit decode_token refresh_payload create_access_token create_refresh_token
    access_payload
exchange_returns = refl

refresh_token-exchanges_example :
    (payload : Payload) × (u : Uuid) × (sid : Uuid) × (decode_token backend.jwt
        (refresh_at 5_000 31).decode_now
        "refresh"
      ≡ ok payload)
    × NamesSession payload u sid
    × IsExchanged backend (refresh_at 5_000 31) "refresh" u sid signed_in tokens exchanged
refresh_token-exchanges_example =
    refresh_token-exchanges backend (refresh_at 5_000 31) "refresh" signed_in exchange_returns

same_claims :
    decode_token backend.jwt (refresh_at 6_000 32).decode_now "refresh"
    ≡ decode_token backend.jwt (refresh_at 5_000 31).decode_now "refresh"
unfolding decode_token
same_claims = refl

refresh_token-once_example :
    ¬ Returns (refresh_token backend (refresh_at 6_000 32) "refresh") exchanged tokens exchanged
refresh_token-once_example =
    refresh_token-once backend (refresh_at 5_000 31) (refresh_at 6_000 32) "refresh" signed_in
      exchange_returns same_claims

refresh_token-settles_example :
    (refresh_token backend (refresh_at 5_000 31) "reused" signed_in).1.db
    ≡ (refresh_token backend (refresh_at 5_000 31) "reused" signed_in).1.committed
refresh_token-settles_example =
    refresh_token-settles backend (refresh_at 5_000 31) "reused" signed_in refl

abbrev after_reuse : World
after_reuse = (refresh_token backend (refresh_at 5_000 31) "reused" signed_in).1

reuse_raises :
    Raises
      (refresh_token backend (refresh_at 5_000 31) "reused")
      signed_in
      invalid_refresh_token
      after_reuse
unfolding refresh_token attempt on_session refuse_missing maybe_revoke_all_on_reuse
    revoke_everything lock_user_refresh get_session_for_update select_one revoke_all_active_for_user
    update_all Store.revoke_all_sessions Store.write run runs commit decode_token refresh_payload
reuse_raises = refl

names_revoked : NamesSession (refresh_claims 22) 1 22
unfolding refresh_payload
names_revoked = record { refresh = refl; sub = refl; jti = refl }

reused_claims :
    decode_token backend.jwt (refresh_at 5_000 31).decode_now "reused" ≡ ok (refresh_claims 22)
unfolding decode_token
reused_claims = refl

still_unexpired : is_unexpired (refresh_at 5_000 31).reuse_now (refresh_claims 22).exp ≡ true
unfolding refresh_payload
still_unexpired = refl

revoked_row : (m : UserSessionModel) → signed_in.db.sessions 22 ≡ some m → is_active m ≡ false
revoked_row m h = ground arith

refresh_token-reuse_example :
    (k : Keyspace) × Returns
      (Store.revoke_all_sessions backend.redis (refresh_at 5_000 31).reuse_revoke_now 1)
      signed_in.redis
      tt
      k
    × (after_reuse
        ≡ committed_with signed_in
            (revoke_where
              (λ _ m. m.user_id == 1)
              (refresh_at 5_000 31).reuse_revoke_now
              signed_in.db.sessions)
            k)
refresh_token-reuse_example =
    refresh_token-reuse backend (refresh_at 5_000 31) "reused" (refresh_claims 22) 1 22 signed_in
      reused_claims names_revoked still_unexpired revoked_row reuse_raises
