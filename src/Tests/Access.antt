-- ===== src/Tests/Access.antt =====
-- Access tokens on a concrete backend.
use base_backend.Prelude.{
  ◌≢◌, none, some, ◌*◌, ◌/◌, ◌+◌, ◌≡◌, refl, nat_eq, arith, ltb, if◌then◌else◌,
}
use base_backend.Errors.{ok, err, token_expired}
use base_backend.Exec.Inversion.{Returns}
use base_backend.Redis.{uuid, session, string_at, second, run, runs}
use base_backend.Sql.{select_one, update_all}
use base_backend.Authorization.Store
use base_backend.World.{UserSessionModel, commit, World, RoundTrips}
use base_backend.Users.Repository.{get_by_id, to_entity}
use base_backend.Auth.Tokens.{day, minute, access_payload, decode_token, create_access_token}
use base_backend.Auth.Repository.{revoke_session_by_id, get_session, session_entity}
use base_backend.Auth.ValidateAccessToken.{
  is_access, read_claims, check_rows, fill, on_cached, check_access, validate_access_token,
}
use base_backend.Auth.ValidateAccessToken.Claims.{Names, decode-create_access_token}
use base_backend.Auth.ValidateAccessToken.Refusals.{IsAccepted, validate_access_token_sound}
use base_backend.Auth.Race.{validate-revives_ended}
use base_backend.Auth.{UserSession}
use base_backend.Auth.Sessions.{logout_user, logout_user_steps}
use base_backend.Tests.Fixtures.{backend, jwt, uncached, principal, at, validate_at, access_claims}

abbrev filled : World
filled = (validate_access_token backend (validate_at 1_600) "access" uncached).1

-- The rows back the token, and the cache is filled.
uncached_returns :
    Returns (validate_access_token backend (validate_at 1_600) "access") uncached principal filled
unfolding validate_access_token decode_token is_access read_claims check_access check_rows fill
    on_cached Store.get Store.cache Store.set_authorization_version_if_greater Store.write run runs
    get_by_id to_entity select_one get_session session_entity access_payload
uncached_returns = refl

validate_access_token_sound_example :
    IsAccepted (validate_at 1_600) uncached principal
    × (filled.db ≡ uncached.db)
    × (filled.committed ≡ uncached.committed)
validate_access_token_sound_example =
    validate_access_token_sound backend (validate_at 1_600) "access" uncached uncached_returns

access_trips : RoundTrips jwt access_claims
unfolding access_payload
access_trips = record { decode-encode = λ now iat exp e f le. ground arith }

decode-create_access_token_example :
    let payload = access_payload (at 1_000) 15 1 21 principal.role 3 in
    (decode_token jwt (at 1_600) (create_access_token jwt (at 1_000) 15 1 21 principal.role 3) ≡ (
      if ltb (at 1_600) ((at 1_000 + 15 * minute) / second * second)
      then ok payload
      else err token_expired))
    × Names payload principal
decode-create_access_token_example =
    decode-create_access_token jwt (at 1_000) (at 1_600) 15 principal (omega arith) (omega arith)
      access_trips

abbrev ann_session : UserSession
ann_session = record {
  id = 21;
  user_id = 1;
  user_device_id = 11;
  refresh_token_hash = "hash of refresh";
  expires_at = 90 * day;
  created_at = 0;
  last_active_at = 0;
  revoked_at = none;
  user_device = none;
}

rows_read : Returns (check_rows backend (validate_at 1_600) principal) uncached ann_session uncached
unfolding check_rows get_by_id to_entity select_one get_session session_entity
rows_read = refl

abbrev logged_out : World
logged_out = (logout_user backend (at 1_600) 1 21 uncached).1

log_out_returns :
    Returns
      (logout_user backend (at 1_600) 1 21)
      uncached
      (record { message_code = "logged_out" })
      logged_out
unfolding logout_user logout_user_steps get_session session_entity select_one revoke_session_by_id
    update_all Store.revoke_session Store.write run runs commit
log_out_returns = refl

abbrev revived : World
revived = (fill backend (validate_at 1_600) principal ann_session logged_out).1

fill_returns :
    Returns (fill backend (validate_at 1_600) principal ann_session) logged_out principal revived
unfolding fill Store.cache Store.set_authorization_version_if_greater Store.write run runs
    logout_user logout_user_steps get_session session_entity select_one revoke_session_by_id
    update_all Store.revoke_session commit
fill_returns = refl

validate-revives_ended_example :
    (string_at (at 2_000) revived.redis (session 21) ≡ some (uuid 1))
    × ((m : UserSessionModel) → revived.committed.sessions 21 ≡ some m → m.revoked_at ≢ none)
validate-revives_ended_example =
    validate-revives_ended backend (validate_at 1_600) principal (at 1_600) (at 2_000) uncached
      uncached logged_out revived rows_read log_out_returns fill_returns (omega arith)
