-- ===== src/Auth/Race.antt =====
-- A validation of an access token and a log-out of its session that interleave: the rows are read before
-- the log-out and the cache is filled after it.
use base_backend.Prelude.{◌+◌, ◌*◌, ◌<◌, ◌≡◌, ◌≢◌, ◌∙◌, ap, sym, subst, none, some, arith, nat_eq}
use base_backend.Exec.{pure}
use base_backend.Exec.Inversion.{Returns, bind-ok, pure-Returns}
use base_backend.Redis.{Time, second, uuid, session, key_eq, Keyspace, string_at, run}
use base_backend.Authorization.{CurrentPrincipal}
use base_backend.Authorization.Store
use base_backend.Authorization.Store.{ttl_seconds}
use base_backend.Authorization.Store.Writes.{session_commands, cache-Returns}
use base_backend.World.{UserSessionModel, World, Backend, on_redis}
use base_backend.World.Transactions.{on_redis-Returns}
use base_backend.Auth.{UserSession, MessageResultDto}
use base_backend.Auth.Sessions.{logout_user}
use base_backend.Auth.Sessions.Revocation.{logout_user-Returns}
use base_backend.Auth.SignedOut.{revoke_id_row}
use base_backend.Auth.ValidateAccessToken.{ValidateCall, check_rows, fill}

module _ (b : Backend) (call : ValidateCall) (p : CurrentPrincipal) where
  session_cached :
      (k : Keyspace) (expires_at later : Time)
      → later < call.cache_now + ttl_seconds expires_at call.cache_now * second
      → string_at later
          (run call.cache_now (session_commands call.cache_now p.user_id p.session_id expires_at) k)
          (session p.session_id)
        ≡ some (uuid p.user_id)
  unfolding run
  session_cached k expires_at later lt = ground arith

  -- `fill` writes the session key, whatever has happened since the rows were read.
  fill-caches :
      (x : UserSession) (w : World) (later : Time) {q : CurrentPrincipal} {w' : World}
      → later < call.cache_now + ttl_seconds x.expires_at call.cache_now * second
      → Returns (fill b call p x) w q w'
      → (string_at later w'.redis (session p.session_id) ≡ some (uuid p.user_id))
        × (w'.db ≡ w.db)
        × (w'.committed ≡ w.committed)
  unfolding fill
  fill-caches x w later {q} {w'} lt h =
      let m =
        Store.cache b.redis call.cache_now p.user_id p.authorization_version p.session_id
          x.expires_at in
      let (_, w1, e1, r1) = bind-ok (on_redis m) (λ _. pure p) w h in
      let (k, told, e) = on_redis-Returns m w e1 in
      let (_, same) = pure-Returns p w1 r1 in
      let (mid, _, _, last) =
        cache-Returns b.redis call.cache_now p.user_id p.authorization_version p.session_id
          x.expires_at w.redis told in
      let f = same ∙ e in
      (
        subst (λ y. string_at later y (session p.session_id) ≡ some (uuid p.user_id))
            (sym (ap (λ (y : World). y.redis) f ∙ last)) (session_cached mid x.expires_at later lt),
        ap (λ (y : World). y.db) f,
        ap (λ (y : World). y.committed) f,
      )

  -- When a log-out of the session returns between the read of the rows and the fill of the cache, the
  -- session is revoked in the committed rows, and yet its key names its user again until the time to live
  -- of the key is over.
  pub validate-revives_ended :
      (now later : Time) (w1 w2 w3 w4 : World) {x : UserSession} {r : MessageResultDto}
      {q : CurrentPrincipal}
      → Returns (check_rows b call p) w1 x w2
      → Returns (logout_user b now p.user_id p.session_id) w2 r w3
      → Returns (fill b call p x) w3 q w4
      → later < call.cache_now + ttl_seconds x.expires_at call.cache_now * second
      → (string_at later w4.redis (session p.session_id) ≡ some (uuid p.user_id))
        × ((m : UserSessionModel)
            → w4.committed.sessions p.session_id ≡ some m
            → m.revoked_at ≢ none)
  validate-revives_ended now later w1 w2 w3 w4 {x} rows out filled lt =
      let (k, m, here, own, told, e) = logout_user-Returns b now w2 p.user_id p.session_id out in
      let (key, _, f) = fill-caches x w3 later lt filled in
      (
        key,
        λ n row. revoke_id_row p.session_id now w2.db.sessions n (
            subst (λ (y : World). y.committed.sessions p.session_id ≡ some n) e
              (subst (λ y. y.sessions p.session_id ≡ some n) f row)),
      )
