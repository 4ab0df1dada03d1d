-- ===== src/Auth/ValidateAccessToken/Refusals.antt =====
-- When an access token is refused whatever else holds: the cache has a newer version of its user, or
-- neither the cache nor the rows back its session.
use base_backend.Prelude.{ℕ, ◌<◌, ◌≡◌, ◌≢◌, ◌⊎◌, inl, inr, String, Option, none, some, arith}
use base_backend.Exec.Inversion.{Returns}
use base_backend.Redis.{Time, Entry, number, uuid, user_version, session, live, string_at}
use base_backend.Authorization.{CurrentPrincipal}
use base_backend.Authorization.Store.Versions.{VersionAtLeast, HasVersion}
use base_backend.World.{UserSessionModel, World, Backend}
use base_backend.Auth.ValidateAccessToken.{ValidateCall, validate_access_token}
use base_backend.Auth.ValidateAccessToken.Soundness.{IsCached, IsBacked, check_access-Returns}
use base_backend.Auth.ValidateAccessToken.Claims.{validate_access_token-Returns}

-- What an accepted token says of its principal.
pub record IsAccepted (call : ValidateCall) (w : World) (q : CurrentPrincipal) : Type 0 where
  pub version :
      (string_at call.read_now w.redis (user_version q.user_id) ≡ none)
      ⊎ (string_at call.read_now w.redis (user_version q.user_id)
          ≡ some (number q.authorization_version))
  pub backed : IsCached call.read_now w.redis q ⊎ IsBacked call.now w q

no_old_version :
    (now : Time) (n v : ℕ) (e : Option Entry)
    → VersionAtLeast n e
    → v < n
    → ¬ ((live now e ≡ none) ⊎ (live now e ≡ some (number v)))
no_old_version now n v e h lt o = ground arith

module _ (b : Backend) (call : ValidateCall) (token : String) (w : World) {q : CurrentPrincipal}
    {w' : World} where
  -- An access token is accepted only if the cache holds its version and its session, or else an
  -- active user with its role and version and a live session of that user stand in the database; and
  -- never if the cache holds another version of the user. The database is as it was.
  pub validate_access_token_sound :
      Returns (validate_access_token b call token) w q w'
      → IsAccepted call w q × (w'.db ≡ w.db) × (w'.committed ≡ w.committed)
  validate_access_token_sound h =
      let (_, p, _, _, accepted) = validate_access_token-Returns b call token w h in
      let (same, f1, f2, version, backed) = check_access-Returns b call w p accepted in
      (record { version = rw same version; backed = rw same backed }, f1, f2)

  -- Once the cache holds a version of at least `n` for a user, no access token of that user with a
  -- version below `n` is accepted.
  pub validate_access_token-refuses_old :
      (n : ℕ)
      → HasVersion q.user_id n w.redis
      → q.authorization_version < n
      → ¬ Returns (validate_access_token b call token) w q w'
  validate_access_token-refuses_old n has lt h =
      no_old_version call.read_now n q.authorization_version _ has lt
        ((validate_access_token_sound h).0.version)

  -- A token is refused if the session key of its session does not name its user, and the row of its
  -- session is missing, revoked, or another user's.
  pub validate_access_token-refuses_ended :
      (string_at call.read_now w.redis (session q.session_id) ≢ some (uuid q.user_id))
      → ((m : UserSessionModel)
          → w.db.sessions q.session_id ≡ some m
          → m.revoked_at ≡ none
          → m.user_id ≢ q.user_id)
      → ¬ Returns (validate_access_token b call token) w q w'
  validate_access_token-refuses_ended key row h = elim ((validate_access_token_sound h).0.backed) [
    | inl cached ↦ key cached.1
    | inr rows ↦ row rows.session rows.session_row rows.not_revoked rows.owned
  ]
