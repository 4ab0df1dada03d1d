-- ===== src/Auth/ValidateAccessToken.antt =====
-- app/modules/auth/application/use_cases/validate_access_token.py. The database is read here and not
-- written.
pub mod Soundness
pub mod Claims
pub mod Refusals
use base_backend.Prelude.{
  ℕ, Bool, false, not, ◌||◌, ◌&&◌, Option, none, some, is_some, ltb, String, ◌==◌, nat_eq,
  string_eq, if◌then◌else◌,
}
use base_backend.Errors.{Result, ok, err, invalid_token, session_not_found, session_revoked}
use base_backend.Exec.{Exec, pure, raise, raise_if, lift, ◌>>=◌, ◌>>◌}
use base_backend.Redis.{Time}
use base_backend.Authorization.{active, role_eq, status_eq, CurrentPrincipal, CachedAccessState}
use base_backend.Authorization.Store
use base_backend.World.{World, Backend, Payload, on_redis}
use base_backend.Users.{User}
use base_backend.Users.Repository.{get_by_id}
use base_backend.Auth.{UserSession}
use base_backend.Auth.Tokens.{uuid_claim, role_claim, int_claim, decode_token}
use base_backend.Auth.Repository.{get_session}

-- What `datetime.now(UTC)` returned in `decode_token`, in the reads of the store, in `execute` and in
-- `cache`.
pub record ValidateCall : Type 0 where
  pub decode_now : Time
  pub read_now : Time
  pub now : Time
  pub cache_now : Time

-- `except (KeyError, TypeError, ValueError)`
abbrev pub or_invalid : {A : Type 0} → Result A → Result A
or_invalid (ok a) = ok a
or_invalid (err _) = err invalid_token

unfoldable pub is_access : Payload → Bool
is_access payload = elim payload.typ [ none ↦ false | some typ ↦ typ == "access" ]

-- The claims of an access token, as the principal that they name.
unfoldable pub read_claims : Payload → Exec World CurrentPrincipal
read_claims payload = do
  user_id ← lift (or_invalid (uuid_claim payload.sub))
  session_id ← lift (or_invalid (uuid_claim payload.sid))
  role ← lift (or_invalid (role_claim payload.role))
  authorization_version ← lift (or_invalid (int_claim payload.av))
  raise_if (ltb authorization_version 1) invalid_token
  pure (record {
    user_id = user_id;
    session_id = session_id;
    role = role;
    authorization_version = authorization_version;
  })

-- `cached.authorization_version is not None and cached.authorization_version != ...`
abbrev pub other_version : Option ℕ → ℕ → Bool
other_version none v = false
other_version (some c) v = not (c == v)

abbrev pub is_true : Option Bool → Bool
is_true none = false
is_true (some b) = b

abbrev pub is_false : Option Bool → Bool
is_false none = false
is_false (some b) = not b

-- The tests on the user's row.
abbrev pub check_user : CurrentPrincipal → Option User → Exec World (Unit {0})
check_user p none = raise invalid_token
check_user p (some u) = do
  raise_if (not (u.status == active)) invalid_token
  raise_if (not (u.role == p.role) || not (u.authorization_version == p.authorization_version))
      invalid_token

-- The tests on the session's row.
abbrev pub check_session : Time → CurrentPrincipal → Option UserSession → Exec World UserSession
check_session now p none = raise session_not_found
check_session now p (some s) = do
  raise_if (is_some s.revoked_at || ltb s.expires_at now) session_revoked
  raise_if (not (s.user_id == p.user_id)) invalid_token
  pure s

module _ (b : Backend) (call : ValidateCall) where
  -- The part that reads the rows; it returns the session that `fill` then caches.
  unfoldable pub check_rows : CurrentPrincipal → Exec World UserSession
  check_rows p = do
    user ← get_by_id b p.user_id
    check_user p user
    session ← get_session b p.session_id
    check_session call.now p session

  unfoldable pub fill : CurrentPrincipal → UserSession → Exec World CurrentPrincipal
  fill p session = do
    on_redis (
        Store.cache b.redis call.cache_now p.user_id p.authorization_version p.session_id
          session.expires_at)
    pure p

  unfoldable pub on_cached : CurrentPrincipal → CachedAccessState → Exec World CurrentPrincipal
  on_cached p cached =
      if other_version cached.authorization_version p.authorization_version
      then raise invalid_token
      else if is_false cached.session_active
      then raise invalid_token
      else if is_some cached.authorization_version && is_true cached.session_active
      then pure p
      else (do session ← check_rows p; fill p session)

  unfoldable pub check_access : CurrentPrincipal → Exec World CurrentPrincipal
  check_access p = do
    cached ← on_redis (Store.get b.redis call.read_now p.user_id p.session_id)
    on_cached p cached

  unfoldable pub validate_access_token : String → Exec World CurrentPrincipal
  validate_access_token token = do
    payload ← lift (decode_token b.jwt call.decode_now token)
    raise_if (not (is_access payload)) invalid_token
    p ← read_claims payload
    check_access p
