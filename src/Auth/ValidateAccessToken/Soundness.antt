-- ===== src/Auth/ValidateAccessToken/Soundness.antt =====
-- What an accepted access token shows of the database and of the cache.
use base_backend.Prelude.{
  ℕ, ◌≤◌, ◌≡◌, ◌⊎◌, inl, inr, refl, sym, ap, ◌∙◌, subst, Bool, true, false, Option, none, some,
  arith, Bool-cases, ◌&&◌, is_some, nat_eq,
}
use base_backend.Exec.{pure}
use base_backend.Exec.Inversion.{Returns, bind-ok}
use base_backend.Errors.{ok}
use base_backend.Redis.{Time, Value, number, uuid, user_version, session, string_at, Keyspace}
use base_backend.Authorization.{active, CurrentPrincipal, CachedAccessState}
use base_backend.Authorization.Store
use base_backend.Authorization.Store.{read_version, read_session}
use base_backend.Authorization.Store.Writes.{get-Returns}
use base_backend.World.{UserModel, UserSessionModel, World, Backend, on_redis}
use base_backend.World.Transactions.{on_redis-Returns}
use base_backend.Users.{User}
use base_backend.Users.Repository.{get_by_id}
use base_backend.Users.Repository.Effects.{user_at-some, get_by_id-Returns}
use base_backend.Auth.{UserSession}
use base_backend.Auth.Repository.{get_session}
use base_backend.Auth.Repository.Effects.{session_entity-some, get_session-Returns}
use base_backend.Auth.ValidateAccessToken.{
  ValidateCall, check_user, check_session, check_rows, fill, on_cached, check_access, other_version,
  is_true, is_false,
}

-- The rows back a principal at `now`: an active user with the role and the version of the token, and a
-- session of that user that is neither revoked nor past its expiry.
pub record IsBacked (now : Time) (w : World) (p : CurrentPrincipal) : Type 0 where
  pub user : UserModel
  pub session : UserSessionModel
  pub user_row : w.db.users p.user_id ≡ some user
  pub is_active : user.status ≡ active
  pub same_role : user.role ≡ p.role
  pub same_version : user.authorization_version ≡ p.authorization_version
  pub session_row : w.db.sessions p.session_id ≡ some session
  pub not_revoked : session.revoked_at ≡ none
  pub not_expired : now ≤ session.expires_at
  pub owned : session.user_id ≡ p.user_id

-- The cache backs a principal at `now`: it holds the version of the token, and the session key names
-- the user.
abbrev pub IsCached : Time → Keyspace → CurrentPrincipal → Type 0
IsCached now k p =
    (string_at now k (user_version p.user_id) ≡ some (number p.authorization_version))
    × (string_at now k (session p.session_id) ≡ some (uuid p.user_id))

module _ (b : Backend) (call : ValidateCall) (w : World) (p : CurrentPrincipal) where
  check_user-Returns :
      (found : Option User) (s : World) {w' : World}
      → Returns (check_user p found) s tt w'
      → (u : User) × (found ≡ some u)
        × (u.status ≡ active)
        × (u.role ≡ p.role)
        × (u.authorization_version ≡ p.authorization_version)
        × (w' ≡ s)
  check_user-Returns none s h = absurd (cc)
  check_user-Returns (some u) s h =
      (u, refl, ground arith, ground arith, ground arith, ground arith)

  check_session-Returns :
      (found : Option UserSession) (s : World) {x : UserSession} {w' : World}
      → Returns (check_session call.now p found) s x w'
      → (found ≡ some x)
        × (x.revoked_at ≡ none)
        × (call.now ≤ x.expires_at)
        × (x.user_id ≡ p.user_id)
        × (w' ≡ s)
  check_session-Returns found s h = ground arith

  check_rows-Returns :
      {x : UserSession} {w' : World}
      → Returns (check_rows b call p) w x w'
      → IsBacked call.now w p × (w' ≡ w)
  unfolding check_rows
  check_rows-Returns h =
      let (found, w1, e1, r1) = bind-ok (get_by_id b p.user_id) _ w h in
      let (_, w2, e2, r2) = bind-ok (check_user p found) _ w1 r1 in
      let (row, w3, e3, r3) = bind-ok (get_session b p.session_id) _ w2 r2 in
      let (same, answer) = get_by_id-Returns b w p.user_id e1 in
      let (u, there, f1, f2, f3, same2) = check_user-Returns found w1 e2 in
      let (same3, answer3) =
        get_session-Returns b w p.session_id
          (subst (λ y. Returns (get_session b p.session_id) y row w3) (same2 ∙ same) e3) in
      let (there4, g1, g2, g3, same4) = check_session-Returns row w3 r3 in
      let (m, here, m1, m2, m3) = user_at-some w.db p.user_id (sym answer ∙ there) in
      let (n, here', n1, n2, n3, _, _) =
        session_entity-some p.session_id (w.db.sessions p.session_id) (sym answer3 ∙ there4) in
      (
        record {
          user = m;
          session = n;
          user_row = here;
          is_active = sym m2 ∙ f1;
          same_role = sym m1 ∙ f2;
          same_version = sym m3 ∙ f3;
          session_row = here';
          not_revoked = sym n1 ∙ g1;
          not_expired = rw (← n2) g2;
          owned = sym n3 ∙ g3;
        },
        same4 ∙ same3,
      )

  fill-Returns :
      (x : UserSession) {q : CurrentPrincipal} {w' : World}
      → Returns (fill b call p x) w q w'
      → (q ≡ p) × (w'.db ≡ w.db) × (w'.committed ≡ w.committed)
  unfolding fill
  fill-Returns x h =
      let m =
        Store.cache b.redis call.cache_now p.user_id p.authorization_version p.session_id
          x.expires_at in
      let (_, w1, e1, r1) = bind-ok (on_redis m) (λ _. pure p) w h in
      let (k, _, e) = on_redis-Returns m w e1 in (cc, cc, cc)

  on_cached-Returns :
      (cached : CachedAccessState) {q : CurrentPrincipal} {w' : World}
      → Returns (on_cached b call p cached) w q w'
      → (q ≡ p)
        × (w'.db ≡ w.db)
        × (w'.committed ≡ w.committed)
        × (other_version cached.authorization_version p.authorization_version ≡ false)
        × (((cached.authorization_version ≡ some p.authorization_version)
              × (cached.session_active ≡ some true))
            ⊎ IsBacked call.now w p)
  unfolding on_cached
  on_cached-Returns cached {q} {w'} h =
      elim (Bool-cases (other_version cached.authorization_version p.authorization_version)) [
        | inl other ↦ absurd (ground arith)
        | inr agrees ↦ elim (Bool-cases (is_false cached.session_active)) [
          | inl ended ↦ absurd (ground arith)
          | inr open_ ↦
              elim (Bool-cases
                (is_some cached.authorization_version && is_true cached.session_active)) [
                  | inl hit ↦ (
                    ground arith,
                    ground arith,
                    ground arith,
                    agrees,
                    inl (ground arith, ground arith),
                  )
                  | inr miss ↦
                      let (x, w1, e1, r1) =
                        bind-ok (check_rows b call p) (λ x. fill b call p x) w
                          (rw (agrees, open_, miss) at h) in
                      let (rows, same) = check_rows-Returns e1 in
                      let (f1, f2, f3) =
                        fill-Returns x (subst (λ y. Returns (fill b call p x) y q w') same r1) in
                      (f1, f2, f3, agrees, inr rows)
                ]
        ]
      ]

  version_or_none :
      (o : Option Value) {v : Option ℕ}
      → read_version o ≡ ok v
      → other_version v p.authorization_version ≡ false
      → (o ≡ none) ⊎ (o ≡ some (number p.authorization_version))
  version_or_none o h k = ground arith

  cached_keys :
      (o o' : Option Value) {v : Option ℕ} {s : Option Bool}
      → read_version o ≡ ok v
      → read_session p.user_id o' ≡ s
      → v ≡ some p.authorization_version
      → s ≡ some true
      → (o ≡ some (number p.authorization_version)) × (o' ≡ some (uuid p.user_id))
  cached_keys o o' h h' k k' = ground arith

  -- A principal that is accepted is the one of the token; the cache or the rows back it, and the
  -- cache holds no other version.
  pub check_access-Returns :
      {q : CurrentPrincipal} {w' : World}
      → Returns (check_access b call p) w q w'
      → (q ≡ p)
        × (w'.db ≡ w.db)
        × (w'.committed ≡ w.committed)
        × ((string_at call.read_now w.redis (user_version p.user_id) ≡ none)
            ⊎ (string_at call.read_now w.redis (user_version p.user_id)
                ≡ some (number p.authorization_version)))
        × (IsCached call.read_now w.redis p ⊎ IsBacked call.now w p)
  unfolding check_access
  check_access-Returns {q} {w'} h =
      let (cached, w1, e1, r1) =
        bind-ok (on_redis (Store.get b.redis call.read_now p.user_id p.session_id)) _ w h in
      let (k, got, e) =
        on_redis-Returns (Store.get b.redis call.read_now p.user_id p.session_id) w e1 in
      let (same, v, s) = get-Returns b.redis call.read_now p.user_id p.session_id w.redis got in
      let back : w1 ≡ w = e ∙ ap (λ x. record w { redis = x }) same in
      let (f1, f2, f3, agrees, backed) =
        on_cached-Returns cached
          (subst (λ y. Returns (on_cached b call p cached) y q w') back r1) in
      (
        f1,
        f2,
        f3,
        version_or_none _ v agrees,
        elim backed [ inl (c1, c2) ↦ inl (cached_keys _ _ v s c1 c2) | inr rows ↦ inr rows ],
      )
