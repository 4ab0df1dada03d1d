-- ===== src/Auth/RefreshToken/Branches.antt =====
-- How the body of `RefreshTokenUseCase.execute` ends, branch by branch, when it raises nothing.
use base_backend.Prelude.{
  ◌≡◌, inl, inr, ◌∙◌, ap, subst, sym, true, false, arith, Bool-cases, ◌==◌, nat_eq, if◌then◌else◌,
}
use base_backend.Errors.{invalid_refresh_token, token_expired}
use base_backend.Exec.{pure, raise, ◌>>=◌, ◌>>◌}
use base_backend.Exec.Inversion.{Returns, bind-ok, pure-Returns}
use base_backend.Redis.{Time, Uuid, Keyspace}
use base_backend.Sql.{Table}
use base_backend.Authorization.Store
use base_backend.World.{UserSessionModel, World, Backend, Payload, on_redis, commit}
use base_backend.World.Transactions.{commit-Returns, on_redis-Returns}
use base_backend.Auth.Repository.{revoke_session_by_id, revoke_all_active_for_user}
use base_backend.Auth.Repository.Effects.{
  with_sessions, revoke_where, revoke_session_by_id-Returns, revoke_all_active_for_user-Returns,
}
use base_backend.Auth.RefreshToken.{
  RefreshCall, Outcome, raised_after_commit, is_unexpired, revoke_everything,
  maybe_revoke_all_on_reuse, refuse_missing, refuse_all, refuse_expired,
}

-- The sessions of `w` are replaced by `t` and committed, and Redis holds `k`.
abbrev pub committed_with : World → Table UserSessionModel → Keyspace → World
committed_with w t k = record {
  db = record (w.db) { sessions = t };
  committed = record (w.db) { sessions = t };
  redis = k;
}

module _ (b : Backend) (call : RefreshCall) (w : World) where
  revoke_everything-Returns :
      (u : Uuid) (at : Time) {w' : World}
      → Returns (revoke_everything b call u at) w tt w'
      → (k : Keyspace) × Returns (Store.revoke_all_sessions b.redis at u) w.redis tt k
        × (w' ≡ record {
          db = record (w.db) { sessions = revoke_where (λ _ m. m.user_id == u) at w.db.sessions };
          committed = w.committed;
          redis = k;
        })
  unfolding revoke_everything
  revoke_everything-Returns u at {w'} h =
      let m = Store.revoke_all_sessions b.redis at u in
      let (_, w1, e1, r1) = bind-ok (revoke_all_active_for_user b u at) (λ _. on_redis m) w h in
      let e = revoke_all_active_for_user-Returns b w u at e1 in
      on_redis-Returns m (with_sessions (revoke_where (λ _ n. n.user_id == u) at w.db.sessions) w)
        (subst (λ y. Returns (on_redis m) y tt w') e r1)

  commit_and_raise :
      (s : World) (o : Outcome) {o' : Outcome} {w' : World}
      → Returns (commit b >>= λ _. pure o) s o' w'
      → (o ≡ o') × (w' ≡ record s { committed = s.db })
  commit_and_raise s o h =
      let (_, w1, e1, r1) = bind-ok (commit b) (λ _. pure o) s h in
      let (e, e') = pure-Returns o w1 r1 in (e, e' ∙ commit-Returns b s e1)

  -- A session of another user, or a token that is not the one that was issued last.
  pub refuse_all-Returns :
      (u : Uuid) {o : Outcome} {w' : World}
      → Returns (refuse_all b call u) w o w'
      → (o ≡ raised_after_commit invalid_refresh_token)
        × ((k : Keyspace) × Returns (Store.revoke_all_sessions b.redis call.now u) w.redis tt k
            × (w'
                ≡ committed_with w (revoke_where (λ _ m. m.user_id == u) call.now w.db.sessions) k))
  unfolding refuse_all
  refuse_all-Returns u h =
      let (_, w1, e1, r1) = bind-ok (revoke_everything b call u call.now) _ w h in
      let (k, told, e) = revoke_everything-Returns u call.now e1 in
      let (o_eq, e2) = commit_and_raise w1 _ r1 in
      (sym o_eq, (k, told, e2 ∙ ap (λ (y : World). record y { committed = y.db }) e))

  -- No active session. Where the token is unexpired everything of its user is revoked; where it is
  -- not, this branch raises without a commit.
  pub refuse_missing-Returns :
      (payload : Payload) (u : Uuid) {o : Outcome} {w' : World}
      → Returns (refuse_missing b call payload u) w o w'
      → (o ≡ raised_after_commit invalid_refresh_token)
        × (is_unexpired call.reuse_now payload.exp ≡ true)
        × ((k : Keyspace) × Returns
              (Store.revoke_all_sessions b.redis call.reuse_revoke_now u)
              w.redis
              tt
              k
            × (w'
                ≡ committed_with w
                    (revoke_where (λ _ m. m.user_id == u) call.reuse_revoke_now w.db.sessions)
                    k))
  unfolding refuse_missing maybe_revoke_all_on_reuse
  refuse_missing-Returns payload u {o} {w'} h =
      let (reuse, w1, e1, r1) = bind-ok (maybe_revoke_all_on_reuse b call payload u) _ w h in
      elim (Bool-cases (is_unexpired call.reuse_now payload.exp)) [
        | inl live ↦
            let (_, w2, e2, r2) =
              bind-ok (revoke_everything b call u call.reuse_revoke_now) (λ _. pure true) w
                (rw live at e1) in
            let (k, told, e) = revoke_everything-Returns u call.reuse_revoke_now e2 in
            let (f, g) = pure-Returns true w2 r2 in
            let (o_eq, e3) = commit_and_raise w1 (raised_after_commit invalid_refresh_token) (
              subst
                (λ y.
                  Returns
                    (if y
                      then (commit b >> pure (raised_after_commit invalid_refresh_token))
                      else raise invalid_refresh_token)
                    w1 o w')
                (sym f) r1) in
            (
              sym o_eq,
              live,
              (k, told, e3 ∙ ap (λ (y : World). record y { committed = y.db }) (g ∙ e)),
            )
        | inr late ↦ let (f, g) = pure-Returns false w (rw late at e1) in absurd (ground arith)
      ]

  pub refuse_expired-Returns :
      (u sid : Uuid) {o : Outcome} {w' : World}
      → Returns (refuse_expired b call u sid) w o w'
      → (o ≡ raised_after_commit token_expired)
        × ((k : Keyspace) × (w'
              ≡ committed_with w (revoke_where (λ j _. j == sid) call.now w.db.sessions) k))
  unfolding refuse_expired
  refuse_expired-Returns u sid h =
      let m = Store.revoke_session b.redis call.now u sid in
      let (_, w1, e1, r1) = bind-ok (revoke_session_by_id b sid call.now) _ w h in
      let (_, w2, e2, r2) = bind-ok (on_redis m) _ w1 r1 in
      let e = revoke_session_by_id-Returns b w sid call.now e1 in
      let (k, _, e') = on_redis-Returns m w1 e2 in
      let (o_eq, e3) = commit_and_raise w2 _ r2 in
      (
        sym o_eq,
        (
          k,
          e3
              ∙ ap (λ (y : World). record y { committed = y.db })
                  (e' ∙ ap (λ (y : World). record y { redis = k }) e),
        ),
      )
