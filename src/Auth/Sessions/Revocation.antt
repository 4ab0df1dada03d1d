-- ===== src/Auth/Sessions/Revocation.antt =====
-- What the use cases that end sessions have done when they return.
use base_backend.Prelude.{
  ◌≡◌, ◌∙◌, ap, Bool, true, false, Option, none, some, is_none, arith, Bool-cases, Option-cases,
  fun_ext, refl, sym, subst, inl, inr, nat_eq, ◌==◌, if◌then◌else◌,
}
use base_backend.Exec.{Exec, pure, ◌>>=◌}
use base_backend.Exec.Inversion.{Returns, bind-ok}
use base_backend.Redis.{Time, Uuid, Keyspace}
use base_backend.Sql.{Table, update_rows}
use base_backend.Authorization.Store
use base_backend.World.{UserSessionModel, World, Backend, on_redis, commit}
use base_backend.World.Transactions.{transaction-Returns, commit-Returns, on_redis-Returns}
use base_backend.Auth.{UserSession, MessageResultDto}
use base_backend.Auth.Repository.{
  session_entity, revoked, is_active, get_session, revoke_session, revoke_session_by_id,
  revoke_all_active_for_user,
}
use base_backend.Auth.Repository.Effects.{
  with_sessions, revoke_where, owns, matches, get_session-Returns, revoke_session-Returns,
  revoke_session_by_id-Returns, revoke_all_active_for_user-Returns,
}
use base_backend.Auth.Sessions.{
  own_session, not_revoked, revoke_token_steps, revoke_all_tokens_steps, logout_user_steps,
  revoke_token, revoke_all_tokens, logout_user,
}

-- The sessions `t` are committed, and Redis holds `k`; all else is as in `w`.
abbrev pub ended : World → Table UserSessionModel → Keyspace → World
ended w t k = record {
  db = record (w.db) { sessions = t };
  committed = record (w.db) { sessions = t };
  redis = k;
}

module _ (b : Backend) (now : Time) (w : World) (u : Uuid) where
  -- The end of each use case: the access state is told, and the transaction is committed.
  tell_and_commit :
      (m : Exec Keyspace (Unit {0})) (w1 x : World) (r : MessageResultDto) {r' : MessageResultDto}
      {w' : World}
      → Returns (on_redis m >>= λ _. commit b >>= λ _. pure r) w1 r' w'
      → w1 ≡ x
      → (k : Keyspace) × Returns m x.redis tt k
        × (w' ≡ record { db = x.db; committed = x.db; redis = k })
  tell_and_commit m w1 x r {r'} {w'} h same =
      let (_, w2, e, rest) = bind-ok (on_redis m) (λ _. commit b >>= λ _. pure r) w1 h in
      let (k, told, e') = on_redis-Returns m w1 e in
      let (_, w3, c, last) = bind-ok (commit b) (λ _. pure r) w2 rest in
      subst
        (λ y.
          (k : Keyspace) × Returns m y.redis tt k
          × (w' ≡ record { db = y.db; committed = y.db; redis = k }))
        same (k, told, cc (commit-Returns b w2 c))

  not_revoked-raises :
      (sid : Uuid) (s : World) {w' : World} → ¬ Returns (not_revoked b now u sid) s tt w'
  unfolding not_revoked
  not_revoked-raises sid s h =
      let (row, w1, _, r1) = bind-ok (get_session b sid) _ s h in
      let (_, w2, _, r2) = bind-ok (own_session u row) _ w1 r1 in cc

  passed :
      (done : Bool) (sid : Uuid) (s : World) {s' : World}
      → Returns (if done then pure tt else not_revoked b now u sid) s tt s'
      → (done ≡ true) × (s' ≡ s)
  passed true sid s h = (refl, sym (ap (λ p. p.1) h))
  passed false sid s h = absurd (not_revoked-raises sid s h)

  -- To revoke a session that is revoked changes nothing.
  revoke_where-revoked :
      (sid : Uuid) (m : UserSessionModel) (t : Table UserSessionModel)
      → t sid ≡ some m
      → is_active m ≡ false
      → revoke_where (λ j _. j == sid) now t ≡ t
  revoke_where-revoked sid m t found old = fun_ext λ k. elim (Option-cases (t k)) [
    | inl missing ↦ ground arith
    | inr (m', here) ↦ elim (Bool-cases (k == sid)) [
      | inl same ↦
          let e : k ≡ sid = ground arith in
          let e' : m' ≡ m = cc (subst (λ j. t j ≡ some m') e here) in
          rw here (rw (same, e', old) refl)
      | inr other ↦ rw here (rw other refl)
    ]
  ]

  revoked_or_passed :
      (sid : Uuid) (m : UserSessionModel) (row : UserSession) (s : World) {s' : World}
      → w.db.sessions sid ≡ some m
      → row.revoked_at ≡ m.revoked_at
      → s ≡ w
      → Returns (if is_none row.revoked_at then revoke_session_by_id b sid now else pure tt) s tt s'
      → s' ≡ with_sessions (revoke_where (λ j _. j == sid) now w.db.sessions) w
  revoked_or_passed sid m row s found read same h = elim (Bool-cases (is_active m)) [
    | inl live ↦ revoke_session_by_id-Returns b w sid now (rw (read, live, same) at h)
    | inr old ↦
        rw (revoke_where-revoked sid m w.db.sessions found old)
          (sym (ap (λ p. p.1) (rw (read, old, same) at h)))
  ]

  -- `RevokeTokenUseCase`
  pub revoke_token-Returns :
      (sid : Uuid) {r : MessageResultDto} {w' : World}
      → Returns (revoke_token b now u sid) w r w'
      → (k : Keyspace) × (owns u (w.db.sessions sid) ≡ true)
        × Returns (Store.revoke_session b.redis now u sid) w.redis tt k
        × (w' ≡ ended w (update_rows (matches b w sid u now) (revoked now) w.db.sessions) k)
  unfolding revoke_token revoke_token_steps
  revoke_token-Returns sid h =
      let h0 = transaction-Returns (revoke_token_steps b now u sid) w h in
      let (done, w1, e1, r1) = bind-ok (revoke_session b sid u now) _ w h0 in
      let (_, w2, e2, r2) = bind-ok (if done then pure tt else not_revoked b now u sid) _ w1 r1 in
      let (answer, changed) = revoke_session-Returns b w sid u now e1 in
      let (yes_done, same) = passed done sid w1 e2 in
      let (k, told, final) =
        tell_and_commit (Store.revoke_session b.redis now u sid) w2 _ _ r2 (same ∙ changed) in
      (k, sym answer ∙ yes_done, told, final)

  -- `RevokeAllTokensUseCase`
  pub revoke_all_tokens-Returns :
      {r : MessageResultDto} {w' : World}
      → Returns (revoke_all_tokens b now u) w r w'
      → (k : Keyspace) × Returns (Store.revoke_all_sessions b.redis now u) w.redis tt k
        × (w' ≡ ended w (revoke_where (λ _ m. m.user_id == u) now w.db.sessions) k)
  unfolding revoke_all_tokens revoke_all_tokens_steps
  revoke_all_tokens-Returns h =
      let h0 = transaction-Returns (revoke_all_tokens_steps b now u) w h in
      let (_, w1, e1, r1) = bind-ok (revoke_all_active_for_user b u now) _ w h0 in
      tell_and_commit (Store.revoke_all_sessions b.redis now u) w1 _ _ r1
        (revoke_all_active_for_user-Returns b w u now e1)

  own_session-Returns :
      (row : Option UserSession) (s : World) {x : UserSession} {w' : World}
      → Returns (own_session u row) s x w'
      → (row ≡ some x) × (x.user_id ≡ u) × (w' ≡ s)
  own_session-Returns row s h = ground arith

  -- `LogoutUserUseCase`
  pub logout_user-Returns :
      (sid : Uuid) {r : MessageResultDto} {w' : World}
      → Returns (logout_user b now u sid) w r w'
      → (k : Keyspace) × (m : UserSessionModel) × (w.db.sessions sid ≡ some m)
        × (m.user_id ≡ u)
        × Returns (Store.revoke_session b.redis now u sid) w.redis tt k
        × (w' ≡ ended w (revoke_where (λ j _. j == sid) now w.db.sessions) k)
  unfolding logout_user logout_user_steps session_entity
  logout_user-Returns sid h =
      let h0 = transaction-Returns (logout_user_steps b now u sid) w h in
      let (found, w1, e1, r1) = bind-ok (get_session b sid) _ w h0 in
      let (row, w2, e2, r2) = bind-ok (own_session u found) _ w1 r1 in
      let (_, w3, e3, r3) =
        bind-ok (if is_none row.revoked_at then revoke_session_by_id b sid now else pure tt) _ w2
          r2 in
      let (read, answer) = get_session-Returns b w sid e1 in
      let (there, owned, same) = own_session-Returns found w1 e2 in
      elim (Option-cases (w.db.sessions sid)) [
        | inl missing ↦ absurd (ground arith)
        | inr (m, here) ↦
            let e : row ≡ session_entity sid m none = ground arith in
            let gone =
              revoked_or_passed sid m row w2 here (ap (λ r. r.revoked_at) e) (same ∙ read) e3 in
            let (k, told, final) =
              tell_and_commit (Store.revoke_session b.redis now u sid) w3 _ _ r3 gone in
            (k, m, here, sym (ap (λ r. r.user_id) e) ∙ owned, told, final)
      ]
