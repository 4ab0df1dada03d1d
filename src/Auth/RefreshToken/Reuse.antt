-- ===== src/Auth/RefreshToken/Reuse.antt =====
-- What `RefreshTokenUseCase` does on a token whose session is gone and that has not expired: it was used
-- before, and everything of its user is revoked.
use base_backend.Prelude.{
  ◌≡◌, ◌∙◌, inl, inr, subst, sym, refl, String, true, false, Option, none, some, ◌==◌, nat_eq,
  if◌then◌else◌, map_option, filter_option,
}
use base_backend.Errors.{Result, ok, err, invalid_refresh_token}
use base_backend.Exec.{pure, raise, and_then, handle, ◌>>◌}
use base_backend.Exec.Inversion.{Returns, bind-ok, bind-err, pure-Returns}
use base_backend.Exec.NeverRaises.{Raises, NeverRaises}
use base_backend.Redis.{Uuid, Keyspace}
use base_backend.Authorization.Store
use base_backend.World.{UserSessionModel, World, Backend, Payload, commit, rollback}
use base_backend.Auth.{UserSession}
use base_backend.Auth.Tokens.{decode_token}
use base_backend.Auth.Repository.{
  is_active, session_entity, lock_user_refresh, get_session_for_update,
}
use base_backend.Auth.Repository.Effects.{
  revoke_where, lock_user_refresh-Returns, get_session_for_update-Returns,
}
use base_backend.Auth.RefreshToken.{
  RefreshCall, Outcome, issued, raised_after_commit, finish, is_unexpired, revoke_everything,
  maybe_revoke_all_on_reuse, refuse_missing, on_session, attempt, refresh_token,
}
use base_backend.Auth.RefreshToken.Branches.{committed_with, refuse_missing-Returns}
use base_backend.Auth.RefreshToken.Replay.{NamesSession}
use base_backend.World.Failures.{commit-NeverRaises}
use base_backend.Auth.RefreshToken.Failures.{
  lock_user_refresh-NeverRaises, get_session_for_update-NeverRaises, revoke_everything-NeverRaises,
}

module _ (b : Backend) (call : RefreshCall) (payload : Payload) (u : Uuid) where
  commit_then-NeverRaises : (o : Outcome) → NeverRaises invalid_refresh_token (commit b >> pure o)
  commit_then-NeverRaises o = record {
    at = λ s t h. elim (bind-err (commit b) (λ _. pure o) s h) [
      | inl f ↦ (commit-NeverRaises b invalid_refresh_token refl).at s t f
      | inr (_, v, _, f) ↦ cc
    ];
  }

  -- On an unexpired token the error is raised only after the commit.
  refuse_missing-raises :
      (w w' : World)
      → is_unexpired call.reuse_now payload.exp ≡ true
      → ¬ Raises (refuse_missing b call payload u) w invalid_refresh_token w'
  unfolding refuse_missing maybe_revoke_all_on_reuse
  refuse_missing-raises w w' live h =
      elim (bind-err (revoke_everything b call u call.reuse_revoke_now >> pure true) _ w
        (rw live at h)) [
          | inl f ↦
              elim (bind-err (revoke_everything b call u call.reuse_revoke_now) (λ _. pure true) w
                f) [
                  | inl g ↦ (revoke_everything-NeverRaises b call u call.reuse_revoke_now).at w w' g
                  | inr (_, v, _, g) ↦ cc
                ]
          | inr (reuse, v, f, g) ↦
              let (_, v1, _, f1) =
                bind-ok (revoke_everything b call u call.reuse_revoke_now) (λ _. pure true) w f in
              let (yes_, _) = pure-Returns true v1 f1 in
              (commit_then-NeverRaises (raised_after_commit invalid_refresh_token)).at v w' (
                subst
                  (λ y.
                    Raises
                      (if y
                        then (commit b >> pure (raised_after_commit invalid_refresh_token))
                        else raise invalid_refresh_token)
                      v invalid_refresh_token w')
                  (sym yes_) g)
        ]

module _ (b : Backend) (call : RefreshCall) (token : String) (payload : Payload) (u sid : Uuid)
    (w : World) where
  no_session :
      (row : Option UserSessionModel)
      → ((m : UserSessionModel) → row ≡ some m → is_active m ≡ false)
      → map_option (λ m. session_entity sid m none) (filter_option is_active row) ≡ none
  no_session none h = refl
  no_session (some m) h = rw (h m refl) refl

  -- The state in which the session is looked up, and that it is not found.
  looked_up :
      {w1 w2 : World} {found : Option UserSession}
      → ((m : UserSessionModel) → w.db.sessions sid ≡ some m → is_active m ≡ false)
      → Returns (lock_user_refresh b u) w tt w1
      → Returns (get_session_for_update b sid) w1 found w2
      → (found ≡ none) × (w2 ≡ w)
  looked_up {w1} {w2} {found} gone e1 e2 =
      let s1 = lock_user_refresh-Returns b w u e1 in
      let (s2, answer) =
        get_session_for_update-Returns b w sid
          (subst (λ y. Returns (get_session_for_update b sid) y found w2) s1 e2) in
      (answer ∙ no_session (w.db.sessions sid) gone, s2)

  attempt-raises :
      (w' : World)
      → is_unexpired call.reuse_now payload.exp ≡ true
      → ((m : UserSessionModel) → w.db.sessions sid ≡ some m → is_active m ≡ false)
      → ¬ Raises (attempt b call token payload u sid) w invalid_refresh_token w'
  unfolding attempt on_session
  attempt-raises w' live gone h = elim (bind-err (lock_user_refresh b u) _ w h) [
    | inl f ↦ (lock_user_refresh-NeverRaises b u).at w w' f
    | inr (_, w1, e1, g) ↦ elim (bind-err (get_session_for_update b sid) _ w1 g) [
      | inl f ↦ (get_session_for_update-NeverRaises b sid).at w1 w' f
      | inr (found, w2, e2, f) ↦
          let (missing, same) = looked_up gone e1 e2 in
          refuse_missing-raises b call payload u w2 w' live (
            subst
              (λ y. Raises (on_session b call token payload u sid y) w2 invalid_refresh_token w')
              missing f)
    ]
  ]

  -- What the body returns in this case, and what it leaves.
  attempt-revokes :
      {o : Outcome} {w' : World}
      → ((m : UserSessionModel) → w.db.sessions sid ≡ some m → is_active m ≡ false)
      → Returns (attempt b call token payload u sid) w o w'
      → (o ≡ raised_after_commit invalid_refresh_token)
        × ((k : Keyspace) × Returns
              (Store.revoke_all_sessions b.redis call.reuse_revoke_now u)
              w.redis
              tt
              k
            × (w'
                ≡ committed_with w
                    (revoke_where (λ _ m. m.user_id == u) call.reuse_revoke_now w.db.sessions)
                    k))
  unfolding attempt on_session
  attempt-revokes {o} {w'} gone h =
      let (_, w1, e1, r1) = bind-ok (lock_user_refresh b u) _ w h in
      let (found, w2, e2, r2) = bind-ok (get_session_for_update b sid) _ w1 r1 in
      let (missing, same) = looked_up gone e1 e2 in
      let r3 = subst (λ y. Returns (on_session b call token payload u sid y) w2 o w') missing r2 in
      let (f, _, k) =
        refuse_missing-Returns b call w payload u
          (subst (λ y. Returns (refuse_missing b call payload u) y o w') same r3) in
      (f, k)

  -- What the end of the call says of the transaction that it raises after.
  finished :
      (r : Result Outcome × World) {w' : World}
      → and_then (handle (λ _. rollback) r) finish ≡ (err invalid_refresh_token, w')
      → ((v : World) → r ≡ (err invalid_refresh_token, v) → ⊥)
      → ((o : Outcome) × (r ≡ (ok o, w')))
  finished (ok (issued t), v) h never = absurd (cc)
  finished (ok (raised_after_commit e), v) h never =
      (raised_after_commit e, λ i. (ok (raised_after_commit e), (h i).1))
  finished (err e, v) h never = absurd (never v (cc))

  -- On a refresh token that has not expired and whose session is missing or revoked, the answer
  -- `InvalidRefreshTokenError` means that every active session of its user is revoked, in the rows and
  -- in the access state, and that this is committed.
  pub refresh_token-reuse :
      {w' : World}
      → decode_token b.jwt call.decode_now token ≡ ok payload
      → NamesSession payload u sid
      → is_unexpired call.reuse_now payload.exp ≡ true
      → ((m : UserSessionModel) → w.db.sessions sid ≡ some m → is_active m ≡ false)
      → Raises (refresh_token b call token) w invalid_refresh_token w'
      → (k : Keyspace) × Returns
          (Store.revoke_all_sessions b.redis call.reuse_revoke_now u)
          w.redis
          tt
          k
        × (w'
            ≡ committed_with w
                (revoke_where (λ _ m. m.user_id == u) call.reuse_revoke_now w.db.sessions)
                k)
  unfolding refresh_token
  refresh_token-reuse decodes names live gone h =
      let (o, e) =
        finished (attempt b call token payload u sid w)
          (rw (decodes, names.refresh, names.sub, names.jti) at h)
          (λ v. attempt-raises v live gone) in
      (attempt-revokes gone e).1
