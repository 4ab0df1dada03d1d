-- ===== src/Auth/RefreshToken/Replay.antt =====
-- Which refresh tokens are exchanged, and that none is exchanged twice.
use base_backend.Prelude.{
  ◌≤◌, ◌≡◌, ◌∙◌, inl, inr, ap, subst, sym, refl, String, true, false, not, Option, none, some,
  arith, Bool-cases, ltb, ◌==◌, nat_eq, string_eq, update_at, filter_option,
}
use base_backend.Errors.{Result, ok, invalid_token}
use base_backend.Exec.{raise_if, lift}
use base_backend.Exec.Inversion.{Returns, bind-ok, raise_if-Returns}
use base_backend.Redis.{Time, Uuid, Keyspace}
use base_backend.Sql.{Table}
use base_backend.Authorization.{active}
use base_backend.Authorization.Store
use base_backend.World.{UserModel, UserSessionModel, World, Backend, Payload, transaction}
use base_backend.World.Transactions.{transaction-Returns}
use base_backend.Auth.{UserSession, TokenPairDto}
use base_backend.Auth.Tokens.{uuid_claim, decode_token}
use base_backend.Auth.Repository.{is_active, lock_user_refresh, get_session_for_update}
use base_backend.Auth.Repository.Effects.{
  revoke_where, lock_user_refresh-Returns, get_session_for_update-Returns, session_entity-some,
}
use base_backend.Auth.RefreshToken.{
  RefreshCall, Outcome, issued, raised_after_commit, finish, verify_refresh_hash, rotate,
  check_session, on_session, attempt, is_refresh, refresh_token,
}
use base_backend.Auth.RefreshToken.Branches.{
  refuse_missing-Returns, refuse_all-Returns, refuse_expired-Returns,
}
use base_backend.Auth.RefreshToken.Rotation.{begun, rotated_db, new_tokens, rotate-Returns}

-- A refresh token of `u` for the session `sid` was exchanged for `t`, which took `w` to `w'`.
pub record IsExchanged (b : Backend) (call : RefreshCall) (token : String) (u sid : Uuid)
    (w : World) (t : TokenPairDto) (w' : World) : Type 0 where
  pub session : UserSessionModel
  pub user : UserModel
  pub redis : Keyspace
  pub session_row : w.db.sessions sid ≡ some session
  pub not_revoked : is_active session ≡ true
  pub owned : session.user_id ≡ u
  pub not_expired : call.now ≤ session.expires_at
  pub same_hash : b.sha256_hex token ≡ session.refresh_token_hash
  pub user_row : w.db.users u ≡ some user
  pub active_user : user.status ≡ active
  pub fresh : revoke_where (λ k _. k == sid) call.now w.db.sessions call.new_session_id ≡ none
  pub told : Returns (Store.revoke_session b.redis call.now u sid) w.redis tt redis
  pub tokens : t ≡ new_tokens b call u user
  pub state : w' ≡ record {
    db = rotated_db b call u sid session.user_device_id w.db;
    committed = rotated_db b call u sid session.user_device_id w.db;
    redis = redis;
  }

module _ (b : Backend) (call : RefreshCall) (token : String) where
  check_session-Returns :
      (u sid : Uuid) (x : UserSession) (w : World) {t : TokenPairDto} {w' : World}
      → Returns (check_session b call token u sid x) w (issued t) w'
      → (x.user_id ≡ u)
        × (call.now ≤ x.expires_at)
        × (verify_refresh_hash b token x.refresh_token_hash ≡ true)
        × Returns (rotate b call u sid x) w (issued t) w'
  unfolding check_session
  check_session-Returns u sid x w h = elim (Bool-cases (x.user_id == u)) [
    | inr other ↦ absurd (cc (refuse_all-Returns b call w u (rw other at h)).0)
    | inl own ↦ elim (Bool-cases (ltb x.expires_at call.now)) [
      | inl late ↦ absurd (cc (refuse_expired-Returns b call w u sid (rw (own, late) at h)).0)
      | inr in_time ↦ elim (Bool-cases (verify_refresh_hash b token x.refresh_token_hash)) [
        | inr wrong ↦
            absurd (cc (refuse_all-Returns b call w x.user_id (rw (own, in_time, wrong) at h)).0)
        | inl right ↦ (ground arith, ground arith, right, rw (own, in_time, right) at h)
      ]
    ]
  ]

  on_session-Returns :
      (payload : Payload) (u sid : Uuid) (found : Option UserSession) (w : World) {t : TokenPairDto}
      {w' : World}
      → Returns (on_session b call token payload u sid found) w (issued t) w'
      → (x : UserSession) × (found ≡ some x)
        × Returns (check_session b call token u sid x) w (issued t) w'
  unfolding on_session
  on_session-Returns payload u sid none w h =
      absurd (cc (refuse_missing-Returns b call w payload u h).0)
  on_session-Returns payload u sid (some x) w h = (x, refl, h)

  active_row :
      (row : Option UserSessionModel) {m : UserSessionModel}
      → filter_option is_active row ≡ some m
      → (row ≡ some m) × (is_active m ≡ true)
  active_row row h = ground arith

  attempt-Returns :
      (payload : Payload) (u sid : Uuid) (w : World) {t : TokenPairDto} {w' : World}
      → Returns (attempt b call token payload u sid) w (issued t) w'
      → IsExchanged b call token u sid w t w'
  unfolding attempt
  attempt-Returns payload u sid w {t} {w'} h =
      let (_, w1, e1, r1) = bind-ok (lock_user_refresh b u) _ w h in
      let (found, w2, e2, r2) = bind-ok (get_session_for_update b sid) _ w1 r1 in
      let s1 = lock_user_refresh-Returns b w u e1 in
      let (s2, answer) = get_session_for_update-Returns b w1 sid e2 in
      let (x, there, r3) = on_session-Returns payload u sid found w2 r2 in
      let (own, in_time, right, r4) = check_session-Returns u sid x w2 r3 in
      let (n, row, n1, n2, n3, n4, n5) = session_entity-some sid _ (sym answer ∙ there) in
      let (here, live) = active_row (w1.db.sessions sid) row in
      let (m, k, u1, u2, u3, u4, u5, u6) =
        rotate-Returns b call u sid x w
          (subst (λ y. Returns (rotate b call u sid x) y (issued t) w') (s2 ∙ s1) r4) in
      record {
        session = n;
        user = m;
        redis = k;
        session_row = ap (λ (y : World). y.db.sessions sid) (sym s1) ∙ here;
        not_revoked = live;
        owned = sym n3 ∙ own;
        not_expired = rw (← n2) in_time;
        same_hash = (string_eq.equal_iff _ _).0 right ∙ n5;
        user_row = u1;
        active_user = u2;
        fresh = u4;
        told = u3;
        tokens = cc;
        state =
            subst
              (λ d. w' ≡ record {
                db = rotated_db b call u sid d w.db;
                committed = rotated_db b call u sid d w.db;
                redis = k;
              })
              n4 u6;
      }

  finish-Returns :
      (o : Outcome) (w : World) {t : TokenPairDto} {w' : World}
      → Returns (finish o) w t w'
      → (o ≡ issued t) × (w ≡ w')
  finish-Returns (issued x) w h = (cc, cc)
  finish-Returns (raised_after_commit e) w h = absurd (cc)

-- The claims of a refresh token: its user and its session.
pub record NamesSession (payload : Payload) (u sid : Uuid) : Type 0 where
  pub refresh : is_refresh payload ≡ true
  pub sub : uuid_claim payload.sub ≡ ok u
  pub jti : uuid_claim payload.jti ≡ ok sid

lift-Returns :
    {A : Type 0} (r : Result A) (w : World) {a : A} {w' : World}
    → Returns (lift r) w a w'
    → (r ≡ ok a) × (w' ≡ w)
lift-Returns r w h = (ap (λ p. p.0) h, sym (ap (λ p. p.1) h))

module _ (b : Backend) (call : RefreshCall) (token : String) (w : World) {t : TokenPairDto}
    {w' : World} where
  -- Tokens are issued only for a refresh token that decodes, whose session is not revoked, not past
  -- its expiry and of the user of the token, with the hash of this token, and whose user is active.
  -- Then its session is revoked in the database and in the access state, a session under a fresh key
  -- takes its place on the same device, the device is touched, all of it is committed, and the tokens
  -- are for the new session with the user's role and version.
  pub refresh_token-exchanges :
      Returns (refresh_token b call token) w t w'
      → (payload : Payload) × (u : Uuid) × (sid : Uuid) × (decode_token b.jwt call.decode_now token
          ≡ ok payload)
        × NamesSession payload u sid
        × IsExchanged b call token u sid w t w'
  unfolding refresh_token
  refresh_token-exchanges h =
      let (payload, w1, e1, r1) = bind-ok (lift (decode_token b.jwt call.decode_now token)) _ w h in
      let (_, w2, e2, r2) = bind-ok (raise_if (not (is_refresh payload)) invalid_token) _ w1 r1 in
      let (u, w3, e3, r3) = bind-ok (lift (uuid_claim payload.sub)) _ w2 r2 in
      let (sid, w4, e4, r4) = bind-ok (lift (uuid_claim payload.jti)) _ w3 r3 in
      let (o, w5, e5, r5) = bind-ok (transaction (attempt b call token payload u sid)) _ w4 r4 in
      let (d1, s1) = lift-Returns (decode_token b.jwt call.decode_now token) w e1 in
      let (d2, s2) = raise_if-Returns (not (is_refresh payload)) invalid_token w1 e2 in
      let (d3, s3) = lift-Returns (uuid_claim payload.sub) w2 e3 in
      let (d4, s4) = lift-Returns (uuid_claim payload.jti) w3 e4 in
      let (d5, s5) = finish-Returns b call token o w5 r5 in
      let e6 = transaction-Returns (attempt b call token payload u sid) w4 e5 in
      (
        payload,
        u,
        sid,
        d1,
        record { refresh = ground arith; sub = d3; jti = d4 },
        subst (λ y. IsExchanged b call token u sid y t w') (s4 ∙ s3 ∙ s2 ∙ s1)
            (attempt-Returns b call token payload u sid w4 (
              subst (λ y. Returns (attempt b call token payload u sid) w4 y w') d5
                (subst (λ y. Returns (attempt b call token payload u sid) w4 o y) s5 e6))),
      )

  -- A refresh token is refused if the session that it names is missing or revoked.
  pub refresh_token-refuses_ended :
      (payload : Payload) (sid : Uuid)
      → decode_token b.jwt call.decode_now token ≡ ok payload
      → uuid_claim payload.jti ≡ ok sid
      → ((m : UserSessionModel) → w.db.sessions sid ≡ some m → is_active m ≡ false)
      → ¬ Returns (refresh_token b call token) w t w'
  refresh_token-refuses_ended payload sid d j gone h =
      let (payload', u, sid', d', names, x) = refresh_token-exchanges h in
      let same : payload' ≡ payload = ground arith in
      let same_sid : sid' ≡ sid = ground (arith, names.jti) in
      let f =
        gone x.session (subst (λ k. w.db.sessions k ≡ some x.session) same_sid x.session_row) in
      cc (x.not_revoked)

-- The row of an old session after its token was exchanged.
replaced_row :
    (sid new : Uuid) (at : Time) (row : UserSessionModel) (t : Table UserSessionModel)
    (n m : UserSessionModel)
    → t sid ≡ some n
    → revoke_where (λ k _. k == sid) at t new ≡ none
    → update_at new (some row) (revoke_where (λ k _. k == sid) at t) sid ≡ some m
    → is_active m ≡ false
replaced_row sid new at row t n m here fresh h = elim (Bool-cases (sid == new)) [
  | inl same ↦
      let e : sid ≡ new = ground arith in absurd (ground (arith, subst (λ j. t j ≡ some n) e here))
  | inr other ↦ ground arith
]

-- A refresh token is exchanged at most once: after it was exchanged, no call that reads the same claims
-- from it issues tokens, whatever its clock and the new session's key are.
pub refresh_token-once :
    (b : Backend) (call again : RefreshCall) (token : String) (w : World) {t t' : TokenPairDto}
    {w' w'' : World}
    → Returns (refresh_token b call token) w t w'
    → decode_token b.jwt again.decode_now token ≡ decode_token b.jwt call.decode_now token
    → ¬ Returns (refresh_token b again token) w' t' w''
refresh_token-once b call again token w {w' = w'} h same =
    let (payload, u, sid, d, names, x) = refresh_token-exchanges b call token w h in
    refresh_token-refuses_ended b again token w' payload sid (same ∙ d) names.jti (λ m row.
      replaced_row sid call.new_session_id call.now (begun b call u x.session.user_device_id)
        w.db.sessions x.session m x.session_row x.fresh
        (subst (λ (y : World). y.db.sessions sid ≡ some m) x.state row))
