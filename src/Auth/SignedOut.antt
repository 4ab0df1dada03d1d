-- ===== src/Auth/SignedOut.antt =====
-- After a use case that ends sessions has returned, the access tokens of those sessions are refused.
use base_backend.Prelude.{
  ◌≤◌, ◌≡◌, ◌≢◌, ◌⊎◌, inl, inr, ◌∙◌, subst, sym, String, true, none, some, arith, Option-cases,
  ◌==◌, nat_eq, ap, sym, ◌∙◌,
}
use base_backend.Exec.Inversion.{Returns}
use base_backend.Redis.{Time, Uuid, uuid, session, key_eq, Keyspace, live, string_at, run}
use base_backend.Sql.{Table, update_rows}
use base_backend.Authorization.{CurrentPrincipal}
use base_backend.Authorization.Store
use base_backend.Authorization.Store.Index.{IsIndexed, revoke_all_sessions-revokes, later-live}
use base_backend.Authorization.Store.Writes.{revoke_session-Returns}
use base_backend.World.{UserSessionModel, World, Backend}
use base_backend.Auth.{MessageResultDto}
use base_backend.Auth.Repository.{revoked}
use base_backend.Auth.Repository.Effects.{revoke_where, owns, matches}
use base_backend.Auth.Sessions.{revoke_token, revoke_all_tokens, logout_user}
use base_backend.Auth.Sessions.Revocation.{
  ended, revoke_token-Returns, revoke_all_tokens-Returns, logout_user-Returns,
}
use base_backend.Auth.ValidateAccessToken.{ValidateCall, validate_access_token}
use base_backend.Auth.ValidateAccessToken.Refusals.{validate_access_token-refuses_ended}

-- No active row of the user is left.
revoke_user_row :
    (u k : Uuid) (now : Time) (t : Table UserSessionModel) (m : UserSessionModel)
    → revoke_where (λ _ m. m.user_id == u) now t k ≡ some m
    → m.revoked_at ≡ none
    → m.user_id ≢ u
revoke_user_row u k now t m h live e = elim (Option-cases (t k)) [
  | inl missing ↦ ground arith
  | inr (n, here) ↦ ground arith
]

-- The row of the session is not active.
pub revoke_id_row :
    (sid : Uuid) (now : Time) (t : Table UserSessionModel) (m : UserSessionModel)
    → revoke_where (λ j _. j == sid) now t sid ≡ some m
    → m.revoked_at ≢ none
revoke_id_row sid now t m h live = elim (Option-cases (t sid)) [
  | inl missing ↦ ground arith
  | inr (n, here) ↦ ground arith
]

module _ (b : Backend) (now : Time) (w : World) (u sid : Uuid) where
  matched_row :
      (m : UserSessionModel)
      → owns u (w.db.sessions sid) ≡ true
      → update_rows (matches b w sid u now) (revoked now) w.db.sessions sid ≡ some m
      → m.revoked_at ≢ none
  matched_row m own h live = elim (Option-cases (w.db.sessions sid)) [
    | inl missing ↦ ground arith
    | inr (n, here) ↦ ground arith
  ]

  -- A session key that `revoke_session` of the store deleted is gone.
  key_gone :
      (k : Keyspace) (later : Time)
      → Returns (Store.revoke_session b.redis now u sid) w.redis tt k
      → string_at later k (session sid) ≡ none
  unfolding run
  key_gone k later h = let e = revoke_session-Returns b.redis now u sid w.redis h in ground arith

-- No access token of a user is accepted once its sessions are revoked, in the rows and by
-- `revoke_all_sessions` of an indexed store.
pub all_gone-refuses :
    (b : Backend) (now : Time) (u : Uuid) (k : Keyspace) (t : Table UserSessionModel)
    (call : ValidateCall) (token : String) (w' : World) {q : CurrentPrincipal} {w'' : World}
    → IsIndexed now k
    → now ≤ call.read_now
    → Returns (Store.revoke_all_sessions b.redis now u) k tt w'.redis
    → w'.db.sessions ≡ revoke_where (λ _ m. m.user_id == u) now t
    → q.user_id ≡ u
    → ¬ Returns (validate_access_token b call token) w' q w''
all_gone-refuses b now u k t call token w' {q} indexed le told e same =
    let gone = revoke_all_sessions-revokes b.redis now u k indexed told q.session_id in
    validate_access_token-refuses_ended b call token w'
      (λ key. gone (
        later-live _ now call.read_now (uuid u) le (
          subst (λ x. string_at call.read_now w'.redis (session q.session_id) ≡ some (uuid x)) same
            key)))
      (λ m row live own.
        revoke_user_row u q.session_id now t m (subst (λ x. x q.session_id ≡ some m) e row) live
          (own ∙ same))

module _ (b : Backend) (now : Time) (w : World) (u : Uuid) {w' : World} where
  -- After `revoke_all_tokens` of a user has returned, on an indexed store, no access token of that
  -- user is accepted, at that time or later.
  pub revoke_all_tokens-refuses :
      (call : ValidateCall) (token : String) {r : MessageResultDto} {q : CurrentPrincipal}
      {w'' : World}
      → IsIndexed now w.redis
      → now ≤ call.read_now
      → Returns (revoke_all_tokens b now u) w r w'
      → q.user_id ≡ u
      → ¬ Returns (validate_access_token b call token) w' q w''
  revoke_all_tokens-refuses call token indexed le h same =
      let (k, told, e) = revoke_all_tokens-Returns b now w u h in
      all_gone-refuses b now u w.redis w.db.sessions call token w' indexed le
        (subst (λ y. Returns (Store.revoke_all_sessions b.redis now u) w.redis tt y)
          (sym (ap (λ (x : World). x.redis) e)) told)
        (ap (λ (x : World). x.db.sessions) e) same

  -- Both use cases delete the session key and leave no active row of the session.
  ended-refuses :
      (sid : Uuid) (call : ValidateCall) (token : String) (t : Table UserSessionModel)
      (k : Keyspace) {q : CurrentPrincipal} {w'' : World}
      → Returns (Store.revoke_session b.redis now u sid) w.redis tt k
      → w' ≡ ended w t k
      → ((m : UserSessionModel) → t sid ≡ some m → m.revoked_at ≢ none)
      → q.session_id ≡ sid
      → ¬ Returns (validate_access_token b call token) w' q w''
  ended-refuses sid call token t k {q} told e gone same =
      validate_access_token-refuses_ended b call token w'
        (λ key.
          let key' : string_at call.read_now k (session sid) ≡ some (uuid q.user_id) =
            subst (λ x. string_at call.read_now x.redis (session sid) ≡ some (uuid q.user_id)) e
              (subst (λ x. string_at call.read_now w'.redis (session x) ≡ some (uuid q.user_id))
                same key) in
          cc (key_gone b now w u sid k call.read_now told, key'))
        (λ m row live own.
          gone m
            (subst (λ x. x.db.sessions sid ≡ some m) e
              (subst (λ x. w'.db.sessions x ≡ some m) same row))
            live)

  -- After `revoke_token` or `logout_user` has returned for a session, no access token of that session
  -- is accepted, at whatever time.
  pub ended_session-refuses :
      (sid : Uuid) (call : ValidateCall) (token : String) {r : MessageResultDto}
      {q : CurrentPrincipal} {w'' : World}
      → Returns (revoke_token b now u sid) w r w' ⊎ Returns (logout_user b now u sid) w r w'
      → q.session_id ≡ sid
      → ¬ Returns (validate_access_token b call token) w' q w''
  ended_session-refuses sid call token (inl h) same =
      let (k, own, told, e) = revoke_token-Returns b now w u sid h in
      ended-refuses sid call token _ k told e (λ m. matched_row b now w u sid m own) same
  ended_session-refuses sid call token (inr h) same =
      let (k, m, here, own, told, e) = logout_user-Returns b now w u sid h in
      ended-refuses sid call token _ k told e (revoke_id_row sid now w.db.sessions) same
