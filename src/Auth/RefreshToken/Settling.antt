-- ===== src/Auth/RefreshToken/Settling.antt =====
-- `RefreshTokenUseCase` leaves nothing uncommitted, however it ends.
use base_backend.Prelude.{
  ◌≡◌, ◌∙◌, inl, inr, subst, sym, refl, String, not, Option, none, some, Bool-cases, nat_eq,
}
use base_backend.Errors.{Result, ok, err, invalid_token}
use base_backend.Exec.{raise_if, lift, and_then, ◌>>=◌, ◌>>◌}
use base_backend.Redis.{Time, Uuid}
use base_backend.World.{World, Backend, Payload, transaction}
use base_backend.World.Transactions.{
  KeepsCommitted, CommitsLast, IsAtomic, transaction-IsAtomic, transaction_rules,
}
use base_backend.Users.{User}
use base_backend.Auth.{UserSession}
use base_backend.Auth.Tokens.{uuid_claim, decode_token}
use base_backend.Users.Repository.Transactional.{get_by_id-KeepsCommitted}
use base_backend.Auth.Repository.Transactional.{auth_repository_rules}
use base_backend.Auth.RefreshToken.{
  RefreshCall, Outcome, issued, raised_after_commit, finish, active_user, revoke_everything,
  maybe_revoke_all_on_reuse, refuse_missing, refuse_all, refuse_expired, rotate, check_session,
  on_session, attempt, is_refresh, refresh_token,
}

pub active_user-KeepsCommitted : (found : Option User) → KeepsCommitted (active_user found)
active_user-KeepsCommitted none = search transaction_rules
active_user-KeepsCommitted (some u) = search transaction_rules

module _ (b : Backend) (call : RefreshCall) where
  revoke_everything-KeepsCommitted :
      (u : Uuid) (at : Time) → KeepsCommitted (revoke_everything b call u at)
  unfolding revoke_everything
  revoke_everything-KeepsCommitted u at = search auth_repository_rules

  maybe-KeepsCommitted :
      (payload : Payload) (u : Uuid) → KeepsCommitted (maybe_revoke_all_on_reuse b call payload u)
  unfolding maybe_revoke_all_on_reuse
  maybe-KeepsCommitted payload u = search (auth_repository_rules, revoke_everything-KeepsCommitted)

  refuse_missing-CommitsLast :
      (payload : Payload) (u : Uuid) → CommitsLast (refuse_missing b call payload u)
  unfolding refuse_missing
  refuse_missing-CommitsLast payload u = search (transaction_rules, maybe-KeepsCommitted) depth 8

  refuse_all-CommitsLast : (u : Uuid) → CommitsLast (refuse_all b call u)
  unfolding refuse_all
  refuse_all-CommitsLast u = search (transaction_rules, revoke_everything-KeepsCommitted) depth 8

  refuse_expired-CommitsLast : (u sid : Uuid) → CommitsLast (refuse_expired b call u sid)
  unfolding refuse_expired
  refuse_expired-CommitsLast u sid = search auth_repository_rules depth 8

  rotate-CommitsLast : (u sid : Uuid) (x : UserSession) → CommitsLast (rotate b call u sid x)
  unfolding rotate
  rotate-CommitsLast u sid x =
      search (auth_repository_rules, get_by_id-KeepsCommitted, active_user-KeepsCommitted) depth 12

  check_session-CommitsLast :
      (token : String) (u sid : Uuid) (x : UserSession)
      → CommitsLast (check_session b call token u sid x)
  unfolding check_session
  check_session-CommitsLast token u sid x =
      search
        (transaction_rules, refuse_all-CommitsLast, refuse_expired-CommitsLast, rotate-CommitsLast)
        depth 8

  on_session-CommitsLast :
      (token : String) (payload : Payload) (u sid : Uuid) (found : Option UserSession)
      → CommitsLast (on_session b call token payload u sid found)
  unfolding on_session
  on_session-CommitsLast token payload u sid none = refuse_missing-CommitsLast payload u
  on_session-CommitsLast token payload u sid (some x) = check_session-CommitsLast token u sid x

  attempt-CommitsLast :
      (token : String) (payload : Payload) (u sid : Uuid)
      → CommitsLast (attempt b call token payload u sid)
  unfolding attempt
  attempt-CommitsLast token payload u sid =
      search (auth_repository_rules, on_session-CommitsLast) depth 8

finish-keeps : (o : Outcome) (w : World) → (finish o w).1 ≡ w
finish-keeps (issued t) w = refl
finish-keeps (raised_after_commit e) w = refl

-- The transaction leaves nothing uncommitted, and the rest of the call changes no state.
abbrev Settled : {A : Type 0} → Result A × World → Type 0
Settled (_, w) = w.db ≡ w.committed

finish-Settled :
    (c : World) (r : Result Outcome × World) → IsAtomic c.committed r → Settled (and_then r finish)
finish-Settled c (ok o, w) h = subst (λ (y : World). y.db ≡ y.committed) (sym (finish-keeps o w)) h
finish-Settled c (err e, w) (h, h') = h ∙ sym h'

module _ (b : Backend) (call : RefreshCall) (token : String) (w : World) where
  transaction-Settled :
      (payload : Payload) (u sid : Uuid)
      → Settled ((transaction (attempt b call token payload u sid) >>= finish) w)
  transaction-Settled payload u sid =
      finish-Settled w _ (transaction-IsAtomic _ w (attempt-CommitsLast b call token payload u sid))

  claims-Settled :
      (payload : Payload) (ru rs : Result Uuid)
      → w.db ≡ w.committed
      → Settled (
          (lift ru >>= λ u.
          lift rs >>= λ sid. transaction (attempt b call token payload u sid) >>= finish)
            w)
  claims-Settled payload (ok u) (ok sid) h = transaction-Settled payload u sid
  claims-Settled payload (ok u) (err e) h = h
  claims-Settled payload (err e) rs h = h

  payload-Settled :
      (r : Result Payload)
      → w.db ≡ w.committed
      → Settled (
          (lift r >>= λ payload.
          raise_if (not (is_refresh payload)) invalid_token
          >> (lift (uuid_claim payload.sub) >>= λ u. lift (uuid_claim payload.jti) >>= λ sid.
              transaction (attempt b call token payload u sid) >>= finish))
            w)
  payload-Settled (err e) h = h
  payload-Settled (ok payload) h = elim (Bool-cases (is_refresh payload)) [
    | inl yes_ ↦
        rw yes_ (claims-Settled payload (uuid_claim payload.sub) (uuid_claim payload.jti) h)
    | inr no_ ↦ rw no_ h
  ]

  -- Whatever the token is, and whatever the database and Redis do: a request that begins with nothing
  -- uncommitted ends so, with tokens or with an error.
  pub refresh_token-settles :
      w.db ≡ w.committed → let w' = (refresh_token b call token w).1 in w'.db ≡ w'.committed
  unfolding refresh_token
  refresh_token-settles h = payload-Settled (decode_token b.jwt call.decode_now token) h
