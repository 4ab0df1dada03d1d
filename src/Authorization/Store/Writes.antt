-- ===== src/Authorization/Store/Writes.antt =====
-- What each operation of the access state store leaves in Redis when it returns.
use base_backend.Prelude.{ℕ, ◌≡◌, inl, inr, true, Option, some, List, [], ◌∷◌, arith, Option-cases}
use base_backend.Errors.{ok}
use base_backend.Exec.Inversion.{bind-ok, Returns}
use base_backend.Redis.{
  Time, Uuid, Value, uuid, Key, user_version, user_sessions, session, Keyspace, Command, set_ex,
  delete, zadd, zrem, zremrangebyscore, eval, run, runs, Redis, string_at,
}
use base_backend.Authorization.{CachedAccessState}
use base_backend.Authorization.Store.{
  set_version_if_greater, read_version, read_session, read_state, session_keys, ttl_seconds,
  delete_keys, write, get, set_authorization_version_if_greater, set_authorization_version, cache,
  revoke_session, revoke_all_sessions,
}

-- The command of `set_authorization_version`, and the transaction of `cache`.
abbrev pub version_commands : Uuid → ℕ → List Command
version_commands u v = eval (set_version_if_greater v) (user_version u) ∷ []

abbrev pub session_commands : Time → Uuid → Uuid → Time → List Command
session_commands now u s exp =
    set_ex (session s) (uuid u) (ttl_seconds exp now)
    ∷ zremrangebyscore (user_sessions u) now
    ∷ zadd (user_sessions u) (uuid s) exp
    ∷ []

-- `get` answers only if the version is a number or missing.
read_state-ok :
    (u : Uuid) (rv rs : Option Value) {c : CachedAccessState}
    → read_state u (rv ∷ rs ∷ []) ≡ ok c
    → (read_version rv ≡ ok c.authorization_version) × (read_session u rs ≡ c.session_active)
read_state-ok u rv rs h = ground arith

module _ (redis : Redis) (now : Time) where
  pub write-Returns :
      (cs : List Command) (s : Keyspace) {t : Keyspace}
      → Returns (write redis now cs) s tt t
      → (runs now cs s ≡ true) × (t ≡ run now cs s)
  unfolding write
  write-Returns cs s h = ground (arith, redis.exec_done now cs s)

  pub set_version-Returns :
      (u : Uuid) (v : ℕ) (s : Keyspace) {t : Keyspace}
      → Returns (set_authorization_version_if_greater redis now u v) s tt t
      → (runs now (version_commands u v) s ≡ true) × (t ≡ run now (version_commands u v) s)
  unfolding set_authorization_version_if_greater
  set_version-Returns u v s h = write-Returns (version_commands u v) s h

  pub set_authorization_version-Returns :
      (u : Uuid) (v : ℕ) (s : Keyspace) {t : Keyspace}
      → Returns (set_authorization_version redis now u v) s tt t
      → (runs now (version_commands u v) s ≡ true) × (t ≡ run now (version_commands u v) s)
  unfolding set_authorization_version
  set_authorization_version-Returns u v s h = set_version-Returns u v s h

  pub cache-Returns :
      (u : Uuid) (v : ℕ) (sid : Uuid) (exp : Time) (s : Keyspace) {t : Keyspace}
      → Returns (cache redis now u v sid exp) s tt t
      → (m : Keyspace) × (runs now (version_commands u v) s ≡ true)
        × (m ≡ run now (version_commands u v) s)
        × (t ≡ run now (session_commands now u sid exp) m)
  unfolding cache
  cache-Returns u v sid exp s h =
      let (_, m, first, second) =
        bind-ok (set_authorization_version_if_greater redis now u v) (λ _. write redis now _) s h in
      let (done, e) = set_version-Returns u v s first in (m, done, e, (write-Returns _ m second).1)

  pub revoke_session-Returns :
      (u sid : Uuid) (s : Keyspace) {t : Keyspace}
      → Returns (revoke_session redis now u sid) s tt t
      → t ≡ run now (delete (session sid ∷ []) ∷ zrem (user_sessions u) (uuid sid) ∷ []) s
  unfolding revoke_session
  revoke_session-Returns u sid s h = (write-Returns _ s h).1

  pub revoke_all_sessions-Returns :
      (u : Uuid) (s : Keyspace) {t : Keyspace}
      → Returns (revoke_all_sessions redis now u) s tt t
      → (vs : List Value) × (ks : List Key) × (redis.zrange now (user_sessions u) s ≡ some vs)
        × (session_keys vs ≡ some ks)
        × (t ≡ run now (delete_keys ks (user_sessions u)) s)
  unfolding revoke_all_sessions
  revoke_all_sessions-Returns u s h = elim (Option-cases (redis.zrange now (user_sessions u) s)) [
    | inl failed ↦ ground arith
    | inr (vs, answer) ↦ elim (Option-cases (session_keys vs)) [
      | inl bad ↦ ground arith
      | inr (ks, keys) ↦ (
        vs,
        ks,
        answer,
        keys,
        (write-Returns (delete_keys ks (user_sessions u)) s (ground arith)).1,
      )
    ]
  ]

  -- A read changes nothing, and its answer is what the two keys hold.
  pub get-Returns :
      (u sid : Uuid) (s : Keyspace) {c : CachedAccessState} {t : Keyspace}
      → Returns (get redis now u sid) s c t
      → (t ≡ s)
        × (read_version (string_at now s (user_version u)) ≡ ok c.authorization_version)
        × (read_session u (string_at now s (session sid)) ≡ c.session_active)
  unfolding get
  get-Returns u sid s {c} {t} h =
      elim (Option-cases (redis.mget now (user_version u ∷ session sid ∷ []) s)) [
        | inl failed ↦ ground arith
        | inr (vs, answer) ↦
            let e = redis.mget_done now _ s answer in
            let r : (read_state u vs ≡ ok c) × (t ≡ s) = ground arith in
            let p = read_state-ok u _ _ (rw e at r.0) in (r.1, p.0, p.1)
      ]
