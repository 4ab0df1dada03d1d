-- ===== src/Authorization/Store/Versions.antt =====
-- The cached authorization version of a user: no operation of the store lowers it, and a call that
-- sets it leaves at least the version that it was given.
use base_backend.Prelude.{ℕ, ◌≤◌, ◌≡◌, false, Option, none, some, List, [], ◌∷◌, arith, contains}
use base_backend.Exec.Inversion.{Returns}
use base_backend.Redis.{
  Time, Uuid, Value, number, uuid, other, Key, user_version, user_sessions, session, key_eq,
  Keyspace, Entry, delete, zrem, run, Redis,
}
use base_backend.Authorization.Store.{
  session_keys, delete_keys, set_authorization_version, StoreCall, set_version_call, cache_call,
  revoke_session_call, revoke_all_call, perform,
}
use base_backend.Authorization.Store.Writes.{
  version_commands, session_commands, set_authorization_version-Returns, cache-Returns,
  revoke_session-Returns, revoke_all_sessions-Returns,
}

-- What the version key of a user holds: a number of at least `n`, with no expiry.
abbrev pub VersionAtLeast : ℕ → Option Entry → Type 0
VersionAtLeast n none = ⊥
VersionAtLeast n (some e) = elim e.expires [
  | none ↦ elim e.value [ number m ↦ n ≤ m | _ ↦ ⊥ ]
  | some _ ↦ ⊥
]

-- The cache holds a version of `u`, and it is at least `n`.
abbrev pub HasVersion : Uuid → ℕ → Keyspace → Type 0
HasVersion u n s = VersionAtLeast n (s.strings (user_version u))

abbrev VersionOrNone : Option Entry → Type 0
VersionOrNone none = Unit
VersionOrNone (some e) = VersionAtLeast 0 (some e)

-- The version key of `u` is missing or holds a number with no expiry, as the store writes it.
abbrev pub IsVersionKey : Uuid → Keyspace → Type 0
IsVersionKey u s = VersionOrNone (s.strings (user_version u))

module _ (now : Time) (u : Uuid) (n : ℕ) where
  run_version-HasVersion :
      (w : Uuid) (v : ℕ) (s : Keyspace)
      → HasVersion u n s
      → HasVersion u n (run now (version_commands w v) s)
  unfolding run
  run_version-HasVersion w v s h = ground arith

  run_session-HasVersion :
      (w sid : Uuid) (exp : Time) (s : Keyspace)
      → HasVersion u n s
      → HasVersion u n (run now (session_commands now w sid exp) s)
  unfolding run
  run_session-HasVersion w sid exp s h = h

  run_revoke-HasVersion :
      (w sid : Uuid) (s : Keyspace)
      → HasVersion u n s
      → HasVersion u n
          (run now (delete (session sid ∷ []) ∷ zrem (user_sessions w) (uuid sid) ∷ []) s)
  unfolding run
  run_revoke-HasVersion w sid s h = h

  -- The keys that `revoke_all_sessions` deletes are no version keys.
  session_keys-contains :
      (vs : List Value) (ks : List Key)
      → session_keys vs ≡ some ks
      → contains ks (user_version u) ≡ false
  session_keys-contains [] ks h = ground arith
  session_keys-contains (number _ ∷ vs) ks h = cc
  session_keys-contains (other _ ∷ vs) ks h = cc
  session_keys-contains (uuid v ∷ vs) [] h = ground arith
  session_keys-contains (uuid v ∷ vs) (k ∷ ks) h = ground (arith, session_keys-contains vs ks)

  run_delete-HasVersion :
      (w : Uuid) (ks : List Key) (s : Keyspace)
      → contains ks (user_version u) ≡ false
      → HasVersion u n s
      → HasVersion u n (run now (delete_keys ks (user_sessions w)) s)
  unfolding run
  run_delete-HasVersion w [] s keep h = h
  run_delete-HasVersion w (k ∷ ks) s keep h = ground arith

  -- Whatever call of the store returns, a cached version of at least `n` stays at least `n`.
  pub perform-HasVersion :
      (redis : Redis) (c : StoreCall) (s : Keyspace) {t : Keyspace}
      → HasVersion u n s
      → Returns (perform redis now c) s tt t
      → HasVersion u n t
  perform-HasVersion redis (set_version_call w v) s h r =
      rw ((set_authorization_version-Returns redis now w v s r).1) (run_version-HasVersion w v s h)
  perform-HasVersion redis (cache_call w v sid exp) s h r =
      let (m, _, first, second) = cache-Returns redis now w v sid exp s r in
      let k : HasVersion u n m = rw first (run_version-HasVersion w v s h) in
      rw second (run_session-HasVersion w sid exp m k)
  perform-HasVersion redis (revoke_session_call w sid) s h r =
      rw (revoke_session-Returns redis now w sid s r) (run_revoke-HasVersion w sid s h)
  perform-HasVersion redis (revoke_all_call w) s h r =
      let (vs, ks, _, keys, e) = revoke_all_sessions-Returns redis now w s r in
      rw e (run_delete-HasVersion w ks s (session_keys-contains vs ks keys) h)

  run_version-sets :
      (s : Keyspace) → IsVersionKey u s → HasVersion u n (run now (version_commands u n) s)
  unfolding run
  run_version-sets s k = ground arith

  -- A call that sets the version and returns leaves at least that version.
  pub set_authorization_version-HasVersion :
      (redis : Redis) (s : Keyspace) {t : Keyspace}
      → IsVersionKey u s
      → Returns (set_authorization_version redis now u n) s tt t
      → HasVersion u n t
  set_authorization_version-HasVersion redis s k r =
      rw ((set_authorization_version-Returns redis now u n s r).1) (run_version-sets s k)
