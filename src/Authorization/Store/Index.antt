-- ===== src/Authorization/Store/Index.antt =====
-- The sorted set `auth:user:{id}:sessions` indexes the live session keys of a user. Every operation of
-- the store keeps that, and so `revoke_all_sessions` reaches every live session of its user.
use base_backend.Prelude.{
  ℕ, ◌+◌, ◌≤◌, ◌≡◌, ◌≢◌, false, Option, none, some, List, [], ◌∷◌, arith, contains, is_some,
}
use base_backend.Exec.Inversion.{Returns}
use base_backend.Redis.{
  Time, second, Uuid, Value, number, uuid, other, Key, user_sessions, session, value_eq, key_eq,
  Keyspace, Entry, live, string_at, delete, zrem, run, Redis,
}
use base_backend.Authorization.Store.{
  session_keys, delete_keys, StoreCall, set_version_call, cache_call, revoke_session_call,
  revoke_all_call, perform, revoke_all_sessions,
}
use base_backend.Authorization.Store.Writes.{
  version_commands, session_commands, set_authorization_version-Returns, cache-Returns,
  revoke_session-Returns, revoke_all_sessions-Returns,
}

-- A session key has an expiry, and the index has a score that is not before it.
abbrev Outlives : Option Entry → Option Time → Type 0
Outlives none score = ⊥
Outlives (some e) none = ⊥
Outlives (some e) (some score) = elim e.expires [ none ↦ ⊥ | some t ↦ t ≤ score ]

-- Every session key that is live at `now` and names a user stands in the index of that user, and not
-- with a score before the key goes.
pub record IsIndexed (now : Time) (s : Keyspace) : Type 0 where
  pub indexed :
      (sid u : Uuid)
      → string_at now s (session sid) ≡ some (uuid u)
      → Outlives (s.strings (session sid)) ((s.zsets (user_sessions u)).score (uuid sid))

pub later-live :
    (e : Option Entry) (now later : Time) (v : Value)
    → now ≤ later
    → live later e ≡ some v
    → live now e ≡ some v
later-live e now later v le h = ground arith

-- The invariant survives the passing of time.
pub later-IsIndexed :
    {now : Time} {s : Keyspace} (later : Time) → now ≤ later → IsIndexed now s → IsIndexed later s
later-IsIndexed {now} {s} later le i = record {
  indexed =
      λ sid u h. i.indexed sid u (later-live (s.strings (session sid)) now later (uuid u) le h);
}

module _ (now : Time) where
  run_version-IsIndexed :
      (w : Uuid) (v : ℕ) (s : Keyspace)
      → IsIndexed now s
      → IsIndexed now (run now (version_commands w v) s)
  unfolding run
  run_version-IsIndexed w v s i = record { indexed = λ sid u h. i.indexed sid u h }

  run_session-IsIndexed :
      (w n : Uuid) (exp : Time) (s : Keyspace)
      → now + second ≤ exp
      → IsIndexed now s
      → IsIndexed now (run now (session_commands now w n exp) s)
  unfolding run
  run_session-IsIndexed w n exp s le i = record {
    indexed = λ sid u h. ground (arith, i.indexed sid u);
  }

  run_revoke-IsIndexed :
      (w n : Uuid) (s : Keyspace)
      → IsIndexed now s
      → IsIndexed now (run now (delete (session n ∷ []) ∷ zrem (user_sessions w) (uuid n) ∷ []) s)
  unfolding run
  run_revoke-IsIndexed w n s i = record { indexed = λ sid u h. ground (arith, i.indexed sid u) }

-- The keys that `revoke_all_sessions` deletes are those of the sessions in the index.
session_keys-session :
    (sid : Uuid) (vs : List Value) (ks : List Key)
    → session_keys vs ≡ some ks
    → contains ks (session sid) ≡ contains vs (uuid sid)
session_keys-session sid [] ks h = ground arith
session_keys-session sid (number _ ∷ vs) ks h = cc
session_keys-session sid (other _ ∷ vs) ks h = cc
session_keys-session sid (uuid v ∷ vs) [] h = ground arith
session_keys-session sid (uuid v ∷ vs) (k ∷ ks) h = ground (arith, session_keys-session sid vs ks)

session_keys-index :
    (u : Uuid) (vs : List Value) (ks : List Key)
    → session_keys vs ≡ some ks
    → contains ks (user_sessions u) ≡ false
session_keys-index u [] ks h = ground arith
session_keys-index u (number _ ∷ vs) ks h = cc
session_keys-index u (other _ ∷ vs) ks h = cc
session_keys-index u (uuid v ∷ vs) [] h = ground arith
session_keys-index u (uuid v ∷ vs) (k ∷ ks) h = ground (arith, session_keys-index u vs ks)

module _ (now : Time) (w : Uuid) (vs : List Value) (s : Keyspace) where
  -- After the transaction of `revoke_all_sessions` no live session key names the user.
  run_delete-session :
      (ks : List Key)
      → session_keys vs ≡ some ks
      → ((v : Value) → contains vs v ≡ is_some ((s.zsets (user_sessions w)).score v))
      → IsIndexed now s
      → (sid : Uuid)
      → string_at now (run now (delete_keys ks (user_sessions w)) s) (session sid) ≢ some (uuid w)
  unfolding run
  run_delete-session [] keys members i sid h =
      ground (arith, i.indexed sid w, members (uuid sid), session_keys-session sid vs [] keys)
  run_delete-session (k ∷ ks) keys members i sid h =
      ground (arith, i.indexed sid w, members (uuid sid), session_keys-session sid vs (k ∷ ks) keys)

  run_delete-IsIndexed :
      (ks : List Key)
      → session_keys vs ≡ some ks
      → ((v : Value) → contains vs v ≡ is_some ((s.zsets (user_sessions w)).score v))
      → IsIndexed now s
      → IsIndexed now (run now (delete_keys ks (user_sessions w)) s)
  unfolding run
  run_delete-IsIndexed [] keys members i = record {
    indexed = λ sid u h.
        ground (arith, i.indexed sid u, members (uuid sid), session_keys-session sid vs [] keys);
  }
  run_delete-IsIndexed (k ∷ ks) keys members i = record {
    indexed = λ sid u h. ground (
      arith,
      i.indexed sid u,
      members (uuid sid),
      session_keys-session sid vs (k ∷ ks) keys,
      session_keys-index u vs (k ∷ ks) keys,
    );
  }

-- The clock of a `cache` call is at least a second before the expiry of the session.
abbrev pub IsTimely : Time → StoreCall → Type 0
IsTimely now (cache_call _ _ _ exp) = now + second ≤ exp
IsTimely now _ = Unit

module _ (redis : Redis) (now : Time) where
  -- Every call of the store that returns keeps the index: what it caches expires at least a second
  -- later.
  pub perform-IsIndexed :
      (c : StoreCall) (s : Keyspace) {t : Keyspace}
      → IsTimely now c
      → IsIndexed now s
      → Returns (perform redis now c) s tt t
      → IsIndexed now t
  perform-IsIndexed (set_version_call w v) s timely i r =
      rw ((set_authorization_version-Returns redis now w v s r).1)
        (run_version-IsIndexed now w v s i)
  perform-IsIndexed (cache_call w v sid exp) s timely i r =
      let (m, _, first, second) = cache-Returns redis now w v sid exp s r in
      let k : IsIndexed now m = rw first (run_version-IsIndexed now w v s i) in
      rw second (run_session-IsIndexed now w sid exp m timely k)
  perform-IsIndexed (revoke_session_call w sid) s timely i r =
      rw (revoke_session-Returns redis now w sid s r) (run_revoke-IsIndexed now w sid s i)
  perform-IsIndexed (revoke_all_call w) s timely i r =
      let (vs, ks, answer, keys, e) = revoke_all_sessions-Returns redis now w s r in
      rw e (
        run_delete-IsIndexed now w vs s ks keys
          (λ v. redis.zrange_done now (user_sessions w) s v answer) i)

  -- On an indexed store, when `revoke_all_sessions` of a user returns, no live session key names that
  -- user.
  pub revoke_all_sessions-revokes :
      (u : Uuid) (s : Keyspace) {t : Keyspace}
      → IsIndexed now s
      → Returns (revoke_all_sessions redis now u) s tt t
      → (sid : Uuid) → string_at now t (session sid) ≢ some (uuid u)
  revoke_all_sessions-revokes u s i r sid =
      let (vs, ks, answer, keys, e) = revoke_all_sessions-Returns redis now u s r in
      rw e (
        run_delete-session now u vs s ks keys
          (λ v. redis.zrange_done now (user_sessions u) s v answer) i sid)
