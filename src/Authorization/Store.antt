-- ===== src/Authorization/Store.antt =====
-- app/common/authorization/redis_store.py: `RedisAccessStateStore`.
pub mod Writes
pub mod Versions
pub mod Index
use base_backend.Prelude.{
  ℕ, ◌-◌, ◌/◌, Bool, true, false, Option, none, some, List, [], ◌∷◌, ltb, ◌==◌, nat_eq,
  if◌then◌else◌,
}
use Prim.Native.Nat.{max}
use base_backend.Errors.{Result, ok, err, dependency_unavailable, invalid_dependency_state}
use base_backend.Exec.{Exec, ◌>>◌}
use base_backend.Redis.{
  Time, second, Uuid, Value, number, uuid, Key, user_version, user_sessions, session, Keyspace,
  Command, set_ex, delete, zadd, zrem, zremrangebyscore, eval, Redis,
}
use base_backend.Authorization.{CachedAccessState}

-- `_SET_VERSION_IF_GREATER`: `tonumber` of what is no number is nil, and the comparison raises.
abbrev pub set_version_if_greater : ℕ → Option Value → Option (Option Value)
set_version_if_greater version none = some (some (number version))
set_version_if_greater version (some (number current)) =
    if ltb current version then some (some (number version)) else some none
set_version_if_greater version (some _) = none

-- `int(raw_version) if raw_version is not None else None`
abbrev pub read_version : Option Value → Result (Option ℕ)
read_version none = ok none
read_version (some (number v)) = ok (some v)
read_version (some _) = err (invalid_dependency_state "redis")

-- `value == str(user_id)` on what the session key holds
abbrev pub read_session : Uuid → Option Value → Option Bool
read_session user_id none = none
read_session user_id (some (uuid u)) = some (u == user_id)
read_session user_id (some _) = some false

abbrev pub read_state : Uuid → List (Option Value) → Result CachedAccessState
read_state user_id (raw_version ∷ raw_session_user_id ∷ []) = elim (read_version raw_version) [
  | ok v ↦ ok (record {
    authorization_version = v;
    session_active = read_session user_id raw_session_user_id;
  })
  | err e ↦ err e
]
read_state user_id _ = err (invalid_dependency_state "redis")

-- `UUID(value)` for each member; a text that is no UUID is a `ValueError`.
abbrev pub session_keys : List Value → Option (List Key)
session_keys [] = some []
session_keys (uuid s ∷ vs) = elim (session_keys vs) [
  | none ↦ none
  | some ks ↦ some (session s ∷ ks)
]
session_keys (_ ∷ vs) = none

-- `max(1, int((session_expires_at - now).total_seconds()))`
abbrev pub ttl_seconds : Time → Time → ℕ
ttl_seconds session_expires_at now = max 1 ((session_expires_at - now) / second)

-- `if keys: pipe.delete(*keys)`, then `pipe.delete(sessions_key)`
abbrev pub delete_keys : List Key → Key → List Command
delete_keys [] sessions_key = delete (sessions_key ∷ []) ∷ []
delete_keys keys sessions_key = delete keys ∷ delete (sessions_key ∷ []) ∷ []

module _ (redis : Redis) (now : Time) where
  -- One call that writes, under `except RedisError`.
  unfoldable pub write : List Command → Exec Keyspace (Unit {0})
  write cs s =
      let (done, t) = redis.exec now cs s in
      (if done then ok tt else err (dependency_unavailable "redis"), t)

  unfoldable pub get : Uuid → Uuid → Exec Keyspace CachedAccessState
  get user_id session_id s =
      elim (redis.mget now (user_version user_id ∷ session session_id ∷ []) s) [
        | none ↦ (err (dependency_unavailable "redis"), s)
        | some values ↦ (read_state user_id values, s)
      ]

  unfoldable pub set_authorization_version_if_greater : Uuid → ℕ → Exec Keyspace (Unit {0})
  set_authorization_version_if_greater user_id version =
      write (eval (set_version_if_greater version) (user_version user_id) ∷ [])

  unfoldable pub set_authorization_version : Uuid → ℕ → Exec Keyspace (Unit {0})
  set_authorization_version user_id version = set_authorization_version_if_greater user_id version

  unfoldable pub cache : Uuid → ℕ → Uuid → Time → Exec Keyspace (Unit {0})
  cache user_id authorization_version session_id session_expires_at = do
    set_authorization_version_if_greater user_id authorization_version
    write (
        set_ex (session session_id) (uuid user_id) (ttl_seconds session_expires_at now)
        ∷ zremrangebyscore (user_sessions user_id) now
        ∷ zadd (user_sessions user_id) (uuid session_id) session_expires_at
        ∷ [])

  unfoldable pub revoke_session : Uuid → Uuid → Exec Keyspace (Unit {0})
  revoke_session user_id session_id =
      write (delete (session session_id ∷ []) ∷ zrem (user_sessions user_id) (uuid session_id) ∷ [])

  unfoldable pub revoke_all_sessions : Uuid → Exec Keyspace (Unit {0})
  revoke_all_sessions user_id s = elim (redis.zrange now (user_sessions user_id) s) [
    | none ↦ (err (dependency_unavailable "redis"), s)
    | some session_ids ↦ elim (session_keys session_ids) [
      | none ↦ (err (invalid_dependency_state "redis"), s)
      | some keys ↦ write (delete_keys keys (user_sessions user_id)) s
    ]
  ]

-- The calls of the store that change it, for statements about any sequence of them.
pub data StoreCall : Type 0 where
  set_version_call : Uuid → ℕ → StoreCall
  cache_call : Uuid → ℕ → Uuid → Time → StoreCall
  revoke_session_call : Uuid → Uuid → StoreCall
  revoke_all_call : Uuid → StoreCall

abbrev pub perform : Redis → Time → StoreCall → Exec Keyspace (Unit {0})
perform redis now (set_version_call u v) = set_authorization_version redis now u v
perform redis now (cache_call u v s exp) = cache redis now u v s exp
perform redis now (revoke_session_call u s) = revoke_session redis now u s
perform redis now (revoke_all_call u) = revoke_all_sessions redis now u
