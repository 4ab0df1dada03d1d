-- ===== src/Auth/LoginRequests/Pending.antt =====
-- The rest of app/modules/auth/infrastructure/redis_login_request_store.py: the creation and the deletion
-- of log-in requests, and the set of the pending requests of a user's device. What a pipeline
-- leaves that reports no success is not assumed.
pub mod Effects
use base_backend.Prelude.{
  ℕ, ◌+◌, ◌-◌, ◌*◌, ◌/◌, ◌≡◌, String, Bool, true, false, not, Option, none, some, List, [], ◌∷◌,
  ltb, ◌==◌, nat_eq, string_eq, update_at, contains, if◌then◌else◌,
}
use Prim.Native.Nat.{max}
use base_backend.Errors.{ok, err, redis_error}
use base_backend.Exec.{Exec, pure, on, ◌>>=◌, ◌>>◌}
use base_backend.Redis.{Time, second, Uuid}
use base_backend.Auth.LoginRequests.{
  LoginRequest, RequestEntry, Requests, LoginRedis, get_login_request,
}

-- A set of request ids, with the time at which it goes, if it has one.
pub record PendingSet : Type 0 where
  pub members : List String
  pub expires : Option Time

-- The keys of log-in requests, and the sets `login_request_pending:{user_id}:{user_device_id}`.
pub record LoginKeys : Type 0 where
  pub requests : Requests
  pub pending : Uuid → Uuid → Option PendingSet

abbrev pub is_live : Time → PendingSet → Bool
is_live now p = elim p.expires [ none ↦ true | some t ↦ ltb now t ]

-- `SMEMBERS`, up to the order
abbrev pub live_members : Time → Option PendingSet → List String
live_members now none = []
live_members now (some p) = if is_live now p then p.members else []

pub data LoginCommand : Type 0 where
  -- `SET login_request:{id} value EX seconds`
  set_request : String → LoginRequest → ℕ → LoginCommand
  -- `DEL login_request:{id} ...`
  delete_requests : List String → LoginCommand
  sadd : Uuid → Uuid → String → LoginCommand
  srem : Uuid → Uuid → String → LoginCommand
  expire : Uuid → Uuid → ℕ → LoginCommand
  delete_pending : Uuid → Uuid → LoginCommand

abbrev without : String → List String → List String
without id [] = []
without id (x ∷ xs) = let rest = without id xs in if x == id then rest else x ∷ rest

abbrev with_member : Time → String → Option PendingSet → PendingSet
with_member now id none = record { members = id ∷ []; expires = none }
with_member now id (some p) =
    if is_live now p
    then record p { members = id ∷ p.members }
    else record { members = id ∷ []; expires = none }

abbrev set_pending : Uuid → Uuid → (Option PendingSet → Option PendingSet) → LoginKeys → LoginKeys
set_pending u d f k = record k {
  pending = update_at u (update_at d (f (k.pending u d)) (k.pending u)) k.pending;
}

abbrev remove_member : String → Option PendingSet → Option PendingSet
remove_member id none = none
remove_member id (some p) = some (record p { members = without id p.members })

abbrev expiring : Time → ℕ → Option PendingSet → Option PendingSet
expiring now ttl none = none
expiring now ttl (some p) =
    if is_live now p then some (record p { expires = some (now + ttl * second) }) else none

unfoldable pub run_command : Time → LoginCommand → LoginKeys → LoginKeys
run_command now (set_request id r ttl) k = record k {
  requests = update_at id (some (record { request = r; expires = now + ttl * second })) k.requests;
}
run_command now (delete_requests ids) k = record k {
  requests = λ j. if contains ids j then none else k.requests j;
}
run_command now (sadd u d id) k = set_pending u d (λ p. some (with_member now id p)) k
run_command now (srem u d id) k = set_pending u d (remove_member id) k
run_command now (expire u d ttl) k = set_pending u d (expiring now ttl) k
run_command now (delete_pending u d) k = set_pending u d (λ _. none) k

unfoldable pub run : Time → List LoginCommand → LoginKeys → LoginKeys
unfolding run_command
run now [] k = k
run now (c ∷ cs) k = run now cs (run_command now c k)

-- Redis for the sets and the pipelines: a call may raise `RedisError` (`none`, `false`).
pub record LoginPipeline : Type 0 where
  pub smembers : Time → Uuid → Uuid → LoginKeys → Option (List String)
  pub smembers_done :
      (now : Time) (u d : Uuid) (k : LoginKeys) {ids : List String} (id : String)
      → smembers now u d k ≡ some ids
      → contains ids id ≡ contains (live_members now (k.pending u d)) id
  pub exec : Time → List LoginCommand → LoginKeys → Bool × LoginKeys
  pub exec_done :
      (now : Time) (cs : List LoginCommand) (k : LoginKeys)
      → (exec now cs k).0 ≡ true
      → (exec now cs k).1 ≡ run now cs k

abbrev pub on_requests : {A : Type 0} → Exec Requests A → Exec LoginKeys A
on_requests = on (λ k. k.requests) (λ r k. record k { requests = r })

-- `max(1, int((expires_at - datetime.now(UTC)).total_seconds()))`
abbrev pub request_ttl : Time → Time → ℕ
request_ttl expires_at now = max 1 ((expires_at - now) / second)

module _ (redis : LoginRedis) (pipe : LoginPipeline) (now : Time) where
  unfoldable pub exec_pipe : List LoginCommand → Exec LoginKeys (Unit {0})
  exec_pipe cs k =
      let (done, t) = pipe.exec now cs k in (if done then ok tt else err redis_error, t)

  unfoldable pub read_members : Uuid → Uuid → Exec LoginKeys (List String)
  read_members user_id user_device_id k = elim (pipe.smembers now user_id user_device_id k) [
    | none ↦ (err redis_error, k)
    | some ids ↦ (ok ids, k)
  ]

  -- `if request_ids: await self._redis.delete(*keys)`
  unfoldable pub delete_all : List String → Exec LoginKeys (Unit {0})
  delete_all [] = pure tt
  delete_all (id ∷ ids) = exec_pipe (delete_requests (id ∷ ids) ∷ [])

  unfoldable pub delete_pending_logins : Uuid → Uuid → Exec LoginKeys (Unit {0})
  delete_pending_logins user_id user_device_id = do
    request_ids ← read_members user_id user_device_id
    delete_all request_ids
    exec_pipe (delete_pending user_id user_device_id ∷ [])

  unfoldable pub create_login_request : String → LoginRequest → Exec LoginKeys (Unit {0})
  create_login_request request_id r = exec_pipe (
      set_request request_id r (request_ttl r.expires_at now)
      ∷ sadd r.user_id r.user_device_id request_id
      ∷ expire r.user_id r.user_device_id (request_ttl r.expires_at now)
      ∷ [])

  -- The end of `delete_login_request`, on the request that was there.
  unfoldable pub forget_pending : String → Option LoginRequest → Exec LoginKeys (Unit {0})
  forget_pending request_id none = pure tt
  forget_pending request_id (some r) = exec_pipe (srem r.user_id r.user_device_id request_id ∷ [])

  unfoldable pub delete_login_request : String → Exec LoginKeys (Unit {0})
  delete_login_request request_id = do
    login_request ← on_requests (get_login_request redis now request_id)
    exec_pipe (delete_requests (request_id ∷ []) ∷ [])
    forget_pending request_id login_request
