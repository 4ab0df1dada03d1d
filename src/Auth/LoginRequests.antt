-- ===== src/Auth/LoginRequests.antt =====
-- app/modules/auth/infrastructure/redis_login_request_store.py: the reads and the patches of a log-in
-- request, and in Pending its creation and deletion. The keys of log-in requests are apart from those of
-- the access state, and so is their view here. A stored JSON document is the `LoginRequest` that it
-- decodes to; `json.loads` after `json.dumps` is the identity.
pub mod Patches
pub mod Pending
use base_backend.Prelude.{
  ℕ, ◌+◌, ◌*◌, ◌≡◌, String, Bool, true, Option, none, some, ltb, string_eq, update_at,
  if◌then◌else◌,
}
use Prim.Native.Nat.{max}
use base_backend.Errors.{ok, err, redis_error}
use base_backend.Exec.{Exec, pure, ◌>>=◌}
use base_backend.Redis.{Time, second, Uuid}

-- `LoginRequest` of app/modules/auth/domain/entities.py, without the id, which is its key.
pub record LoginRequest : Type 0 where
  pub user_id : Uuid
  pub user_device_id : Uuid
  pub otp_hash : String
  pub attempts_left : ℕ
  pub expires_at : Time
  pub consumed_at : Option Time

pub record RequestEntry : Type 0 where
  pub request : LoginRequest
  pub expires : Time

abbrev pub Requests : Type 0
Requests = String → Option RequestEntry

-- `GET login_request:{id}`
abbrev pub live_request : Time → Option RequestEntry → Option LoginRequest
live_request now none = none
live_request now (some e) = if ltb now e.expires then some e.request else none

-- Redis for log-in requests: a call may raise `RedisError` (`none`, `false`).
pub record LoginRedis : Type 0 where
  pub get : Time → String → Requests → Option (Option LoginRequest)
  pub get_done :
      (now : Time) (id : String) (s : Requests) {r : Option LoginRequest}
      → get now id s ≡ some r
      → r ≡ live_request now (s id)
  -- `TTL`, in seconds; its negative answers count as 0, which `max(1, ttl)` takes for the same
  pub ttl : Time → String → Requests → Option ℕ
  -- `SET key value EX seconds`
  pub set_ex : Time → String → LoginRequest → ℕ → Requests → Bool × Requests
  pub set_ex_done :
      (now : Time) (id : String) (r : LoginRequest) (seconds : ℕ) (s : Requests)
      → (set_ex now id r seconds s).0 ≡ true
      → (set_ex now id r seconds s).1
        ≡ update_at id (some (record { request = r; expires = now + seconds * second })) s

module _ (redis : LoginRedis) (now : Time) where
  unfoldable pub get_login_request : String → Exec Requests (Option LoginRequest)
  get_login_request request_id s = elim (redis.get now request_id s) [
    | none ↦ (err redis_error, s)
    | some r ↦ (ok r, s)
  ]

  unfoldable pub read_ttl : String → Exec Requests ℕ
  read_ttl request_id s = elim (redis.ttl now request_id s) [
    | none ↦ (err redis_error, s)
    | some n ↦ (ok n, s)
  ]

  unfoldable pub write_request : String → LoginRequest → ℕ → Exec Requests (Unit {0})
  write_request request_id r seconds s =
      let (done, t) = redis.set_ex now request_id r seconds s in
      (if done then ok tt else err redis_error, t)

  -- The end of `_patch_request`, on what `GET` answered.
  unfoldable pub patch_found :
      String → (LoginRequest → LoginRequest) → Option LoginRequest → Exec Requests (Unit {0})
  patch_found request_id values none = pure tt
  patch_found request_id values (some data_) = do
    ttl ← read_ttl request_id
    write_request request_id (values data_) (max 1 ttl)

  unfoldable pub patch_request : String → (LoginRequest → LoginRequest) → Exec Requests (Unit {0})
  patch_request request_id values = do
    raw ← get_login_request request_id
    patch_found request_id values raw

abbrev pub consumed : Time → LoginRequest → LoginRequest
consumed at r = record r { consumed_at = some at }

abbrev pub with_attempts : ℕ → LoginRequest → LoginRequest
with_attempts n r = record r { attempts_left = n }

module _ (redis : LoginRedis) (now : Time) where
  unfoldable pub mark_login_consumed : String → Time → Exec Requests (Unit {0})
  mark_login_consumed request_id consumed_at =
      patch_request redis now request_id (consumed consumed_at)

  unfoldable pub update_login_attempts : String → ℕ → Exec Requests (Unit {0})
  update_login_attempts request_id attempts_left =
      patch_request redis now request_id (with_attempts attempts_left)
