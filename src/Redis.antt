-- ===== src/Redis.antt =====
-- What the stores (app/common/authorization/redis_store.py and
-- app/modules/auth/infrastructure/redis_login_request_store.py) use of Redis. The server and its
-- client library are a parameter, `Redis`: any call may raise `RedisError`; a transaction that
-- reports success has had the documented effect of its commands, and a read that reports success
-- returns the documented answer. What a failed transaction has left in the server is not assumed.
pub mod Values
pub mod SortedSets
pub mod Commands
pub mod Server
pub use Values.{Time, second, Uuid, Value, number, uuid, other, value_eq}
pub use SortedSets.{SortedSet, empty_set}
pub use Commands.{
  Key, user_version, user_sessions, session, key_eq, Entry, Keyspace, live, string_at, Command,
  set_ex, delete, zadd, zrem, zremrangebyscore, eval,
}
unfoldable pub use Commands.{run, runs}
use base_backend.Prelude.{Bool, true, ◌≡◌, Option, some, none, List, map, is_some, contains}

pub record Redis : Type 0 where
  -- `pipeline(transaction=True)` with its commands, a single write command, or `eval`
  pub exec : Time → List Command → Keyspace → Bool × Keyspace
  pub exec_done :
      (now : Time) (cs : List Command) (s : Keyspace)
      → (exec now cs s).0 ≡ true
      → (runs now cs s ≡ true) × ((exec now cs s).1 ≡ run now cs s)
  -- `mget`, `get`
  pub mget : Time → List Key → Keyspace → Option (List (Option Value))
  pub mget_done :
      (now : Time) (ks : List Key) (s : Keyspace) {vs : List (Option Value)}
      → mget now ks s ≡ some vs
      → vs ≡ map (string_at now s) ks
  -- `zrange key 0 -1`: the members, in an order that the program does not use
  pub zrange : Time → Key → Keyspace → Option (List Value)
  pub zrange_done :
      (now : Time) (k : Key) (s : Keyspace) {vs : List Value} (v : Value)
      → zrange now k s ≡ some vs
      → contains vs v ≡ is_some ((s.zsets k).score v)
