-- ===== src/Redis/Commands.antt =====
-- What every key holds, and the documented effect of each command. Keys are the f-strings of
-- app/common/authorization/redis_store.py, told apart by their prefix.
use base_backend.Prelude.{
  ℕ, ◌+◌, ◌*◌, ◌≡◌, ◌↔◌, Bool, true, false, ◌&&◌, Option, none, some, List, [], ◌∷◌, arith, ltb,
  Equality, ◌==◌, nat_eq, string_eq, update_at, contains, is_some, if◌then◌else◌,
}
use base_backend.Redis.Values.{Time, second, Uuid, Value, value_eq}
use base_backend.Redis.SortedSets.{SortedSet, empty_set, put, remove, drop_scores}

-- `_user_version_key`, `_user_sessions_key` and `_session_key`.
pub data Key : Type 0 where
  user_version : Uuid → Key
  user_sessions : Uuid → Key
  session : Uuid → Key

abbrev key_beq : Key → Key → Bool
key_beq (user_version a) (user_version b) = a == b
key_beq (user_sessions a) (user_sessions b) = a == b
key_beq (session a) (session b) = a == b
key_beq _ _ = false

pub key_beq_iff : (a b : Key) → (key_beq a b ≡ true) ↔ (a ≡ b)
key_beq_iff (user_version a) (user_version b) = (λ h. ground arith, λ h. ground arith)
key_beq_iff (user_sessions a) (user_sessions b) = (λ h. ground arith, λ h. ground arith)
key_beq_iff (session a) (session b) = (λ h. ground arith, λ h. ground arith)
key_beq_iff (user_version _) (user_sessions _) = (λ h. cc, λ h. cc)
key_beq_iff (user_version _) (session _) = (λ h. cc, λ h. cc)
key_beq_iff (user_sessions _) (user_version _) = (λ h. cc, λ h. cc)
key_beq_iff (user_sessions _) (session _) = (λ h. cc, λ h. cc)
key_beq_iff (session _) (user_version _) = (λ h. cc, λ h. cc)
key_beq_iff (session _) (user_sessions _) = (λ h. cc, λ h. cc)

instance abbrev pub key_eq : Equality Key
key_eq = record { equal = key_beq; equal_iff = key_beq_iff }

-- A string with the time at which it goes, if it has one.
pub record Entry : Type 0 where
  pub value : Value
  pub expires : Option Time

-- What every key holds: a string, and a sorted set.
pub record Keyspace : Type 0 where
  pub strings : Key → Option Entry
  pub zsets : Key → SortedSet

abbrev pub live : Time → Option Entry → Option Value
live now none = none
live now (some e) = elim e.expires [
  | none ↦ some e.value
  | some t ↦ if ltb now t then some e.value else none
]

-- `GET key`
abbrev pub string_at : Time → Keyspace → Key → Option Value
string_at now s k = live now (s.strings k)

pub data Command : Type 0 where
  -- `SET key value EX seconds`
  set_ex : Key → Value → ℕ → Command
  -- `DEL key ...`
  delete : List Key → Command
  zadd : Key → Value → Time → Command
  zrem : Key → Value → Command
  -- `ZREMRANGEBYSCORE key 0 max`
  zremrangebyscore : Key → Time → Command
  -- `EVAL` of a script that reads one key: it raises (`none`), writes nothing, or `SET`s the key
  eval : (Option Value → Option (Option Value)) → Key → Command

-- `SET` takes the expiry of a key away.
abbrev written : Option (Option Value) → Option Entry → Option Entry
written (some (some v)) old = some (record { value = v; expires = none })
written _ old = old

-- Whether a command goes through: all do but a script that raises.
abbrev runs_command : Time → Command → Keyspace → Bool
runs_command now (eval script k) s = is_some (script (string_at now s k))
runs_command now _ s = true

unfoldable pub run_command : Time → Command → Keyspace → Keyspace
run_command now (set_ex k v ttl) s = record {
  strings =
      update_at k (some (record { value = v; expires = some (now + ttl * second) })) s.strings;
  zsets = update_at k empty_set s.zsets;
}
run_command now (delete ks) s = record {
  strings = λ j. if contains ks j then none else s.strings j;
  zsets = λ j. if contains ks j then empty_set else s.zsets j;
}
run_command now (zadd k v t) s = record s { zsets = update_at k (put v t (s.zsets k)) s.zsets }
run_command now (zrem k v) s = record s { zsets = update_at k (remove v (s.zsets k)) s.zsets }
run_command now (zremrangebyscore k top) s = record s {
  zsets = update_at k (drop_scores top (s.zsets k)) s.zsets;
}
run_command now (eval script k) s = record s {
  strings = update_at k (written (script (string_at now s k)) (s.strings k)) s.strings;
}

unfoldable pub run : Time → List Command → Keyspace → Keyspace
unfolding run_command
run now [] s = s
run now (c ∷ cs) s = run now cs (run_command now c s)

unfoldable pub runs : Time → List Command → Keyspace → Bool
unfolding run_command
runs now [] s = true
runs now (c ∷ cs) s = runs_command now c s && runs now cs (run_command now c s)
