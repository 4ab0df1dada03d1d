-- ===== src/World/Failures.antt =====
-- The database and Redis raise failures only: no statement and no call of the access state store raises
-- an error of a use case.
use base_backend.Prelude.{◌≡◌, inl, inr, Bool, false, some, List, arith, Bool-cases, Option-cases}
use base_backend.Errors.{Error, is_failure}
use base_backend.Exec.{Exec}
use base_backend.Exec.NeverRaises.{
  Raises, NeverRaises, pure-NeverRaises, if-NeverRaises, bind-NeverRaises, on-NeverRaises,
}
use base_backend.Redis.{Time, Uuid, Value, user_sessions, Keyspace, Command, Redis}
use base_backend.Sql.{Table, Sql, select_one, update_all, update_row, insert_row}
use base_backend.Authorization.Store
use base_backend.Authorization.Store.{session_keys, delete_keys}
use base_backend.World.{
  UserModel, UserProfileModel, UserDeviceModel, UserSessionModel, World, Backend, on_users,
  on_profiles, on_devices, on_redis, on_sessions, commit,
}

module _ {R : Type 0} (sql : Sql R) (e : Error) (own : is_failure e ≡ false) where
  pub select_one-NeverRaises : (k : Uuid) (p : R → Bool) → NeverRaises e (select_one sql k p)
  unfolding select_one
  select_one-NeverRaises k p = record {
    at = λ s u h. elim (Option-cases (sql.select k p s)) [ inl f ↦ ground arith | inr (r, f) ↦ cc ];
  }

  pub update_all-NeverRaises :
      (p : Uuid → R → Bool) (f : R → R) → NeverRaises e (update_all sql p f)
  unfolding update_all
  update_all-NeverRaises p g = record {
    at = λ s u h. elim (Option-cases (sql.update p g s)) [ inl f ↦ ground arith | inr (r, f) ↦ cc ];
  }

  pub update_row-NeverRaises : (k : Uuid) (f : R → R) → NeverRaises e (update_row sql k f)
  unfolding update_row
  update_row-NeverRaises k g = record {
    at = λ s u h. elim (Option-cases (sql.update_returning k g s)) [
      | inl f ↦ ground arith
      | inr (r, f) ↦ cc
    ];
  }

  pub insert_row-NeverRaises : (k : Uuid) (r : R) → NeverRaises e (insert_row sql k r)
  unfolding insert_row
  insert_row-NeverRaises k r = record {
    at = λ s u h. elim (Option-cases (sql.insert k r s)) [ inl f ↦ ground arith | inr (r, f) ↦ cc ];
  }

module _ (redis : Redis) (now : Time) (e : Error) (own : is_failure e ≡ false) where
  pub write-NeverRaises : (cs : List Command) → NeverRaises e (Store.write redis now cs)
  unfolding Store.write
  write-NeverRaises cs = record {
    at = λ s u h. elim (Bool-cases (redis.exec now cs s).0) [ inl f ↦ cc | inr f ↦ ground arith ];
  }

  on_keys-NeverRaises :
      (u : Uuid) (s t : Keyspace) (ids : List Value)
      → redis.zrange now (user_sessions u) s ≡ some ids
      → ¬ Raises (Store.revoke_all_sessions redis now u) s e t
  unfolding Store.revoke_all_sessions
  on_keys-NeverRaises u s t ids f h = elim (Option-cases (session_keys ids)) [
    | inl none_ ↦ ground arith
    | inr (keys, f') ↦
        (write-NeverRaises (delete_keys keys (user_sessions u))).at s t (ground (arith, h, f, f'))
  ]

  pub revoke_all_sessions-NeverRaises :
      (u : Uuid) → NeverRaises e (Store.revoke_all_sessions redis now u)
  unfolding Store.revoke_all_sessions
  revoke_all_sessions-NeverRaises u = record {
    at = λ s t h. elim (Option-cases (redis.zrange now (user_sessions u) s)) [
      | inl f ↦ ground arith
      | inr (ids, f) ↦ on_keys-NeverRaises u s t ids f h
    ];
  }

module _ (e : Error) {A : Type 0} where
  pub on_users-NeverRaises :
      (m : Exec (Table UserModel) A) → NeverRaises e m → NeverRaises e (on_users m)
  on_users-NeverRaises m k =
      on-NeverRaises e (λ (w : World). w.db.users)
        (λ t (w : World). record w { db = record (w.db) { users = t } }) m k

  pub on_profiles-NeverRaises :
      (m : Exec (Table UserProfileModel) A) → NeverRaises e m → NeverRaises e (on_profiles m)
  on_profiles-NeverRaises m k =
      on-NeverRaises e (λ (w : World). w.db.profiles)
        (λ t (w : World). record w { db = record (w.db) { profiles = t } }) m k

  pub on_devices-NeverRaises :
      (m : Exec (Table UserDeviceModel) A) → NeverRaises e m → NeverRaises e (on_devices m)
  on_devices-NeverRaises m k =
      on-NeverRaises e (λ (w : World). w.db.devices)
        (λ t (w : World). record w { db = record (w.db) { devices = t } }) m k

  pub on_sessions-NeverRaises :
      (m : Exec (Table UserSessionModel) A) → NeverRaises e m → NeverRaises e (on_sessions m)
  on_sessions-NeverRaises m k =
      on-NeverRaises e (λ (w : World). w.db.sessions)
        (λ t (w : World). record w { db = record (w.db) { sessions = t } }) m k

  pub on_redis-NeverRaises : (m : Exec Keyspace A) → NeverRaises e m → NeverRaises e (on_redis m)
  on_redis-NeverRaises m k =
      on-NeverRaises e (λ (w : World). w.redis) (λ t (w : World). record w { redis = t }) m k

pub commit-NeverRaises : (b : Backend) (e : Error) → is_failure e ≡ false → NeverRaises e (commit b)
unfolding commit
commit-NeverRaises b e own = record {
  at = λ s u h. elim (Bool-cases (b.commits s.db)) [ inl f ↦ cc | inr f ↦ ground arith ];
}

pub ruleset failure_rules = (
  pure-NeverRaises, if-NeverRaises, bind-NeverRaises, on_users-NeverRaises, on_profiles-NeverRaises,
  on_devices-NeverRaises, on_sessions-NeverRaises, on_redis-NeverRaises, select_one-NeverRaises,
  update_all-NeverRaises, update_row-NeverRaises, insert_row-NeverRaises,
  revoke_all_sessions-NeverRaises, commit-NeverRaises,
)
