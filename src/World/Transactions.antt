-- ===== src/World/Transactions.antt =====
-- Transactions: rules that show of a body that it commits as its last step and nowhere else, and what
-- `transaction` makes of such a body.
use base_backend.Prelude.{
  ◌≡◌, refl, ◌∙◌, inl, inr, Bool, true, false, Bool-cases, arith, if◌then◌else◌,
}
use base_backend.Errors.{Error, Result, ok, err}
use base_backend.Exec.{Exec, pure, raise, raise_if, lift, and_then, handle, ◌>>=◌, ◌>>◌}
use base_backend.Exec.Inversion.{Returns, on-Returns}
use base_backend.Redis.{Keyspace}
use base_backend.Sql.{Table}
use base_backend.World.{
  UserModel, UserProfileModel, UserPreferencesModel, UserDeviceModel, UserSessionModel, Db, World,
  Backend, on_users, on_profiles, on_preferences, on_devices, on_sessions, on_redis, commit,
  rollback, transaction,
}

-- `m` commits nothing, whether it returns or raises.
pub record KeepsCommitted {A : Type 0} (m : Exec World A) : Type 0 where
  pub at : (w : World) → (m w).1.committed ≡ w.committed

-- A result leaves nothing uncommitted, and an error has committed nothing over `c`.
abbrev pub Settles : {A : Type 0} → Db → Result A × World → Type 0
Settles c (ok _, w) = w.db ≡ w.committed
Settles c (err _, w) = w.committed ≡ c

pub record CommitsLast {A : Type 0} (m : Exec World A) : Type 0 where
  pub at : (w : World) → Settles w.committed (m w)

module _ {A : Type 0} where
  pub pure-KeepsCommitted : (a : A) → KeepsCommitted (pure a)
  pure-KeepsCommitted a = record { at = λ w. refl }

  pub raise-KeepsCommitted : (e : Error) → KeepsCommitted (raise {A = A} e)
  raise-KeepsCommitted e = record { at = λ w. refl }

  pub lift-KeepsCommitted : (r : Result A) → KeepsCommitted (lift r)
  lift-KeepsCommitted r = record { at = λ w. refl }

  pub if-KeepsCommitted :
      (c : Bool) (m n : Exec World A)
      → KeepsCommitted m
      → KeepsCommitted n
      → KeepsCommitted (if c then m else n)
  if-KeepsCommitted true m n km kn = km
  if-KeepsCommitted false m n km kn = kn

  pub on_users-KeepsCommitted : (m : Exec (Table UserModel) A) → KeepsCommitted (on_users m)
  on_users-KeepsCommitted m = record { at = λ w. refl }

  pub on_preferences-KeepsCommitted :
      (m : Exec (Table UserPreferencesModel) A) → KeepsCommitted (on_preferences m)
  on_preferences-KeepsCommitted m = record { at = λ w. refl }

  pub on_profiles-KeepsCommitted :
      (m : Exec (Table UserProfileModel) A) → KeepsCommitted (on_profiles m)
  on_profiles-KeepsCommitted m = record { at = λ w. refl }

  pub on_devices-KeepsCommitted :
      (m : Exec (Table UserDeviceModel) A) → KeepsCommitted (on_devices m)
  on_devices-KeepsCommitted m = record { at = λ w. refl }

  pub on_sessions-KeepsCommitted :
      (m : Exec (Table UserSessionModel) A) → KeepsCommitted (on_sessions m)
  on_sessions-KeepsCommitted m = record { at = λ w. refl }

  pub on_redis-KeepsCommitted : (m : Exec Keyspace A) → KeepsCommitted (on_redis m)
  on_redis-KeepsCommitted m = record { at = λ w. refl }

  pub raise-CommitsLast : (e : Error) → CommitsLast (raise {A = A} e)
  raise-CommitsLast e = record { at = λ w. refl }

  pub if-CommitsLast :
      (c : Bool) (m n : Exec World A)
      → CommitsLast m
      → CommitsLast n
      → CommitsLast (if c then m else n)
  if-CommitsLast true m n km kn = km
  if-CommitsLast false m n km kn = kn

  pub commit-CommitsLast : (b : Backend) (a : A) → CommitsLast (commit b >> pure a)
  unfolding commit
  commit-CommitsLast b a = record {
    at = λ w. elim (Bool-cases (b.commits w.db)) [
      | inl done ↦ rw done refl
      | inr refused ↦ rw refused refl
    ];
  }

pub raise_if-KeepsCommitted : (c : Bool) (e : Error) → KeepsCommitted (raise_if c e)
raise_if-KeepsCommitted true e = record { at = λ w. refl }
raise_if-KeepsCommitted false e = record { at = λ w. refl }

pub commit_only-CommitsLast : (b : Backend) → CommitsLast (commit b)
unfolding commit
commit_only-CommitsLast b = record {
  at = λ w. elim (Bool-cases (b.commits w.db)) [
    | inl done ↦ rw done refl
    | inr refused ↦ rw refused refl
  ];
}

module _ {A B : Type 0} where
  keeps_bind :
      (r : Result A × World) (f : A → Exec World B)
      → ((a : A) → KeepsCommitted (f a))
      → (and_then r f).1.committed ≡ r.1.committed
  keeps_bind (ok a, w) f k = (k a).at w
  keeps_bind (err e, w) f k = refl

  pub bind-KeepsCommitted :
      (m : Exec World A) (f : A → Exec World B)
      → KeepsCommitted m
      → ((a : A) → KeepsCommitted (f a))
      → KeepsCommitted (m >>= f)
  bind-KeepsCommitted m f km kf = record { at = λ w. keeps_bind (m w) f kf ∙ km.at w }

  settles_bind :
      (c : Db) (r : Result A × World) (f : A → Exec World B)
      → r.1.committed ≡ c
      → ((a : A) → CommitsLast (f a))
      → Settles c (and_then r f)
  settles_bind c (ok a, w) f same k = rw (← same) ((k a).at w)
  settles_bind c (err e, w) f same k = same

  pub bind-CommitsLast :
      (m : Exec World A) (f : A → Exec World B)
      → KeepsCommitted m
      → ((a : A) → CommitsLast (f a))
      → CommitsLast (m >>= f)
  bind-CommitsLast m f km kf = record { at = λ w. settles_bind w.committed (m w) f (km.at w) kf }

pub ruleset transaction_rules = (
  pure-KeepsCommitted, raise-KeepsCommitted, lift-KeepsCommitted, if-KeepsCommitted,
  on_users-KeepsCommitted, on_preferences-KeepsCommitted, on_profiles-KeepsCommitted,
  on_devices-KeepsCommitted, on_sessions-KeepsCommitted, on_redis-KeepsCommitted,
  raise_if-KeepsCommitted, bind-KeepsCommitted, raise-CommitsLast, if-CommitsLast,
  commit-CommitsLast, commit_only-CommitsLast, bind-CommitsLast,
)

-- What a request leaves that began with `c` committed: after a result nothing is uncommitted, and
-- after an error the database is as it was.
abbrev pub IsAtomic : {A : Type 0} → Db → Result A × World → Type 0
IsAtomic c (ok _, w) = w.db ≡ w.committed
IsAtomic c (err _, w) = (w.db ≡ c) × (w.committed ≡ c)

module _ {A : Type 0} where
  pub transaction-IsAtomic :
      (m : Exec World A) (w : World) → CommitsLast m → IsAtomic w.committed (transaction m w)
  unfolding rollback
  transaction-IsAtomic m w k = go (m w) (k.at w)
    where
      go :
          (r : Result A × World)
          → Settles w.committed r
          → IsAtomic w.committed (handle (λ _. rollback) r)
      go (ok a, t) s = s
      go (err e, t) s = (s, s)

  -- A transaction that returns is its body.
  pub transaction-Returns :
      (m : Exec World A) (w : World) {a : A} {w' : World}
      → Returns (transaction m) w a w'
      → Returns m w a w'
  transaction-Returns m w h = ground arith

pub commit-Returns :
    (b : Backend) (w : World) {w' : World}
    → Returns (commit b) w tt w'
    → w' ≡ record w { committed = w.db }
unfolding commit
commit-Returns b w h = ground arith

pub on_redis-Returns :
    {A : Type 0} (m : Exec Keyspace A) (w : World) {a : A} {w' : World}
    → Returns (on_redis m) w a w'
    → (k : Keyspace) × Returns m w.redis a k × (w' ≡ record w { redis = k })
on_redis-Returns m w h =
    on-Returns (λ (x : World). x.redis) (λ k (x : World). record x { redis = k }) m w h
