-- ===== src/Sql/Upsert.antt =====
-- `INSERT ... ON CONFLICT (...) DO UPDATE SET ... RETURNING id` on a table with a unique index: a parameter
-- beside `Sql`. `p` holds of the rows that conflict, and `f` is the assignment on conflict.
use base_backend.Prelude.{◌≡◌, ◌⊎◌, Bool, true, false, Option, none, some, nat_eq, update_at}
use base_backend.Errors.{ok, err, sqlalchemy_error}
use base_backend.Exec.{Exec}
use base_backend.Redis.{Uuid}
use base_backend.Sql.{Table}

-- The row `j` was in conflict and is updated, or no row was and `r` is inserted with the key `k`.
abbrev pub Upserted :
    {R : Type 0} → (Uuid → R → Bool) → Uuid → R → (R → R) → Table R → Uuid → Table R → Type 0
Upserted {R} p k r f t j t' =
    ((x : R) × (t j ≡ some x) × (p j x ≡ true) × (t' ≡ update_at j (some (f x)) t))
    ⊎ ((j ≡ k)
        × (t k ≡ none)
        × ((i : Uuid) (x : R) → t i ≡ some x → p i x ≡ false)
        × (t' ≡ update_at k (some r) t))

pub record Upsert (R : Type 0) : Type 0 where
  pub upsert : (Uuid → R → Bool) → Uuid → R → (R → R) → Table R → Option (Uuid × Table R)
  pub upsert_done :
      (p : Uuid → R → Bool) (k : Uuid) (r : R) (f : R → R) (t : Table R) {j : Uuid} {t' : Table R}
      → upsert p k r f t ≡ some (j, t')
      → Upserted p k r f t j t'

unfoldable pub upsert_row :
    {R : Type 0} → Upsert R → (Uuid → R → Bool) → Uuid → R → (R → R) → Exec (Table R) Uuid
upsert_row sql p k r f t = elim (sql.upsert p k r f t) [
  | none ↦ (err sqlalchemy_error, t)
  | some (j, t') ↦ (ok j, t')
]
