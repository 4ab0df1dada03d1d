-- ===== src/Sql.antt =====
-- What the repositories (app/modules/*/infrastructure/sqlalchemy_repositories.py) use of SQLAlchemy
-- and PostgreSQL. The database is a parameter, `Sql`, one for each table: a statement may raise
-- `SQLAlchemyError` (`none`), which leaves the table as it was; one that is done has its documented
-- effect. A table is seen through its primary key; the conditions of a statement read the key and
-- the other columns of a row.
pub mod Effects
pub mod Upsert
use base_backend.Prelude.{
  ℕ, ◌<◌, ◌≡◌, Bool, true, false, Option, none, some, filter_option, map_option, nat_eq, update_at,
  if◌then◌else◌,
}
use base_backend.Errors.{ok, err, sqlalchemy_error}
use base_backend.Exec.{Exec}
use base_backend.Redis.{Uuid}

abbrev pub Table : Type 0 → Type 0
Table R = Uuid → Option R

-- `UPDATE ... SET f WHERE p`
abbrev pub update_rows : {R : Type 0} → (Uuid → R → Bool) → (R → R) → Table R → Table R
update_rows p f t k = map_option (λ r. if p k r then f r else r) (t k)

pub record Sql (R : Type 0) : Type 0 where
  -- `SELECT ... WHERE pk = k AND p`, `scalar_one_or_none`
  pub select : Uuid → (R → Bool) → Table R → Option (Option R)
  pub select_done :
      (k : Uuid) (p : R → Bool) (t : Table R) {r : Option R}
      → select k p t ≡ some r
      → r ≡ filter_option p (t k)
  -- `SELECT ... WHERE p`, `one_or_none`, with the key of the row
  pub select_where : (Uuid → R → Bool) → Table R → Option (Option (Uuid × R))
  pub select_where_row :
      (p : Uuid → R → Bool) (t : Table R) {k : Uuid} {r : R}
      → select_where p t ≡ some (some (k, r))
      → (t k ≡ some r) × (p k r ≡ true)
  pub select_where_none :
      (p : Uuid → R → Bool) (t : Table R) (k : Uuid) {r : R}
      → select_where p t ≡ some none
      → t k ≡ some r
      → p k r ≡ false
  -- `UPDATE ... SET f WHERE p`, with the row count
  pub update : (Uuid → R → Bool) → (R → R) → Table R → Option (ℕ × Table R)
  pub update_done :
      (p : Uuid → R → Bool) (f : R → R) (t : Table R) {n : ℕ} {t' : Table R}
      → update p f t ≡ some (n, t')
      → t' ≡ update_rows p f t
  pub update_some :
      (p : Uuid → R → Bool) (f : R → R) (t : Table R) {n : ℕ} {t' : Table R}
      → update p f t ≡ some (n, t')
      → 0 < n
      → (k : Uuid) × (r : R) × (t k ≡ some r) × (p k r ≡ true)
  pub update_none :
      (p : Uuid → R → Bool) (f : R → R) (t : Table R) {t' : Table R} (k : Uuid) {r : R}
      → update p f t ≡ some (0, t')
      → t k ≡ some r
      → p k r ≡ false
  -- `UPDATE ... SET f WHERE pk = k RETURNING *`, `scalar_one_or_none`
  pub update_returning : Uuid → (R → R) → Table R → Option (Option R × Table R)
  pub update_returning_done :
      (k : Uuid) (f : R → R) (t : Table R) {r : Option R} {t' : Table R}
      → update_returning k f t ≡ some (r, t')
      → (r ≡ map_option f (t k)) × (t' ≡ update_at k (map_option f (t k)) t)
  -- `INSERT`, which fails on a key that is there
  pub insert : Uuid → R → Table R → Option (Table R)
  pub insert_done :
      (k : Uuid) (r : R) (t : Table R) {t' : Table R}
      → insert k r t ≡ some t'
      → (t k ≡ none) × (t' ≡ update_at k (some r) t)

-- A statement as an action on its table.
module _ {R : Type 0} (sql : Sql R) where
  unfoldable pub select_one : Uuid → (R → Bool) → Exec (Table R) (Option R)
  select_one k p t = elim (sql.select k p t) [
    | none ↦ (err sqlalchemy_error, t)
    | some r ↦ (ok r, t)
  ]

  unfoldable pub select_first : (Uuid → R → Bool) → Exec (Table R) (Option (Uuid × R))
  select_first p t = elim (sql.select_where p t) [
    | none ↦ (err sqlalchemy_error, t)
    | some r ↦ (ok r, t)
  ]

  unfoldable pub update_all : (Uuid → R → Bool) → (R → R) → Exec (Table R) ℕ
  update_all p f t = elim (sql.update p f t) [
    | none ↦ (err sqlalchemy_error, t)
    | some (n, t') ↦ (ok n, t')
  ]

  unfoldable pub update_row : Uuid → (R → R) → Exec (Table R) (Option R)
  update_row k f t = elim (sql.update_returning k f t) [
    | none ↦ (err sqlalchemy_error, t)
    | some (r, t') ↦ (ok r, t')
  ]

  unfoldable pub insert_row : Uuid → R → Exec (Table R) (Unit {0})
  insert_row k r t = elim (sql.insert k r t) [
    | none ↦ (err sqlalchemy_error, t)
    | some t' ↦ (ok tt, t')
  ]
