-- ===== src/Sql/Effects.antt =====
-- What a statement leaves in its table when it returns.
use base_backend.Prelude.{
  ℕ, ◌≡◌, inl, inr, Bool, Option, none, some, arith, Option-cases, filter_option, map_option,
  nat_eq, update_at,
}
use base_backend.Exec.Inversion.{Returns}
use base_backend.Redis.{Uuid}
use base_backend.Sql.{
  Table, Sql, update_rows, select_one, select_first, update_all, update_row, insert_row,
}

module _ {R : Type 0} (sql : Sql R) (t : Table R) where
  pub select_one-Returns :
      (k : Uuid) (p : R → Bool) {r : Option R} {t' : Table R}
      → Returns (select_one sql k p) t r t'
      → (t' ≡ t) × (r ≡ filter_option p (t k))
  unfolding select_one
  select_one-Returns k p h = elim (Option-cases (sql.select k p t)) [
    | inl failed ↦ ground arith
    | inr (r, e) ↦ ground (arith, sql.select_done k p t e)
  ]

  pub update_all-Returns :
      (p : Uuid → R → Bool) (f : R → R) {n : ℕ} {t' : Table R}
      → Returns (update_all sql p f) t n t'
      → (t' ≡ update_rows p f t) × (sql.update p f t ≡ some (n, t'))
  unfolding update_all
  update_all-Returns p f h = elim (Option-cases (sql.update p f t)) [
    | inl failed ↦ ground arith
    | inr ((n, t'), e) ↦ ground (arith, sql.update_done p f t e)
  ]

  pub update_row-Returns :
      (k : Uuid) (f : R → R) {r : Option R} {t' : Table R}
      → Returns (update_row sql k f) t r t'
      → (r ≡ map_option f (t k)) × (t' ≡ update_at k (map_option f (t k)) t)
  unfolding update_row
  update_row-Returns k f h = elim (Option-cases (sql.update_returning k f t)) [
    | inl failed ↦ ground arith
    | inr ((n, t'), e) ↦ ground (arith, sql.update_returning_done k f t e)
  ]

  pub insert_row-Returns :
      (k : Uuid) (r : R) {t' : Table R}
      → Returns (insert_row sql k r) t tt t'
      → (t k ≡ none) × (t' ≡ update_at k (some r) t)
  unfolding insert_row
  insert_row-Returns k r h = elim (Option-cases (sql.insert k r t)) [
    | inl failed ↦ ground arith
    | inr (t', e) ↦ ground (arith, sql.insert_done k r t e)
  ]

  pub select_first-Returns :
      (p : Uuid → R → Bool) {r : Option (Uuid × R)} {t' : Table R}
      → Returns (select_first sql p) t r t'
      → (t' ≡ t) × (sql.select_where p t ≡ some r)
  unfolding select_first
  select_first-Returns p h = ground arith
