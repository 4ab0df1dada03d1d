-- ===== src/Tests/Database.antt =====
-- A database for the examples: tables that see the rows of a list of keys.
use base_backend.Prelude.{
  ℕ, ◌≡◌, ◌≢◌, refl, sym, ap, subst, inl, inr, Bool, true, Option, none, some, List, [], ◌∷◌, arith,
  Bool-cases, Option-cases, nat_eq, string_eq, filter_option, map_option, update_at, if◌then◌else◌,
}
use base_backend.Redis.{Uuid}
use base_backend.Sql.{Table, Sql, update_rows}

pub same_value {ℓ} : {A : Type ℓ} {x y : A} → some x ≡ some y → x ≡ y
same_value h = cc

-- A statement that finds no row of interest fails, which a database may do, and one that updates some
-- reports one row.
abbrev pub found_update :
    {R : Type 0} → Option (Uuid × R) → (Uuid → R → Bool) → (R → R) → Table R → Option (ℕ × Table R)
found_update none p f t = none
found_update (some _) p f t = some (1, update_rows p f t)

abbrev pub found_row : {R : Type 0} → Option (Uuid × R) → Option (Option (Uuid × R))
found_row none = none
found_row (some x) = some (some x)

abbrev pub insert_new : {R : Type 0} → Option R → Table R → Option (Table R)
insert_new none t = some t
insert_new (some _) t = none

-- A table whose rows of interest have the keys `ks`.
module _ {R : Type 0} where
  -- The first row of the keys that satisfies `p`.
  abbrev pub find_row : List Uuid → (Uuid → R → Bool) → Table R → Option (Uuid × R)
  find_row [] p t = none
  find_row (k ∷ ks) p t =
      let rest = find_row ks p t in
      elim (t k) [ none ↦ rest | some r ↦ if p k r then some (k, r) else rest ]

  pub find_row-found :
      (ks : List Uuid) (p : Uuid → R → Bool) (t : Table R) {k : Uuid} {r : R}
      → find_row ks p t ≡ some (k, r)
      → (t k ≡ some r) × (p k r ≡ true)
  find_row-found [] p t h = absurd (cc)
  find_row-found (j ∷ ks) p t h = elim (Option-cases (t j)) [
    | inl missing ↦ find_row-found ks p t (rw (missing, find_row) at h)
    | inr (m, here) ↦ elim (Bool-cases (p j m)) [
      | inr no_ ↦ find_row-found ks p t (rw (here, no_, find_row) at h)
      | inl yes_ ↦
          let e = same_value (rw (here, yes_, find_row) at h) in
          subst (λ (x : Uuid × R). (t (x.0) ≡ some (x.1)) × (p (x.0) (x.1) ≡ true)) e (here, yes_)
    ]
  ]

  pub found_row-some :
      (o : Option (Uuid × R)) {x : Uuid × R} → found_row o ≡ some (some x) → o ≡ some x
  found_row-some none h = absurd (cc)
  found_row-some (some y) h = same_value h

  pub found_row-none : (o : Option (Uuid × R)) → found_row o ≢ some none
  found_row-none none h = cc
  found_row-none (some y) h = cc

  pub found_update-some :
      (o : Option (Uuid × R)) (p : Uuid → R → Bool) (f : R → R) (t : Table R) {n : ℕ} {t' : Table R}
      → found_update o p f t ≡ some (n, t')
      → (n ≡ 1) × (t' ≡ update_rows p f t) × ((k : Uuid) × (r : R) × (o ≡ some (k, r)))
  found_update-some none p f t h = absurd (cc)
  found_update-some (some (k, r)) p f t h =
      let e = same_value h in
      (sym (ap (λ (x : ℕ × Table R). x.0) e), sym (ap (λ (x : ℕ × Table R). x.1) e), (k, r, refl))

  pub update_some :
      (ks : List Uuid) (p : Uuid → R → Bool) (f : R → R) (t : Table R) {n : ℕ} {t' : Table R}
      → found_update (find_row ks p t) p f t ≡ some (n, t')
      → (k : Uuid) × (r : R) × (t k ≡ some r) × (p k r ≡ true)
  update_some ks p f t h =
      let (k, r, e) = (found_update-some (find_row ks p t) p f t h).2 in
      let (here, yes_) = find_row-found ks p t e in (k, r, here, yes_)

  pub updates_one :
      (ks : List Uuid) (p : Uuid → R → Bool) (f : R → R) (t : Table R) {t' : Table R}
      → found_update (find_row ks p t) p f t ≢ some (0, t')
  updates_one ks p f t h = let e = (found_update-some (find_row ks p t) p f t h).0 in ground arith

  pub insert_new-some :
      (o : Option R) {t t' : Table R} → insert_new o t ≡ some t' → (o ≡ none) × (t' ≡ t)
  insert_new-some none h = (refl, sym (same_value h))
  insert_new-some (some r) h = absurd (cc)

  abbrev pub table : List Uuid → Sql R
  table ks = record {
    select = λ k p t. some (filter_option p (t k));
    select_done = λ k p t h. sym (same_value h);
    select_where = λ p t. found_row (find_row ks p t);
    select_where_row = λ p t h. find_row-found ks p t (found_row-some (find_row ks p t) h);
    select_where_none = λ p t k h here. absurd (found_row-none (find_row ks p t) h);
    update = λ p f t. found_update (find_row ks p t) p f t;
    update_done = λ p f t h. (found_update-some (find_row ks p t) p f t h).1;
    update_some = λ p f t h lt. update_some ks p f t h;
    update_none = λ p f t k h here. absurd (updates_one ks p f t h);
    update_returning = λ k f t. some (map_option f (t k), update_at k (map_option f (t k)) t);
    update_returning_done = λ k f t h.
        let e = same_value h in
        (
          sym (ap (λ (x : Option R × Table R). x.0) e),
          sym (ap (λ (x : Option R × Table R). x.1) e),
        );
    insert = λ k r t. insert_new (t k) (update_at k (some r) t);
    insert_done = λ k r t h. insert_new-some (t k) h;
  }
