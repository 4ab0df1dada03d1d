-- ===== src/Users/Requests.antt =====
-- Requests that read first and then run one transaction.
use base_backend.Prelude.{
  ◌≡◌, inl, inr, refl, subst, sym, ◌∙◌, ap, Bool, true, false, Option, none, some, arith,
  Option-cases, nat_eq,
}
use base_backend.Errors.{Error, Result, ok, err}
use base_backend.Exec.{Exec, raise_if, or_raise, and_then, ◌>>=◌}
use base_backend.Redis.{Uuid}
use base_backend.Sql.{select_one}
use base_backend.World.{World, Backend, transaction}
use base_backend.World.Transactions.{KeepsCommitted, CommitsLast, IsAtomic, transaction-IsAtomic}
use base_backend.Users.Repository.{get_by_id}

-- A request that begins with nothing uncommitted.
pub record IsAtomicRequest {A : Type 0} (m : Exec World A) : Type 0 where
  pub at : (w : World) → w.db ≡ w.committed → IsAtomic w.committed (m w)

-- An action that writes nothing.
pub record IsReading {A : Type 0} (m : Exec World A) : Type 0 where
  pub at : (w : World) → (m w).1 ≡ w

pub or_raise-KeepsCommitted :
    {A : Type 0} (o : Option A) (e : Error) → KeepsCommitted (or_raise o e)
or_raise-KeepsCommitted none e = record { at = λ w. refl }
or_raise-KeepsCommitted (some a) e = record { at = λ w. refl }

pub or_raise-IsReading : {A : Type 0} (o : Option A) (e : Error) → IsReading (or_raise o e)
or_raise-IsReading none e = record { at = λ w. refl }
or_raise-IsReading (some a) e = record { at = λ w. refl }

pub raise_if-IsReading : (c : Bool) (e : Error) → IsReading (raise_if c e)
raise_if-IsReading true e = record { at = λ w. refl }
raise_if-IsReading false e = record { at = λ w. refl }

pub transaction-IsAtomicRequest :
    {A : Type 0} (m : Exec World A) → CommitsLast m → IsAtomicRequest (transaction m)
transaction-IsAtomicRequest m k = record { at = λ w h. transaction-IsAtomic m w k }

module _ {A B : Type 0} where
  reading_first :
      (r : Result A × World) (f : A → Exec World B) (w : World)
      → r.1 ≡ w
      → w.db ≡ w.committed
      → ((a : A) → IsAtomicRequest (f a))
      → IsAtomic w.committed (and_then r f)
  reading_first (ok a, t) f w same h kf =
      let h' = subst (λ (y : World). y.db ≡ y.committed) (sym same) h in
      subst (λ (y : World). IsAtomic y.committed (f a t)) same ((kf a).at t h')
  reading_first (err e, t) f w same h kf =
      (ap (λ (y : World). y.db) same ∙ h, ap (λ (y : World). y.committed) same)

  pub bind-IsAtomicRequest :
      (m : Exec World A) (f : A → Exec World B)
      → IsReading m
      → ((a : A) → IsAtomicRequest (f a))
      → IsAtomicRequest (m >>= f)
  bind-IsAtomicRequest m f km kf = record { at = λ w h. reading_first (m w) f w (km.at w) h kf }

module _ (b : Backend) where
  pub get_by_id-IsReading : (u : Uuid) → IsReading (get_by_id b u)
  unfolding get_by_id select_one
  get_by_id-IsReading u = record {
    at = λ w. elim (Option-cases (b.users.select u (λ _. true) w.db.users)) [
      | inl failed ↦ ground arith
      | inr (none, e) ↦ ground arith
      | inr (some m, e) ↦ elim (Option-cases (b.profiles.select u (λ _. true) w.db.profiles)) [
        | inl failed ↦ ground arith
        | inr (r, e') ↦ ground arith
      ]
    ];
  }
