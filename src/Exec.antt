-- ===== src/Exec.antt =====
-- A coroutine of the program as a state-passing action: it may raise, and what it wrote before a
-- raise stays written. `except_raise` is the `try: ... except Exception: ...; raise` of the use
-- cases.
pub mod Inversion
pub mod NeverRaises
use base_backend.Prelude.{Bool, true, false, Option, none, some, ◌≡◌, refl}
use base_backend.Errors.{Error, Result, ok, err}

abbrev pub Exec {ℓ κ} : Type ℓ → Type κ → Type (ℓ ⊔ κ)
Exec S A = S → Result A × S

module _ {ℓ κ} {S : Type ℓ} {A : Type κ} where
  abbrev pub pure : A → Exec S A
  pure a s = (ok a, s)

  abbrev pub raise : Error → Exec S A
  raise e s = (err e, s)

  abbrev pub gets : (S → A) → Exec S A
  gets f s = (ok (f s), s)

  abbrev pub lift : Result A → Exec S A
  lift r s = (r, s)

  abbrev pub or_raise : Option A → Error → Exec S A
  or_raise none e s = (err e, s)
  or_raise (some a) e s = (ok a, s)

-- Go on from what a first part left, if it returned.
abbrev pub and_then {ℓ κ μ} :
    {S : Type ℓ} {A : Type κ} {B : Type μ} → Result A × S → (A → Exec S B) → Result B × S
and_then (ok a, t) f = f a t
and_then (err e, t) f = (err e, t)

infixl 5 ◌>>=◌ ◌>>◌
abbrev pub ◌>>=◌ {ℓ κ μ} :
    {S : Type ℓ} {A : Type κ} {B : Type μ} → Exec S A → (A → Exec S B) → Exec S B
◌>>=◌ m f s = and_then (m s) f

abbrev pub ◌>>◌ {ℓ κ μ} : {S : Type ℓ} {A : Type κ} {B : Type μ} → Exec S A → Exec S B → Exec S B
m >> k = m >>= λ _. k

abbrev pub raise_if {ℓ} : {S : Type ℓ} → Bool → Error → Exec S (Unit {0})
raise_if true e s = (err e, s)
raise_if false e s = (ok tt, s)

abbrev pub modify {ℓ} : {S : Type ℓ} → (S → S) → Exec S (Unit {0})
modify f s = (ok tt, f s)

-- The handler runs only after a raise, and the exception goes on.
abbrev pub handle {ℓ κ} :
    {S : Type ℓ} {A : Type κ} → (Error → Exec S (Unit {0})) → Result A × S → Result A × S
handle h (ok a, t) = (ok a, t)
handle h (err e, t) = (err e, (h e t).1)

abbrev pub except_raise {ℓ κ} :
    {S : Type ℓ} {A : Type κ} → Exec S A → (Error → Exec S (Unit {0})) → Exec S A
except_raise m h s = handle h (m s)

-- An action on a part of the state.
abbrev pub on {ℓ κ μ} :
    {S : Type ℓ} {T : Type κ} {A : Type μ} → (S → T) → (T → S → S) → Exec T A → Exec S A
on get put m s = let (r, t) = m (get s) in (r, put t s)
