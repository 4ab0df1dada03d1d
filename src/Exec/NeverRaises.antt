-- ===== src/Exec/NeverRaises.antt =====
-- Actions that never raise a given error, and rules that show it of an action from its parts.
use base_backend.Prelude.{◌≡◌, ◌≢◌, Bool, true, false, if◌then◌else◌}
use base_backend.Errors.{Error, Result, ok, err}
use base_backend.Exec.{Exec, pure, and_then, ◌>>=◌, on}

-- `m` ended with a raise of `e` at `s` and left `u`.
abbrev pub Raises {ℓ κ} : {S : Type ℓ} {A : Type κ} → Exec S A → S → Error → S → Type (ℓ ⊔ κ)
Raises m s e u = m s ≡ (err e, u)

pub record NeverRaises {S A : Type 0} (e : Error) (m : Exec S A) : Type 0 where
  pub at : (s u : S) → ¬ Raises m s e u

module _ {S A : Type 0} (e : Error) where
  pub pure-NeverRaises : (a : A) → NeverRaises e (pure {S = S} a)
  pure-NeverRaises a = record { at = λ s u h. cc }

  pub if-NeverRaises :
      (c : Bool) (m n : Exec S A)
      → NeverRaises e m
      → NeverRaises e n
      → NeverRaises e (if c then m else n)
  if-NeverRaises true m n km kn = km
  if-NeverRaises false m n km kn = kn

module _ {S A B : Type 0} (e : Error) where
  and_then-raises :
      (r : Result A × S) (f : A → Exec S B) (u : S)
      → ((v : S) → r ≢ (err e, v))
      → ((a : A) → NeverRaises e (f a))
      → ¬ (and_then r f ≡ (err e, u))
  and_then-raises (ok a, t) f u k kf h = (kf a).at t u h
  and_then-raises (err x, t) f u k kf h = k t (cc)

  pub bind-NeverRaises :
      (m : Exec S A) (f : A → Exec S B)
      → NeverRaises e m
      → ((a : A) → NeverRaises e (f a))
      → NeverRaises e (m >>= f)
  bind-NeverRaises m f km kf = record {
    at = λ s u h. and_then-raises (m s) f u (λ v. km.at s v) kf h;
  }

pub on-NeverRaises :
    {S T A : Type 0} (e : Error) (get : S → T) (put : T → S → S) (m : Exec T A)
    → NeverRaises e m
    → NeverRaises e (on get put m)
on-NeverRaises e get put m k = record {
  at = λ s u h. k.at (get s) _ (λ i. ((h i).0, (m (get s)).1));
}
