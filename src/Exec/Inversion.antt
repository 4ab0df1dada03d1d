-- ===== src/Exec/Inversion.antt =====
-- What a returned result says of the parts of an action.
use base_backend.Prelude.{◌⊎◌, inl, inr, ◌≡◌, refl, sym, ap, Bool, true, false}
use base_backend.Errors.{Error, Result, ok, err}
use base_backend.Exec.{Exec, pure, raise_if, and_then, ◌>>=◌, on}

module _ {ℓ κ μ} {S : Type ℓ} {A : Type κ} {B : Type μ} where
  and_then-ok :
      (r : Result A × S) (f : A → Exec S B) {b : B} {u : S}
      → and_then r f ≡ (ok b, u)
      → (a : A) × (t : S) × (r ≡ (ok a, t)) × (f a t ≡ (ok b, u))
  and_then-ok (ok a, t) f h = (a, t, refl, h)
  and_then-ok (err e, t) f h = cc

  -- A sequence that returns has a first part that returns, and goes on from where that left off.
  pub bind-ok :
      (m : Exec S A) (f : A → Exec S B) (s : S) {b : B} {u : S}
      → (m >>= f) s ≡ (ok b, u)
      → (a : A) × (t : S) × (m s ≡ (ok a, t)) × (f a t ≡ (ok b, u))
  bind-ok m f s h = and_then-ok (m s) f h

module _ {ℓ κ μ} {S : Type ℓ} {A : Type κ} {B : Type μ} where
  and_then-err :
      (r : Result A × S) (f : A → Exec S B) {e : Error} {u : S}
      → and_then r f ≡ (err e, u)
      → (r ≡ (err e, u)) ⊎ ((a : A) × (t : S) × (r ≡ (ok a, t)) × (f a t ≡ (err e, u)))
  and_then-err (ok a, t) f h = inr (a, t, refl, h)
  and_then-err (err x, t) f h = inl (λ i. (err (raised x (h i).0), (h i).1))
    where
      raised : Error → Result B → Error
      raised d (ok b) = d
      raised d (err y) = y

  -- A sequence that raises does so in its first part, or in the rest.
  pub bind-err :
      (m : Exec S A) (f : A → Exec S B) (s : S) {e : Error} {u : S}
      → (m >>= f) s ≡ (err e, u)
      → (m s ≡ (err e, u)) ⊎ ((a : A) × (t : S) × (m s ≡ (ok a, t)) × (f a t ≡ (err e, u)))
  bind-err m f s h = and_then-err (m s) f h

-- `m` returned `a` at `s` and left `t`.
abbrev pub Returns {ℓ κ} : {S : Type ℓ} {A : Type κ} → Exec S A → S → A → S → Type (ℓ ⊔ κ)
Returns m s a t = m s ≡ (ok a, t)

module _ {ℓ κ μ} {S : Type ℓ} {T : Type κ} {A : Type μ} (get : S → T) (put : T → S → S) where
  -- An action on a part that returns is one that returns on the part.
  pub on-Returns :
      (m : Exec T A) (s : S) {a : A} {t : S}
      → Returns (on get put m) s a t
      → (u : T) × (Returns m (get s) a u) × (t ≡ put u s)
  on-Returns m s h = ((m (get s)).1, λ i. ((h i).0, (m (get s)).1), sym (λ i. (h i).1))

module _ {ℓ κ} {S : Type ℓ} {A : Type κ} where
  abbrev result_or : A → Result A × S → A
  result_or d (ok a, s) = a
  result_or d (err e, s) = d

  pub pure-Returns : (a : A) (s : S) {b : A} {t : S} → Returns (pure a) s b t → (a ≡ b) × (t ≡ s)
  pure-Returns a s h = (ap (result_or a) h, sym (ap (λ p. p.1) h))

pub raise_if-Returns {ℓ} :
    {S : Type ℓ} (c : Bool) (e : Error) (s : S) {t : S}
    → Returns (raise_if c e) s tt t
    → (c ≡ false) × (t ≡ s)
raise_if-Returns true e s h = absurd (cc)
raise_if-Returns false e s h = (refl, sym (ap (λ p. p.1) h))
