-- ===== src/Ci/Results.antt =====
-- Code that may raise and keeps no state, as a chain of results, and what a returned result says of its
-- parts.
use base_backend.Prelude.{◌≡◌, refl, ap, ◌∙◌, Bool, true, false, Option, none, some, List, [], ◌∷◌}
use base_backend.Errors.{Error, Result, ok, err}
pub use base_backend.Errors.{ok-injective}

infixl 5 ◌>>=◌ ◌>>◌
abbrev pub ◌>>=◌ {ℓ κ} : {A : Type ℓ} {B : Type κ} → Result A → (A → Result B) → Result B
ok a >>= f = f a
err e >>= f = err e

abbrev pub ◌>>◌ {ℓ κ} : {A : Type ℓ} {B : Type κ} → Result A → Result B → Result B
r >> s = r >>= λ _. s

-- `if c: raise e`
abbrev pub raise_if : Bool → Error → Result (Unit {0})
raise_if true e = err e
raise_if false e = ok tt

-- A list comprehension, or a loop that appends.
abbrev pub map_results {ℓ κ} : {A : Type ℓ} {B : Type κ} → (A → Result B) → List A → Result (List B)
map_results f [] = ok []
map_results f (x ∷ xs) = f x >>= λ y. map_results f xs >>= λ ys. ok (y ∷ ys)

-- A list comprehension with a condition: `none` is left out.
abbrev pub cons_some {ℓ} : {A : Type ℓ} → Option A → List A → List A
cons_some none xs = xs
cons_some (some x) xs = x ∷ xs

abbrev pub collect {ℓ κ} :
    {A : Type ℓ} {B : Type κ} → (A → Result (Option B)) → List A → Result (List B)
collect f [] = ok []
collect f (x ∷ xs) = f x >>= λ y. collect f xs >>= λ ys. ok (cons_some y ys)

module _ {ℓ κ} {A : Type ℓ} {B : Type κ} where
  -- A chain that returns has a first part that returns.
  pub bind-ok :
      (r : Result A) (f : A → Result B) {b : B}
      → (r >>= f) ≡ ok b
      → (a : A) × (r ≡ ok a) × (f a ≡ ok b)
  bind-ok (ok a) f h = (a, refl, h)
  bind-ok (err e) f h = absurd (cc)

-- A chain returns if its parts do.
pub ok-bind {ℓ κ} :
    {A : Type ℓ} {B : Type κ} (r : Result A) (f : A → Result B) {a : A} {b : B}
    → r ≡ ok a
    → f a ≡ ok b
    → (r >>= f) ≡ ok b
ok-bind r f e h = ap (λ s. s >>= f) e ∙ h

pub ok-then {ℓ κ} :
    {A : Type ℓ} {B : Type κ} (r : Result A) {s : Result B} {a : A} {b : B}
    → r ≡ ok a
    → s ≡ ok b
    → (r >> s) ≡ ok b
ok-then r {s} e h = ap (λ x. x >> s) e ∙ h

pub raise_if-ok : {x : Unit {0}} (c : Bool) (e : Error) → raise_if c e ≡ ok x → c ≡ false
raise_if-ok true e h = absurd (cc)
raise_if-ok false e h = refl
