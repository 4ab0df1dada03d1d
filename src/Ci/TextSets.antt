-- ===== src/Ci/TextSets.antt =====
-- A `set` of texts, as the sorted list of its members; `sorted` of it is this list.
use Prim.Native.Nat.{Ordering}
use Prim.Native.String.{compare}
use text.Mathlib.Text.{starts_with}
use base_backend.Prelude.{
  ◌≡◌, ◌⊎◌, inl, inr, refl, sym, subst, Bool, true, false, ◌||◌, String, List, [], ◌∷◌, contains,
  ◌==◌, string_eq,
}

-- `members.add(s)`
abbrev pub add : String → List String → List String
add s [] = s ∷ []
add s (x ∷ xs) = elim (compare s x) [
  | Ordering.lt ↦ s ∷ x ∷ xs
  | Ordering.eq ↦ x ∷ xs
  | Ordering.gt ↦ x ∷ add s xs
]

abbrev pub set_of : List String → List String
set_of [] = []
set_of (s ∷ ss) = add s (set_of ss)

-- `any(s.startswith(prefix) for s in members)`
abbrev pub any_starts_with : String → List String → Bool
any_starts_with prefix [] = false
any_starts_with prefix (s ∷ ss) = starts_with s prefix || any_starts_with prefix ss

either_left : (a b : Bool) → a ≡ true → (a || b) ≡ true
either_left true b h = refl
either_left false b h = absurd (cc)

either_right : (a b : Bool) → b ≡ true → (a || b) ≡ true
either_right true b h = refl
either_right false b h = h

either : (a b : Bool) → (a || b) ≡ true → (a ≡ true) ⊎ (b ≡ true)
either true b h = inl refl
either false b h = inr h

same : (s : String) → (s == s) ≡ true
same s = (string_eq.equal_iff s s).1 refl

-- Where the new member goes.
insert : Ordering → String → String → List String → List String → List String
insert Ordering.lt s x xs rest = s ∷ x ∷ xs
insert Ordering.eq s x xs rest = x ∷ xs
insert Ordering.gt s x xs rest = x ∷ rest

contains-insert_self :
    (s x : String) (xs : List String) (o : Ordering)
    → compare s x ≡ o
    → contains (add s xs) s ≡ true
    → contains (insert o s x xs (add s xs)) s ≡ true
unfolding insert
contains-insert_self s x xs Ordering.lt h k = either_left (s == s) _ (same s)
contains-insert_self s x xs Ordering.eq h k = either_left (s == x) _ (rw h refl)
contains-insert_self s x xs Ordering.gt h k = either_right (s == x) _ k

contains-insert :
    (s x i : String) (xs : List String) (o : Ordering)
    → contains (x ∷ xs) i ≡ true
    → ((contains xs i ≡ true) → contains (add s xs) i ≡ true)
    → contains (insert o s x xs (add s xs)) i ≡ true
unfolding insert
contains-insert s x i xs Ordering.lt h k = either_right (i == s) _ h
contains-insert s x i xs Ordering.eq h k = h
contains-insert s x i xs Ordering.gt h k = elim (either (i == x) (contains xs i) h) [
  | inl first ↦ either_left (i == x) _ first
  | inr later ↦ either_right (i == x) _ (k later)
]

add-insert :
    (s x : String) (xs : List String) → add s (x ∷ xs) ≡ insert (compare s x) s x xs (add s xs)
unfolding insert
add-insert s x xs = by_order (compare s x)
  where
    by_order :
        (o : Ordering)
        → (elim o [ Ordering.lt ↦ s ∷ x ∷ xs | Ordering.eq ↦ x ∷ xs | Ordering.gt ↦ x ∷ add s xs ])
          ≡ insert o s x xs (add s xs)
    by_order Ordering.lt = refl
    by_order Ordering.eq = refl
    by_order Ordering.gt = refl

-- A member that was added is there, and so is what was there before.
pub contains-add_self : (s : String) (xs : List String) → contains (add s xs) s ≡ true
contains-add_self s [] = either_left (s == s) _ (same s)
contains-add_self s (x ∷ xs) =
    subst (λ l. contains l s ≡ true) (sym (add-insert s x xs))
      (contains-insert_self s x xs (compare s x) refl (contains-add_self s xs))

pub contains-add :
    (s i : String) (xs : List String) → contains xs i ≡ true → contains (add s xs) i ≡ true
contains-add s i [] h = absurd (cc)
contains-add s i (x ∷ xs) h =
    subst (λ l. contains l i ≡ true) (sym (add-insert s x xs))
      (contains-insert s x i xs (compare s x) h (contains-add s i xs))
