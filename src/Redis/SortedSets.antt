-- ===== src/Redis/SortedSets.antt =====
-- Sorted sets of Redis, and the documented effect of the commands on one.
use base_backend.Prelude.{
  ◌≡◌, refl, ◌∙◌, inl, inr, not, Bool-cases, Bool, ◌&&◌, Option, none, some, List, [], ◌∷◌, ap,
  arith, leb, ◌==◌, nat_eq, string_eq, update_at, contains, is_some, if◌then◌else◌,
}
use base_backend.Redis.Values.{Time, Value, value_beq_iff, value_eq}

abbrev pub drop_below : Time → Option Time → Option Time
drop_below top none = none
drop_below top (some t) = if leb t top then none else some t

-- A sorted set: the score of each member, and its members as a list.
pub record SortedSet : Type 0 where
  pub score : Value → Option Time
  pub members : List Value
  pub listed : (v : Value) → contains members v ≡ is_some (score v)

abbrev pub keep : (Value → Bool) → List Value → List Value
keep p [] = []
keep p (v ∷ vs) = let rest = keep p vs in if p v then v ∷ rest else rest

contains-keep :
    (p : Value → Bool) (vs : List Value) (v : Value)
    → contains (keep p vs) v ≡ (contains vs v && p v)
contains-keep p [] v = refl
contains-keep p (x ∷ vs) v = elim (Bool-cases (v == x)) [
  | inl same ↦
      let e : v ≡ x = (value_beq_iff v x).0 same in
      elim (Bool-cases (p x)) [
        | inl yes_ ↦ ground (arith, ap p e, contains-keep p vs v)
        | inr no_ ↦ ground (arith, ap p e, contains-keep p vs v)
      ]
  | inr other_ ↦ elim (Bool-cases (p x)) [
    | inl yes_ ↦ ground (arith, contains-keep p vs v)
    | inr no_ ↦ ground (arith, contains-keep p vs v)
  ]
]

abbrev pub empty_set : SortedSet
empty_set = record { score = λ _. none; members = []; listed = λ v. refl }

pub put-listed :
    (z : SortedSet) (m : Value) (t : Time) (v : Value)
    → contains (m ∷ z.members) v ≡ is_some (update_at m (some t) z.score v)
put-listed z m t v = elim (Bool-cases (v == m)) [
  | inl same ↦ rw same refl
  | inr other_ ↦ rw other_ (z.listed v)
]

abbrev pub put : Value → Time → SortedSet → SortedSet
put m t z = record {
  score = update_at m (some t) z.score;
  members = m ∷ z.members;
  listed = put-listed z m t;
}

pub remove-listed :
    (z : SortedSet) (m v : Value)
    → contains (keep (λ x. not (x == m)) z.members) v ≡ is_some (update_at m none z.score v)
remove-listed z m v = elim (Bool-cases (v == m)) [
  | inl same ↦ ground (arith, contains-keep (λ x. not (x == m)) z.members v, z.listed v)
  | inr other_ ↦ ground (arith, contains-keep (λ x. not (x == m)) z.members v, z.listed v)
]

abbrev pub remove : Value → SortedSet → SortedSet
remove m z = record {
  score = update_at m none z.score;
  members = keep (λ x. not (x == m)) z.members;
  listed = remove-listed z m;
}

pub drop-listed :
    (z : SortedSet) (top : Time) (v : Value)
    → contains (keep (λ x. is_some (drop_below top (z.score x))) z.members) v
      ≡ is_some (drop_below top (z.score v))
drop-listed z top v =
    contains-keep (λ x. is_some (drop_below top (z.score x))) z.members v
    ∙ both (z.score v) (z.listed v)
  where
    both :
        (o : Option Time) {c : Bool}
        → c ≡ is_some o
        → (c && is_some (drop_below top o)) ≡ is_some (drop_below top o)
    both none h = rw h refl
    both (some t) h = rw h refl

abbrev pub drop_scores : Time → SortedSet → SortedSet
drop_scores top z = record {
  score = λ v. drop_below top (z.score v);
  members = keep (λ x. is_some (drop_below top (z.score x))) z.members;
  listed = drop-listed z top;
}
