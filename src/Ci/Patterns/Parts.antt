-- ===== src/Ci/Patterns/Parts.antt =====
-- The parts of a match make up the text that was matched.
use base_backend.Prelude.{
  ℕ, ◌≡◌, refl, sym, ap, inl, inr, ◌∙◌, Bool, true, none, some, String, ◌==◌, nat_eq, Bool-cases,
}
use Prim.Native.Char.{code}
use Prim.Native.String.append
use text.Mathlib.TextEquality.{Char-path}
use Prim.Native.String.{String as Text, ◌++◌ as ◌<>◌}
use base_backend.Ci.Patterns.{
  span, cons_first, drop_prefix, is_digest, is_hash, is_run, is_hex_digit,
}

pub span-append : (p : ℕ → Bool) (s : String) → ((span p s).0 <> (span p s).1) ≡ s
span-append p Text.[] = append.nil ""
span-append p (Text.◌∷◌ c s) = elim (Bool-cases (p (code c))) [
  | inl yes_ ↦
      let e : span p (Text.◌∷◌ c s) ≡ cons_first c (span p s) = rw (yes_, span) refl in
      ap (λ (r : String × String). r.0 <> r.1) e
      ∙ append.cons c (span p s).0 (span p s).1
      ∙ ap (λ v. Text.◌∷◌ c v) (span-append p s)
  | inr no_ ↦
      let e : span p (Text.◌∷◌ c s) ≡ ("", Text.◌∷◌ c s) = rw (no_, span) refl in
      ap (λ (r : String × String). r.0 <> r.1) e ∙ append.nil (Text.◌∷◌ c s)
]

same_text : {s r : String} → some s ≡ some r → s ≡ r
same_text h = cc

pub drop_prefix-some : (p s : String) {r : String} → drop_prefix p s ≡ some r → s ≡ (p <> r)
drop_prefix-some Text.[] s {r} h = same_text h ∙ sym (append.nil r)
drop_prefix-some (Text.◌∷◌ a p) Text.[] h = absurd (cc)
drop_prefix-some (Text.◌∷◌ a p) (Text.◌∷◌ c s) {r} h = elim (Bool-cases (code a == code c)) [
  | inl same ↦
      let rest : drop_prefix p s ≡ some r = rw (same, drop_prefix) at h in
      let first = Char-path a c ((nat_eq.equal_iff (code a) (code c)).0 same) in
      ap (λ v. Text.◌∷◌ c v) (drop_prefix-some p s rest)
      ∙ ap (λ b. Text.◌∷◌ b (p <> r)) (sym first)
      ∙ sym (append.cons a p r)
  | inr other ↦ let none_left : none ≡ some r = rw (other, drop_prefix) at h in absurd (cc)
]

pub drop_prefix-append : (p s : String) → drop_prefix p (p <> s) ≡ some s
drop_prefix-append Text.[] s = ap (drop_prefix "") (append.nil s)
drop_prefix-append (Text.◌∷◌ a p) s =
    let same : (code a == code a) ≡ true = (nat_eq.equal_iff (code a) (code a)).1 refl in
    let step : drop_prefix (Text.◌∷◌ a p) (Text.◌∷◌ a (p <> s)) ≡ drop_prefix p (p <> s) =
      rw (same, drop_prefix) refl in
    ap (drop_prefix (Text.◌∷◌ a p)) (append.cons a p s) ∙ step ∙ drop_prefix-append p s

-- `"sha256:"` and the hexadecimal digits of a hash are a digest.
pub is_digest-append :
    (h : String) → is_run is_hex_digit 64 h ≡ true → is_digest ("sha256:" <> h) ≡ true
unfolding is_digest
is_digest-append h is_hex = ap is_hash (drop_prefix-append "sha256:" h) ∙ is_hex
