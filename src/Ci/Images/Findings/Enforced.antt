-- ===== src/Ci/Images/Findings/Enforced.antt =====
-- What `enforce_findings` lets pass.
use base_backend.Prelude.{
  ◌≡◌, ◌⊎◌, refl, sym, ap, subst, inl, inr, ◌∙◌, Bool, true, false, String, List, [], ◌∷◌, ◌++◌,
  contains, string_eq, if◌then◌else◌,
}
use base_backend.Errors.{ok, err, runtime_error}
use base_backend.Ci.Results.{ok-injective, bind-ok}
use base_backend.Ci.Json.{
  Json, null, boolean, number, other_number, text, array, object, get_or, is_member, as_str,
}
use base_backend.Pagination.Listing.{All}
use base_backend.Ci.TextSets.{contains-add, contains-add_self}
use base_backend.Ci.Images.Findings.{
  Blocked, Findings, should_block, identifier, fixed_version_of, add_applied, note, check_finding,
  check_findings, vulnerabilities, check_results, results_of, joined_ids, refuse, refuse_blocked,
  enforce_findings,
}

abbrev Grows : List String → List String → Type 0
Grows xs ys = (i : String) → contains xs i ≡ true → contains ys i ≡ true

is_nil : List Blocked → Bool
is_nil [] = true
is_nil (b ∷ bs) = false

append-NotNil : (bs : List Blocked) (b : Blocked) → bs ++ (b ∷ []) ≡ [] → ⊥
unfolding is_nil
append-NotNil [] b h = cc
append-NotNil (x ∷ bs) b h = cc

module _ (strip : String → String) (exceptions : List String) where
  -- A finding that does not block, or that an exception names, which then was applied.
  abbrev pub IsSettled : List String → Json → Type 0
  IsSettled applied finding =
      (should_block strip finding ≡ ok false)
      ⊎ ((id : String) × (identifier strip exceptions finding ≡ ok (text id))
          × (contains exceptions id ≡ true)
          × (contains applied id ≡ true))

  IsSettled-Grows :
      (xs ys : List String) (finding : Json)
      → Grows xs ys
      → IsSettled xs finding
      → IsSettled ys finding
  IsSettled-Grows xs ys finding g (inl harmless) = inl harmless
  IsSettled-Grows xs ys finding g (inr (id, named, known, applied)) =
      inr (id, named, known, g id applied)

  -- What a step of the loops keeps, that ends with `g` and settles what `P` says.
  abbrev Kept : Findings → Findings → Type 0 → Type 0
  Kept f g P = (f.blocked ≡ []) × P × Grows f.applied g.applied

  noted :
      (x id : Json) (known : Bool) (b : Blocked) (f : Findings) {g : Findings}
      → identifier strip exceptions x ≡ ok id
      → is_member (contains exceptions) id ≡ ok known
      → (if known
          then add_applied strip exceptions id f
          else record f { blocked = f.blocked ++ (b ∷ []) })
        ≡ g
      → g.blocked ≡ []
      → Kept f g (IsSettled g.applied x)
  noted x id false b f {g} named member is none_left =
      absurd (append-NotNil f.blocked b (ap (λ (y : Findings). y.blocked) is ∙ none_left))
  noted x (text id) true b f {g} named member is none_left =
      let known = ok-injective member in
      subst (λ (y : Findings). Kept f y (IsSettled y.applied x)) is
        (
          ap (λ (y : Findings). y.blocked) is ∙ none_left,
          inr (id, named, known, contains-add_self id f.applied),
          λ i h. contains-add id i f.applied h,
        )
  noted x null true b f named member is none_left = absurd (cc)
  noted x (boolean _) true b f named member is none_left = absurd (cc)
  noted x (number _) true b f named member is none_left = absurd (cc)
  noted x (other_number _) true b f named member is none_left = absurd (cc)
  noted x (array _) true b f named member is none_left = absurd (cc)
  noted x (object _) true b f named member is none_left = absurd (cc)

  check_finding-ok :
      (x : Json) (f : Findings) {g : Findings}
      → check_finding strip exceptions x f ≡ ok g
      → g.blocked ≡ []
      → Kept f g (IsSettled g.applied x)
  check_finding-ok x f {g} h none_left =
      let (id, _, h1) = bind-ok (identifier strip exceptions x) _ h in
      let (blocks, e, h2) = bind-ok (should_block strip x) _ h1 in on_blocks blocks e h2
    where
      on_blocks :
          (blocks : Bool)
          → should_block strip x ≡ ok blocks
          → (elim blocks [ false ↦ ok f | true ↦ note strip exceptions x f ]) ≡ ok g
          → Kept f g (IsSettled g.applied x)
      on_blocks false e h =
          subst (λ (y : Findings). Kept f y (IsSettled y.applied x)) (ok-injective h)
            (ap (λ (y : Findings). y.blocked) (ok-injective h) ∙ none_left, inl e, λ i k. k)
      on_blocks true e h =
          let (id, named, h1) = bind-ok (identifier strip exceptions x) _ h in
          let (known, member, h2) = bind-ok (is_member (contains exceptions) id) _ h1 in
          let (fixed, _, h3) = bind-ok (fixed_version_of strip x) _ h2 in
          let (version, _, h4) = bind-ok (as_str fixed) _ h3 in
          let (severity, _, h5) = bind-ok (get_or "Severity" (text "UNKNOWN") x) _ h4 in
          noted x id known (record { id = id; severity = severity; fixed_version = version }) f
            named member (ok-injective h5) none_left

  check_findings-ok :
      (xs : List Json) (f : Findings) {g : Findings}
      → check_findings strip exceptions xs f ≡ ok g
      → g.blocked ≡ []
      → Kept f g (All (IsSettled g.applied) xs)
  check_findings-ok [] f {g} h none_left =
      let e = ok-injective h in
      subst (λ (y : Findings). Kept f y Unit) e
        (ap (λ (y : Findings). y.blocked) e ∙ none_left, tt, λ i k. k)
  check_findings-ok (x ∷ xs) f {g} h none_left =
      let (m, e, h1) = bind-ok (check_finding strip exceptions x f) _ h in
      let (none_then, settled, grows) = check_findings-ok xs m h1 none_left in
      let (none_before, first, grown) = check_finding-ok x f e none_then in
      (
        none_before,
        (IsSettled-Grows m.applied g.applied x grows first, settled),
        λ i k. grows i (grown i k),
      )

  -- A result all of whose findings are settled.
  abbrev pub IsSettledResult : List String → Json → Type 0
  IsSettledResult applied r =
      (xs : List Json) × (vulnerabilities strip exceptions r ≡ ok xs) × All (IsSettled applied) xs

  All-Grows :
      (xs ys : List String) (findings : List Json)
      → Grows xs ys
      → All (IsSettled xs) findings
      → All (IsSettled ys) findings
  All-Grows xs ys [] g h = tt
  All-Grows xs ys (x ∷ findings) g (h, hs) =
      (IsSettled-Grows xs ys x g h, All-Grows xs ys findings g hs)

  check_results-ok :
      (rs : List Json) (f : Findings) {g : Findings}
      → check_results strip exceptions rs f ≡ ok g
      → g.blocked ≡ []
      → Kept f g (All (IsSettledResult g.applied) rs)
  check_results-ok [] f {g} h none_left =
      let e = ok-injective h in
      subst (λ (y : Findings). Kept f y Unit) e
        (ap (λ (y : Findings). y.blocked) e ∙ none_left, tt, λ i k. k)
  check_results-ok (r ∷ rs) f {g} h none_left =
      let (xs, found, h1) = bind-ok (vulnerabilities strip exceptions r) _ h in
      let (m, e, h2) = bind-ok (check_findings strip exceptions xs f) _ h1 in
      let (none_then, settled, grows) = check_results-ok rs m h2 none_left in
      let (none_before, first, grown) = check_findings-ok xs f e none_then in
      (
        none_before,
        ((xs, found, All-Grows m.applied g.applied xs grows first), settled),
        λ i k. grows i (grown i k),
      )

  refused :
      (f : Findings) (bs : List Blocked) {g : Findings}
      → f.blocked ≡ bs
      → refuse_blocked strip exceptions f ≡ ok g
      → (f.blocked ≡ []) × (f ≡ g)
  refused f [] {g} e h = (e, ok-injective (subst (λ bs. refuse strip exceptions bs f ≡ ok g) e h))
  refused f (b ∷ bs) {g} e h =
      let stuck = subst (λ x. refuse strip exceptions x f ≡ ok g) e h in
      let (_, _, raised) =
        bind-ok (joined_ids strip exceptions (b ∷ bs)) (λ _. err runtime_error) stuck in
      absurd (cc)

  -- A report passes only if each finding of each of its results either does not block, since it is
  -- not severe or has no fixed version, or is named by an exception, which is then among those that
  -- are reported as applied; nothing is reported as blocked.
  pub enforce_findings-ok :
      (report : Json) {g : Findings}
      → enforce_findings strip exceptions report ≡ ok g
      → (rs : List Json) × (results_of strip exceptions report ≡ ok rs)
        × All (IsSettledResult g.applied) rs
        × (g.blocked ≡ [])
  unfolding enforce_findings
  enforce_findings-ok report {g} h =
      let (rs, listed, h1) = bind-ok (results_of strip exceptions report) _ h in
      let start : Findings = record { blocked = []; applied = [] } in
      let (f, e, h2) = bind-ok (check_results strip exceptions rs start) _ h1 in
      let (none_left, same) = refused f f.blocked refl h2 in
      let (_, settled, _) = check_results-ok rs start e none_left in
      (
        rs,
        listed,
        subst (λ (y : Findings). All (IsSettledResult y.applied) rs) same settled,
        sym (ap (λ (y : Findings). y.blocked) same) ∙ none_left,
      )
