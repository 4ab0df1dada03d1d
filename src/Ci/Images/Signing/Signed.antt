-- ===== src/Ci/Images/Signing/Signed.antt =====
-- What the wait for a signature returns.
use base_backend.Prelude.{
  ℕ, zero, suc, ◌≡◌, ◌⊎◌, ap, subst, inl, inr, ◌∙◌, Option, none, some, String, List, [], ◌∷◌,
  string_eq, arith, Bool-cases, if◌then◌else◌,
}
use base_backend.Errors.{Result, ok}
use base_backend.Exec.{Exec, lift, ◌>>=◌}
use base_backend.Exec.Inversion.{Returns, bind-ok, pure-Returns}
use base_backend.Ci.Results.{ok-injective, collect, cons_some, bind-ok as chain-ok}
use base_backend.Ci.Json.{
  Json, text, array, no_items, get, get_or, entry, iterate, is_text, get-is_text,
}
use base_backend.Ci.Images.{Event, Tools}
use base_backend.Ci.Images.Signing.{
  if_of_profile, statuses_of, Verdict, complete, pending, verdict_on, judge, verdict_of,
  wait_if_left, ask, go_on, wait_for_signature,
}

abbrev IsOfProfile : String → Json → Type 0
IsOfProfile arn status = entry "signingProfileArn" status ≡ ok (text arn)

abbrev first_or : Json → List Json → Json
first_or d [] = d
first_or d (x ∷ xs) = x

filtered :
    (arn : String) (x : Json) (profile : Json) {o : Option Json}
    → get "signingProfileArn" x ≡ ok profile
    → (if is_text arn profile then some x else none) ≡ o
    → (o ≡ none) ⊎ ((o ≡ some x) × IsOfProfile arn x)
filtered arn x profile here h = elim (Bool-cases (is_text arn profile)) [
  | inl yes_ ↦ inr (ground arith, get-is_text "signingProfileArn" arn x here yes_)
  | inr no_ ↦ inl (ground arith)
]

collected :
    (arn : String) (xs : List Json) {first : Json} {rest : List Json}
    → collect (if_of_profile arn) xs ≡ ok (first ∷ rest)
    → IsOfProfile arn first
collected arn [] h = absurd (cc)
collected arn (x ∷ xs) {first} {rest} h =
    let (o, e, h1) = chain-ok (if_of_profile arn x) _ h in
    let (ys, e2, h2) = chain-ok (collect (if_of_profile arn) xs) _ h1 in
    let (profile, here, h3) = chain-ok (get "signingProfileArn" x) _ e in
    elim (filtered arn x profile here (ok-injective h3)) [
      | inl out ↦
          let same = subst (λ y. cons_some y ys ≡ first ∷ rest) out (ok-injective h2) in
          collected arn xs (e2 ∙ ap ok same)
      | inr (kept, mine) ↦
          let same = subst (λ y. cons_some y ys ≡ first ∷ rest) kept (ok-injective h2) in
          subst (IsOfProfile arn) (ap (first_or x) same) mine
    ]

-- A status that says that the signing with the profile is complete.
abbrev pub IsSigned : String → Json → Type 0
IsSigned arn status =
    (entry "signingProfileArn" status ≡ ok (text arn))
    × (entry "status" status ≡ ok (text "COMPLETE"))

or_json : Json → Verdict → Json
or_json d (complete s) = s
or_json d pending = d

judged :
    (first status : Json) {s : Json}
    → get "status" first ≡ ok status
    → verdict_on first status ≡ ok (complete s)
    → (entry "status" first ≡ ok (text "COMPLETE")) × (first ≡ s)
unfolding or_json
judged first status {s} here h = elim (Bool-cases (is_text "COMPLETE" status)) [
  | inl yes_ ↦
      let same : ok (complete first) ≡ ok (complete s) = rw yes_ at h in
      (get-is_text "status" "COMPLETE" first here yes_, ap (or_json first) (ok-injective same))
  | inr no_ ↦ elim (Bool-cases (is_text "FAILED" status)) [
    | inl failed ↦ absurd (ground arith)
    | inr not_failed ↦ elim (Bool-cases (is_text "IN_PROGRESS" status)) [
      | inl waits ↦ absurd (ground arith)
      | inr unknown ↦ absurd (ground arith)
    ]
  ]
]

verdict_of-IsSigned :
    (arn : String) (result : Json) {s : Json}
    → verdict_of arn result ≡ ok (complete s)
    → IsSigned arn s
verdict_of-IsSigned arn result {s} h =
    let (statuses, e, h1) = chain-ok (statuses_of arn result) judge h in
    let (listed, _, h2) = chain-ok (get_or "signingStatuses" (array no_items) result) _ e in
    let (xs, _, h3) = chain-ok (iterate listed) (collect (if_of_profile arn)) h2 in
    of_first xs statuses h3 h1
  where
    of_first :
        (xs statuses : List Json)
        → collect (if_of_profile arn) xs ≡ ok statuses
        → judge statuses ≡ ok (complete s)
        → IsSigned arn s
    of_first xs [] h g = absurd (cc)
    of_first xs (first ∷ rest) h g =
        let (status, here, g1) = chain-ok (get "status" first) (verdict_on first) g in
        let (done, same) = judged first status here g1 in
        subst (IsSigned arn) same (collected arn xs h, done)

module _ (t : Tools) (repository digest arn : String) where
  IsSigned-settled :
      (left : ℕ) (rest : Exec (List Event) Json) (result : Json) (verdict : Verdict)
      (events : List Event) {s : Json} {events' : List Event}
      → verdict_of arn result ≡ ok verdict
      → Returns (go_on t repository digest arn left rest verdict) events s events'
      → ((e : List Event) → Returns rest e s events' → IsSigned arn s)
      → IsSigned arn s
  IsSigned-settled left rest result (complete x) events g h k =
      subst (IsSigned arn) (pure-Returns x events h).0 (verdict_of-IsSigned arn result g)
  IsSigned-settled left rest result pending events g h k =
      let (_, e, _, h1) = bind-ok (wait_if_left left) (λ _. rest) events h in k e h1

  -- The wait returns only a status of the signing profile that says that the signing is complete.
  pub wait_for_signature-IsSigned :
      (attempts : ℕ) (events : List Event) {s : Json} {events' : List Event}
      → Returns (wait_for_signature t repository digest arn attempts) events s events'
      → IsSigned arn s
  unfolding wait_for_signature
  wait_for_signature-IsSigned zero events h = absurd (cc)
  wait_for_signature-IsSigned (suc left) events {s} {events'} h =
      let rest = wait_for_signature t repository digest arn left in
      let next = go_on t repository digest arn left rest in
      let (result, e1, _, h1) =
        bind-ok (ask t repository digest arn) (λ r. lift (verdict_of arn r) >>= next) events h in
      let (verdict, e2, g, h2) = bind-ok (lift (verdict_of arn result)) next e1 h1 in
      IsSigned-settled left rest result verdict e2 (ap (λ (x : Result Verdict × List Event). x.0) g)
        h2 (λ e back. wait_for_signature-IsSigned left e back)
