-- ===== src/Ci/Deploy/Validated.antt =====
-- What the inputs of a deployment are made of.
use base_backend.Prelude.{
  ◌≡◌, refl, sym, ap, subst, ◌∙◌, Bool, true, false, not, Option, none, some, String, string_eq,
}
use Prim.Native.String.{◌++◌ as ◌<>◌}
use base_backend.Errors.{ok, value_error}
use base_backend.Ci.Results.{raise_if, raise_if-ok, ok-injective, bind-ok}
use base_backend.Ci.Patterns.{is_digit, span, drop_prefix, is_git_sha, is_digest}
use base_backend.Ci.Patterns.Parts.{span-append, drop_prefix-some}
use base_backend.Ci.Deploy.{
  Inputs, or_refused, not_empty, without, is_host, is_not_at, match_reference, match_evidence,
  validate_inputs,
}

kept : (b : Bool) → not b ≡ false → b ≡ true
kept true h = refl
kept false h = absurd (cc)

without-ok : (prefix s : String) {rest : String} → without prefix s ≡ ok rest → s ≡ (prefix <> rest)
without-ok prefix s {rest} h = drop_prefix-some prefix s (given (drop_prefix prefix s) h)
  where
    given : (o : Option String) → or_refused o ≡ ok rest → o ≡ some rest
    given none h = absurd (cc)
    given (some r) h = ap some (ok-injective h)

digest_ok :
    (digest : String) {x : Unit {0}}
    → raise_if (not (is_digest digest)) value_error ≡ ok x
    → is_digest digest ≡ true
digest_ok digest h = kept (is_digest digest) (raise_if-ok (not (is_digest digest)) value_error h)

-- A reference is a repository and a digest.
abbrev IsReference : String → String × String → Type 0
IsReference s (repository, digest) =
    (s ≡ (repository <> ("@" <> digest))) × (is_digest digest ≡ true)

match_reference-IsReference :
    (s : String) {r : String × String} → match_reference s ≡ ok r → IsReference s r
unfolding match_reference
match_reference-IsReference s h =
    let parts = span is_not_at s in
    let (_, _, h1) = bind-ok (is_host parts.0) _ h in
    let (digest, after, h2) = bind-ok (without "@" parts.1) _ h1 in
    let (_, is, h3) = bind-ok (raise_if (not (is_digest digest)) value_error) _ h2 in
    subst (IsReference s) (ok-injective h3) (
      sym (span-append is_not_at s) ∙ ap (λ v. parts.0 <> v) (without-ok "@" parts.1 after),
      digest_ok digest is,
    )

abbrev IsEvidenceId : String → String × (String × String) → Type 0
IsEvidenceId s (run_id, (run_attempt, digest)) =
    (s ≡ (run_id <> (":" <> (run_attempt <> (":" <> digest))))) × (is_digest digest ≡ true)

match_evidence-IsEvidenceId :
    (s : String) {r : String × (String × String)} → match_evidence s ≡ ok r → IsEvidenceId s r
unfolding match_evidence
match_evidence-IsEvidenceId s h =
    let run = span is_digit s in
    let (_, _, h1) = bind-ok (raise_if (not (not_empty run.0)) value_error) _ h in
    let (next, e1, h2) = bind-ok (without ":" run.1) _ h1 in
    let attempt = span is_digit next in
    let (_, _, h3) = bind-ok (raise_if (not (not_empty attempt.0)) value_error) _ h2 in
    let (digest, e2, h4) = bind-ok (without ":" attempt.1) _ h3 in
    let (_, is, h5) = bind-ok (raise_if (not (is_digest digest)) value_error) _ h4 in
    let inner : next ≡ (attempt.0 <> (":" <> digest)) =
      sym (span-append is_digit next) ∙ ap (λ v. attempt.0 <> v) (without-ok ":" attempt.1 e2) in
    subst (IsEvidenceId s) (ok-injective h5) (
      sym (span-append is_digit s)
          ∙ ap (λ v. run.0 <> v) (without-ok ":" run.1 e1 ∙ ap (λ v. ":" <> v) inner),
      digest_ok digest is,
    )

-- The parts of the inputs.
pub record IsValidated (source_sha image_reference evidence_id : String) (i : Inputs) : Type 0 where
  pub sha : is_git_sha source_sha ≡ true
  pub image : image_reference ≡ (i.repository <> ("@" <> i.image_digest))
  pub image_digest_valid : is_digest i.image_digest ≡ true
  pub evidence :
      evidence_id
      ≡ (i.evidence_run_id <> (":" <> (i.evidence_run_attempt <> (":" <> i.evidence_digest))))
  pub evidence_digest_valid : is_digest i.evidence_digest ≡ true

pub validate_inputs-IsValidated :
    (source_sha image_reference evidence_id : String) {i : Inputs}
    → validate_inputs source_sha image_reference evidence_id ≡ ok i
    → IsValidated source_sha image_reference evidence_id i
unfolding validate_inputs
validate_inputs-IsValidated source_sha image_reference evidence_id h =
    let (_, is_sha, h1) = bind-ok (raise_if (not (is_git_sha source_sha)) value_error) _ h in
    let (reference, e1, h2) = bind-ok (match_reference image_reference) _ h1 in
    let (id, e2, h3) = bind-ok (match_evidence evidence_id) _ h2 in
    let (image, image_valid) = match_reference-IsReference image_reference e1 in
    let (evidence, evidence_valid) = match_evidence-IsEvidenceId evidence_id e2 in
    subst (IsValidated source_sha image_reference evidence_id) (ok-injective h3) (record {
      sha =
          kept (is_git_sha source_sha)
            (raise_if-ok (not (is_git_sha source_sha)) value_error is_sha);
      image = image;
      image_digest_valid = image_valid;
      evidence = evidence;
      evidence_digest_valid = evidence_valid;
    })
