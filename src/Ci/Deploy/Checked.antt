-- ===== src/Ci/Deploy/Checked.antt =====
-- Evidence that passes the tests of a deployment.
use package.text.Mathlib.Text.{starts_with}
use package.text.Mathlib.TextPositions.{starts_with-append}
use base_backend.Prelude.{
  ◌≡◌, refl, sym, ap, ◌∙◌, inl, inr, Bool, true, not, String, List, [], ◌∷◌, contains, Bool-cases,
  ◌==◌, string_eq, arith,
}
use Prim.Native.String.{◌++◌ as ◌<>◌}
use base_backend.Errors.{Result, ok, value_error}
use base_backend.Ci.Results.{◌>>=◌, ◌>>◌, ok-bind, ok-then, map_results, raise_if}
use base_backend.Ci.Json.{Json, text, texts, list_of, get, is_text}
use base_backend.Ci.TextSets.{any_starts_with}
use base_backend.Ci.Patterns.{is_digest}
use base_backend.Ci.Exceptions.{any}
use base_backend.Ci.Images.Manifests.{hashable}
use base_backend.Ci.Images.Publish.{Machine, Arguments, evidence_of, image_reference}
use base_backend.Ci.Images.Publish.Resolved.{IsAttested}
use base_backend.Ci.Deploy.{found_or, any_str_starts_with, is_attested, expect, check_evidence}

same : (s : String) → (s == s) ≡ true
same s = (string_eq.equal_iff s s).1 refl

hashable-texts :
    (names : List String)
    → map_results hashable (list_of (texts names)) ≡ ok (list_of (texts names))
hashable-texts [] = refl
hashable-texts (s ∷ names) =
    ok-bind (map_results hashable (list_of (texts names))) (λ ys. ok (text s ∷ ys))
      (hashable-texts names) refl

any-contains :
    (names : List String) (s : String)
    → contains names s ≡ true
    → any (is_text s) (list_of (texts names)) ≡ true
any-contains [] s h = absurd (cc)
any-contains (x ∷ names) s h = elim (Bool-cases (x == s)) [
  | inl first ↦ rw (first, any) refl
  | inr other ↦ elim (Bool-cases (s == x)) [
    | inl equal ↦
        let e = (string_eq.equal_iff s x).0 equal in
        absurd (ground (arith, (string_eq.equal_iff x s).1 (sym e)))
    | inr differs ↦
        let later : contains names s ≡ true = rw differs at h in
        rw (other, any) (any-contains names s later)
  ]
]

any-starts :
    (prefix : String) (names : List String)
    → any_starts_with prefix names ≡ true
    → any_str_starts_with prefix (list_of (texts names)) ≡ ok true
any-starts prefix [] h = absurd (cc)
any-starts prefix (s ∷ names) h = elim (Bool-cases (starts_with s prefix)) [
  | inl yes_ ↦ ap (λ b. found_or b (any_str_starts_with prefix (list_of (texts names)))) yes_
  | inr no_ ↦
      let later : any_starts_with prefix names ≡ true = rw no_ at h in
      ap (λ b. found_or b (any_str_starts_with prefix (list_of (texts names)))) no_
      ∙ any-starts prefix names later
]

is_attested-texts :
    (names : List String) → IsAttested names → is_attested (list_of (texts names)) ≡ ok true
is_attested-texts names (sbom, provenance) =
    rw (any-contains names "https://spdx.dev/Document" sbom, is_attested)
      (any-starts "https://slsa.dev/provenance/" names provenance)

expect-ok :
    (key value : String) (evidence : Json)
    → get key evidence ≡ ok (text value)
    → expect key value evidence ≡ ok tt
expect-ok key value evidence h =
    ok-bind (get key evidence) (λ found. raise_if (not (is_text value found)) value_error) h
      (ap (λ b. raise_if (not b) value_error) (same value))

module _ (m : Machine) (args : Arguments) where
  -- The evidence passes the tests, if its report has a digest, its signing is complete, and its
  -- predicates name an SBOM and a provenance.
  pub check_evidence-ok :
      (platform report_digest : String) (names applied : List String) (profile : Json)
      → ((s : String) → m.tools.str (text s) ≡ s)
      → is_digest report_digest ≡ true
      → IsAttested names
      → check_evidence m.tools.loads m.tools.str m.sha256_hex args.source_sha
          (image_reference m args platform)
          (evidence_of m args platform names report_digest applied profile (text "COMPLETE"))
        ≡ ok (evidence_of m args platform names report_digest applied profile (text "COMPLETE"))
  unfolding check_evidence
  check_evidence-ok platform report_digest names applied profile str_text is_hash is =
      let evidence =
        evidence_of m args platform names report_digest applied profile (text "COMPLETE") in
      let reference = image_reference m args platform in
      let scanner = "Trivy " <> args.trivy_version in
      let decide : Bool → Result Json = λ b. raise_if (not b) value_error >> ok evidence in
      let judge : List Json → Result Json = λ predicates. is_attested predicates >>= decide in
      ok-then (expect "source_sha" args.source_sha evidence)
        (expect-ok "source_sha" args.source_sha evidence refl)
        (ok-then (expect "image_reference" reference evidence)
          (expect-ok "image_reference" reference evidence refl)
          (ok-then (expect "signing_status" "COMPLETE" evidence)
            (expect-ok "signing_status" "COMPLETE" evidence refl)
            (ok-then
              (raise_if (not (starts_with (m.tools.str (text scanner)) "Trivy ")) value_error)
              (ap (λ s. raise_if (not (starts_with s "Trivy ")) value_error) (str_text scanner)
                ∙ ap (λ b. raise_if (not b) value_error)
                    (starts_with-append "Trivy " args.trivy_version))
              (ok-then (raise_if (not (is_digest (m.tools.str (text report_digest)))) value_error)
                (ap (λ s. raise_if (not (is_digest s)) value_error) (str_text report_digest)
                  ∙ ap (λ b. raise_if (not b) value_error) is_hash)
                (ok-bind (map_results hashable (list_of (texts names))) judge (hashable-texts names)
                  (ok-bind (is_attested (list_of (texts names))) decide (is_attested-texts names is)
                    refl))))))
