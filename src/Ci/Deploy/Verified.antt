-- ===== src/Ci/Deploy/Verified.antt =====
-- What a deployment that passes has verified.
use base_backend.Prelude.{
  ◌≡◌, ◌∙◌, refl, ap, subst, Bool, true, false, not, Option, some, String, ◌==◌, string_eq,
}
use Prim.Native.String.{◌++◌ as ◌<>◌}
use base_backend.Errors.{Result, ok, ok-injective, value_error}
use base_backend.Ci.Results.{raise_if, raise_if-ok, bind-ok}
use base_backend.Ci.Json.{Json, text, get, is_text, is_text-path}
use base_backend.Ci.Deploy.{
  Inputs, expect, check_evidence, verify_evidence, verify_given, validate_inputs, deploy,
}
use base_backend.Ci.Deploy.Validated.{IsValidated, validate_inputs-IsValidated}

kept : (b : Bool) → not b ≡ false → b ≡ true
kept true h = refl
kept false h = absurd (cc)

-- What evidence must say of the image, where `evidence` is the file's document.
abbrev pub IsEvidence : String → String → Json → Type 0
IsEvidence source_sha image_reference evidence =
    (get "source_sha" evidence ≡ ok (text source_sha))
    × (get "image_reference" evidence ≡ ok (text image_reference))
    × (get "signing_status" evidence ≡ ok (text "COMPLETE"))

expect-get :
    (key value : String) (evidence : Json) {x : Unit {0}}
    → expect key value evidence ≡ ok x
    → get key evidence ≡ ok (text value)
expect-get key value evidence h =
    let (found, e, h1) = bind-ok (get key evidence) _ h in
    e
    ∙ ap ok (
        is_text-path value found
          (kept (is_text value found) (raise_if-ok (not (is_text value found)) value_error h1)))

module _ (loads : String → Result Json) (str : Json → String) (sha256_hex : String → String) where
  check_evidence-IsEvidence :
      (source_sha image_reference : String) (evidence : Json) {e : Json}
      → check_evidence loads str sha256_hex source_sha image_reference evidence ≡ ok e
      → IsEvidence source_sha image_reference evidence
  unfolding check_evidence
  check_evidence-IsEvidence source_sha image_reference evidence h =
      let (_, sha, h1) = bind-ok (expect "source_sha" source_sha evidence) _ h in
      let (_, image, h2) = bind-ok (expect "image_reference" image_reference evidence) _ h1 in
      let (_, signed, _) = bind-ok (expect "signing_status" "COMPLETE" evidence) _ h2 in
      (
        expect-get "source_sha" source_sha evidence sha,
        expect-get "image_reference" image_reference evidence image,
        expect-get "signing_status" "COMPLETE" evidence signed,
      )

  -- The file has the digest of the identifier, and its document says that the image is the one.
  pub record IsVerified (source_sha image_reference digest : String) (file : Result String)
      : Type 0 where
    pub content : String
    pub read : file ≡ ok content
    pub hashed : ("sha256:" <> sha256_hex content) ≡ digest
    pub evidence : Json
    pub loaded : loads content ≡ ok evidence
    pub says : IsEvidence source_sha image_reference evidence

  verify_evidence-IsVerified :
      (source_sha image_reference digest : String) (file : Result String) {e : Json}
      → verify_evidence loads str sha256_hex file source_sha image_reference digest ≡ ok e
      → IsVerified source_sha image_reference digest file
  unfolding verify_evidence
  verify_evidence-IsVerified source_sha image_reference digest file h =
      let (content, read, h1) = bind-ok file _ h in
      let actual = "sha256:" <> sha256_hex content in
      let (_, same, h2) = bind-ok (raise_if (not (actual == digest)) value_error) _ h1 in
      let (evidence, loaded, h3) = bind-ok (loads content) _ h2 in
      record {
        content = content;
        read = read;
        hashed =
            (string_eq.equal_iff actual digest).0
              (kept (actual == digest) (raise_if-ok (not (actual == digest)) value_error same));
        evidence = evidence;
        loaded = loaded;
        says = check_evidence-IsEvidence source_sha image_reference evidence h3;
      }

  -- A deployment with evidence passes only with a full Git SHA, a reference and an identifier whose parts, a
  -- repository, a run and two SHA-256 digests, make them up again, and with a file of evidence that has the
  -- digest of the identifier and says that the signing of this image, built from this source, is complete.
  pub deploy-IsVerified :
      (source_sha image_reference evidence_id : String) (file : Result String) {i : Inputs}
      {e : Option Json}
      → deploy loads str sha256_hex source_sha image_reference evidence_id (some file) ≡ ok (i, e)
      → IsValidated source_sha image_reference evidence_id i
        × IsVerified source_sha image_reference i.evidence_digest file
  unfolding deploy verify_given
  deploy-IsVerified source_sha image_reference evidence_id file {i} h =
      let (values, valid, h1) =
        bind-ok (validate_inputs source_sha image_reference evidence_id) _ h in
      let given =
        verify_given loads str sha256_hex (some file) source_sha image_reference
          values.evidence_digest in
      let (evidence, e1, h2) = bind-ok given _ h1 in
      let verify =
        verify_evidence loads str sha256_hex file source_sha image_reference
          values.evidence_digest in
      let (_, e2, _) = bind-ok verify (λ x. ok (some x)) e1 in
      subst
        (λ (v : Inputs).
          IsValidated source_sha image_reference evidence_id v
          × IsVerified source_sha image_reference v.evidence_digest file)
        (ap (λ (x : Inputs × Option Json). x.0) (ok-injective h2))
        (
          validate_inputs-IsValidated source_sha image_reference evidence_id valid,
          verify_evidence-IsVerified source_sha image_reference values.evidence_digest file e2,
        )
