-- ===== src/Ci/Deploy/Accepted.antt =====
-- A deployment accepts the evidence that was published for its image.
use base_backend.Prelude.{
  ◌≡◌, refl, sym, ap, subst, ◌∙◌, true, not, some, String, List, ◌==◌, string_eq,
}
use Prim.Native.String.{◌++◌ as ◌<>◌}
use base_backend.Errors.{Result, ok, err, value_error}
use base_backend.Exec.{lift, modify, ◌>>◌}
use base_backend.Exec.Inversion.{Returns, bind-ok, pure-Returns, on-Returns}
use base_backend.Ci.Results.{ok-injective, ok-bind, ok-then, raise_if, bind-ok as chain-ok}
use base_backend.Ci.Json.{Json, text, entry}
use base_backend.Ci.Patterns.{is_run, is_hex_digit, is_digest}
use base_backend.Ci.Patterns.Parts.{is_digest-append}
use base_backend.Ci.Images.Attestations.{resolve_attested_platform}
use base_backend.Ci.Images.Signing.{wait_for_signature}
use base_backend.Ci.Images.Signing.Signed.{IsSigned, wait_for_signature-IsSigned}
use base_backend.Ci.Images.Publish.{
  Machine, Arguments, Outputs, Run, digest_of, load_trivy_report, applied_exceptions, scanned,
  signed_fields, check_arguments, evidence_of, canonical, evidence_id, image_reference, aws,
  with_evidence, with_outputs, write_files, conclude, examine, publish,
}
use base_backend.Ci.Images.Publish.Resolved.{
  IsAttested, resolve_attested_platform-IsAttested, load_trivy_report-digest,
}
use base_backend.Ci.Deploy.{check_evidence, verify_evidence}
use base_backend.Ci.Deploy.Checked.{check_evidence-ok}

modified :
    (r s : Result (Unit {0})) (f g : Run → Run) (run : Run) {x : Unit {0}} {run' : Run}
    → Returns (lift r >> (modify f >> (lift s >> modify g))) run x run'
    → run' ≡ g (f run)
modified (ok _) (ok _) f g run h = sym (ap (λ (y : Result (Unit {0}) × Run). y.1) h)
modified (ok _) (err e) f g run h = absurd (cc)
modified (err e) s f g run h = absurd (cc)

module _ (m : Machine) (args : Arguments) where
  abbrev outputs_of : String → Json → Outputs
  outputs_of platform evidence = record {
    source_sha = args.source_sha;
    image_digest = platform;
    image_reference = image_reference m args platform;
    security_evidence_id = evidence_id m args evidence;
  }

  write_files-Returns :
      (platform : String) (evidence : Json) (run : Run) {x : Unit {0}} {run' : Run}
      → Returns (write_files m args platform evidence) run x run'
      → (run'.evidence ≡ some (canonical m args evidence))
        × (run'.outputs ≡ some (outputs_of platform evidence))
  unfolding write_files
  write_files-Returns platform evidence run h =
      let left =
        modified m.write_evidence m.write_outputs (with_evidence m args evidence)
          (with_outputs m args platform evidence) run h in
      (ap (λ (r : Run). r.evidence) left, ap (λ (r : Run). r.outputs) left)

  scanned-digest :
      (platform : String) {r : String × List String}
      → scanned m platform ≡ ok r
      → (content : String) × (r.0 ≡ digest_of m content)
  unfolding scanned
  scanned-digest platform h =
      let (loaded, e1, h1) = chain-ok (load_trivy_report m platform) _ h in
      let (findings, _, h2) = chain-ok (applied_exceptions m loaded.0) _ h1 in
      let (content, is) = load_trivy_report-digest m platform e1 in
      (content, sym (ap (λ (x : String × List String). x.0) (ok-injective h2)) ∙ is)

  signed_fields_complete :
      (arn : String) (signing : Json) {r : Json × Json}
      → IsSigned arn signing
      → signed_fields m signing ≡ ok r
      → r.1 ≡ text "COMPLETE"
  signed_fields_complete arn signing (_, complete) h =
      let (profile, _, h1) = chain-ok (entry "signingProfileArn" signing) _ h in
      let (status, e, h2) = chain-ok (entry "status" signing) _ h1 in
      sym (ap (λ (x : Json × Json). x.1) (ok-injective h2)) ∙ ok-injective (sym e ∙ complete)

  -- Evidence that was written, with the outputs, and that a deployment with these outputs accepts.
  pub record IsPublished (evidence : Json) (run : Run) : Type 0 where
    pub outputs : Outputs
    pub reported : run.outputs ≡ some outputs
    pub written : run.evidence ≡ some (canonical m args evidence)
    pub named : outputs.security_evidence_id ≡ (
        args.run_id
        <> (":" <> (args.run_attempt <> (":" <> digest_of m (canonical m args evidence)))))
    pub accepted :
        verify_evidence m.tools.loads m.tools.str m.sha256_hex
          (ok (canonical m args evidence))
          outputs.source_sha
          outputs.image_reference
          (digest_of m (canonical m args evidence))
        ≡ ok evidence

  verify_evidence-ok :
      (evidence : Json) (source_sha reference : String)
      → m.tools.loads (canonical m args evidence) ≡ ok evidence
      → check_evidence m.tools.loads m.tools.str m.sha256_hex source_sha reference evidence
        ≡ ok evidence
      → verify_evidence m.tools.loads m.tools.str m.sha256_hex
          (ok (canonical m args evidence))
          source_sha
          reference
          (digest_of m (canonical m args evidence))
        ≡ ok evidence
  unfolding verify_evidence
  verify_evidence-ok evidence source_sha reference loaded checked =
      let digest = digest_of m (canonical m args evidence) in
      ok-then (raise_if (not (digest == digest)) value_error)
        (ap (λ b. raise_if (not b) value_error) ((string_eq.equal_iff digest digest).1 refl))
        (ok-bind (m.tools.loads (canonical m args evidence))
          (check_evidence m.tools.loads m.tools.str m.sha256_hex source_sha reference) loaded
          checked)

  IsPublished-written :
      (platform digest : String) (names applied : List String) (profile status : Json) (run : Run)
      → ((s : String) → m.tools.str (text s) ≡ s)
      → is_digest digest ≡ true
      → IsAttested names
      → status ≡ text "COMPLETE"
      → (run.evidence
          ≡ some
              (canonical m args (evidence_of m args platform names digest applied profile status)))
      → (run.outputs
          ≡ some (
              outputs_of platform
                (evidence_of m args platform names digest applied profile status)))
      → m.tools.loads
          (canonical m args (evidence_of m args platform names digest applied profile status))
        ≡ ok (evidence_of m args platform names digest applied profile status)
      → IsPublished (evidence_of m args platform names digest applied profile status) run
  IsPublished-written platform digest names applied profile status run str_text is_hash attested
        complete file outputs loaded =
      let evidence = evidence_of m args platform names digest applied profile in
      record {
        outputs = outputs_of platform (evidence status);
        reported = outputs;
        written = file;
        named = refl;
        accepted =
            verify_evidence-ok (evidence status) args.source_sha (image_reference m args platform)
              loaded
              (subst
                (λ s.
                  check_evidence m.tools.loads m.tools.str m.sha256_hex args.source_sha
                    (image_reference m args platform) (evidence s)
                  ≡ ok (evidence s))
                (sym complete)
                (check_evidence-ok m args platform digest names applied profile str_text is_hash
                  attested));
      }

  conclude-IsPublished :
      (platform scan : String × List String) (signing : Json) (run : Run) {evidence : Json}
      {run' : Run}
      → IsAttested platform.1
      → is_digest scan.0 ≡ true
      → IsSigned args.signing_profile_arn signing
      → Returns (conclude m args platform scan signing) run evidence run'
      → m.tools.loads (canonical m args evidence) ≡ ok evidence
      → ((s : String) → m.tools.str (text s) ≡ s)
      → IsPublished evidence run'
  unfolding conclude
  conclude-IsPublished (platform, names) (digest, applied) signing run {evidence} {run'} attested
        is_hash is_signed h loaded str_text =
      let (signed, s1, e1, h1) = bind-ok (lift (signed_fields m signing)) _ run h in
      let complete =
        signed_fields_complete args.signing_profile_arn signing is_signed
          (ap (λ (x : Result (Json × Json) × Run). x.0) e1) in
      let made = evidence_of m args platform names digest applied signed.0 signed.1 in
      let (_, s2, e2, h2) = bind-ok (write_files m args platform made) _ s1 h1 in
      let (same, left) = pure-Returns made s2 h2 in
      let (file, outputs) = write_files-Returns platform made s1 e2 in
      let loaded' = subst (λ e. m.tools.loads (canonical m args e) ≡ ok e) (sym same) loaded in
      let there =
        IsPublished-written platform digest names applied signed.0 signed.1 s2 str_text is_hash
          attested complete file outputs loaded' in
      subst (λ r. IsPublished evidence r) (sym left) (subst (λ e. IsPublished e s2) same there)

  examine-IsPublished :
      (platform : String × List String) (run : Run) {evidence : Json} {run' : Run}
      → IsAttested platform.1
      → Returns (examine m args platform) run evidence run'
      → m.tools.loads (canonical m args evidence) ≡ ok evidence
      → ((s : String) → m.tools.str (text s) ≡ s)
      → ((s : String) → is_run is_hex_digit 64 (m.sha256_hex s) ≡ true)
      → IsPublished evidence run'
  unfolding examine
  examine-IsPublished platform run attested h loaded str_text is_hash =
      let (scan, s1, e1, h1) = bind-ok (lift (scanned m platform.0)) _ run h in
      let wait =
        wait_for_signature m.tools args.repository platform.0 args.signing_profile_arn
          args.attempts in
      let (signing, s2, e2, h2) = bind-ok (aws m args wait) _ s1 h1 in
      let (content, digest) =
        scanned-digest platform.0 (ap (λ (x : Result (String × List String) × Run). x.0) e1) in
      let (_, waited, _) =
        on-Returns (λ (r : Run). r.events) (λ events (r : Run). record r { events = events }) wait
          s1 e2 in
      conclude-IsPublished platform scan signing s2 attested
        (ap is_digest digest ∙ is_digest-append (m.sha256_hex content) (is_hash content))
        (wait_for_signature-IsSigned m.tools args.repository platform.0 args.signing_profile_arn
          args.attempts s1.events waited)
        h2 loaded str_text

  -- When the policy has published the evidence for an image, the evidence and the outputs are written, and a
  -- deployment whose source, image and evidence are those of the outputs accepts the evidence: if
  -- `json.loads` gives back what `json.dumps` has written, `str` of a text is the text, and a SHA-256 in
  -- hexadecimal has 64 digits.
  pub publish-IsPublished :
      (run : Run) {evidence : Json} {run' : Run}
      → Returns (publish m args) run evidence run'
      → m.tools.loads (canonical m args evidence) ≡ ok evidence
      → ((s : String) → m.tools.str (text s) ≡ s)
      → ((s : String) → is_run is_hex_digit 64 (m.sha256_hex s) ≡ true)
      → IsPublished evidence run'
  unfolding publish
  publish-IsPublished run {evidence} {run'} h loaded str_text is_hash =
      let (_, s1, _, h1) = bind-ok (lift (check_arguments m args)) _ run h in
      let resolve = resolve_attested_platform m.tools args.repository args.top_digest in
      let (platform, s2, e2, h2) = bind-ok (aws m args resolve) _ s1 h1 in
      let (_, resolved, _) =
        on-Returns (λ (r : Run). r.events) (λ events (r : Run). record r { events = events })
          resolve s1 e2 in
      examine-IsPublished platform s2
        (resolve_attested_platform-IsAttested m.tools args.repository args.top_digest s1.events
          resolved)
        h2 loaded str_text is_hash
