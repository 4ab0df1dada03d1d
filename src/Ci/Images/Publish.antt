-- ===== src/Ci/Images/Publish.antt =====
-- `load_trivy_report` and `main` of tool/ci/ecr_image_policy.py: what publishes the evidence for an image. The
-- text that `main` prints at the end is not modelled; the file of the outputs is always asked for.
pub mod Resolved
use package.text.Mathlib.Text.{starts_with, find?}
use base_backend.Prelude.{
  ℕ, ◌≡◌, Bool, true, false, not, ◌||◌, Option, none, some, is_some, String, List, [], ◌∷◌, ◌==◌,
  string_eq, if◌then◌else◌,
}
use Prim.Native.String.{◌++◌ as ◌<>◌}
use base_backend.Errors.{Error, Result, ok, err, value_error, runtime_error, os_error}
use base_backend.Exec.{Exec, pure, raise, raise_if, lift, modify, on, ◌>>=◌, ◌>>◌}
use base_backend.Ci.Results
use base_backend.Ci.Results.{map_results}
use base_backend.Ci.Json.{
  Json, null, text, number, array, object, no_items, no_fields, field, texts, get, get_or, entry,
  iterate, is_number,
}
use base_backend.Ci.Patterns.{is_digest, is_git_sha}
use base_backend.Ci.Exceptions.{ExceptionEntry, load_registry, ids_of_type, any}
use base_backend.Ci.Images.{Event, Tools}
use base_backend.Ci.Images.Attestations.{resolve_attested_platform}
use base_backend.Ci.Images.Findings.{Findings, enforce_findings}
use base_backend.Ci.Images.Signing.{wait_for_signature}

-- The command line.
pub record Arguments : Type 0 where
  pub repository : String
  pub repository_uri : String
  pub source_sha : String
  pub run_id : String
  pub run_attempt : String
  pub top_digest : String
  pub trivy_version : String
  pub signing_profile_arn : String
  pub attempts : ℕ

-- What the run uses besides AWS: methods of `str`, `json.dumps(..., indent=2, sort_keys=True)`, SHA-256 of the
-- UTF-8 of a text, the clock, the registry, and the files. What a failed write leaves in a file is not modelled.
pub record Machine : Type 0 where
  pub tools : Tools
  pub isdecimal : String → Bool
  pub strip : String → String
  pub dumps : Json → String
  pub sha256_hex : String → String
  pub now : String
  pub fromisoformat : String → Result ℕ
  pub today : ℕ
  pub registry : Result String
  pub report : Result String
  pub write_evidence : Result (Unit {0})
  pub write_outputs : Result (Unit {0})

-- The lines of `GITHUB_OUTPUT`.
pub record Outputs : Type 0 where
  pub source_sha : String
  pub image_digest : String
  pub image_reference : String
  pub security_evidence_id : String

pub record Run : Type 0 where
  pub events : List Event
  pub evidence : Option String
  pub outputs : Option Outputs

module _ (m : Machine) where
  abbrev pub digest_of : String → String
  digest_of content = "sha256:" <> m.sha256_hex content

  -- `references`
  abbrev pub references : Json → Result (List String)
  references report = Results.◌>>=◌ (get_or "ArtifactName" (text "") report) λ name.
      Results.◌>>=◌ (get_or "Metadata" (object no_fields) report) λ metadata.
        Results.◌>>=◌ (get_or "RepoDigests" (array no_items) metadata) λ digests.
          Results.◌>>=◌ (iterate digests) λ values.
            Results.◌>>=◌ (map_results (λ v. ok (m.tools.str v)) values)
              λ shown. ok (m.tools.str name ∷ shown)

  abbrev pub linked : String → List String → Result (Unit {0})
  linked platform_digest names =
      Results.raise_if (not (any (λ name. is_some (find? name platform_digest)) names))
        runtime_error

  unfoldable pub load_trivy_report : String → Result (Json × String)
  load_trivy_report platform_digest = Results.◌>>=◌ m.report λ content.
      Results.◌>>=◌ (m.tools.loads content) λ report.
        Results.◌>>=◌ (get "SchemaVersion" report) λ version.
          Results.◌>>=◌ (Results.raise_if (not (is_number 2 version)) runtime_error) λ _.
            Results.◌>>=◌ (references report) λ names.
              Results.◌>>=◌ (linked platform_digest names) λ _. ok (report, digest_of content)

  -- `enforce_findings`, which reads the registry itself.
  unfoldable pub applied_exceptions : Json → Result Findings
  applied_exceptions report =
      Results.◌>>=◌ (load_registry m.fromisoformat m.today m.registry m.tools.loads)
        λ entries. enforce_findings m.strip (ids_of_type "image_vulnerability" entries) report

  -- The report's digest, and the exceptions that were applied.
  unfoldable pub scanned : String → Result (String × List String)
  scanned platform_digest = Results.◌>>=◌ (load_trivy_report platform_digest) λ loaded.
      Results.◌>>=◌ (applied_exceptions loaded.0) λ findings. ok (loaded.1, findings.applied)

  -- `signing["signingProfileArn"]` and `signing["status"]`
  abbrev pub signed_fields : Json → Result (Json × Json)
  signed_fields signing =
      Results.◌>>=◌ (entry "signingProfileArn" signing)
        λ profile. Results.◌>>=◌ (entry "status" signing) λ status. ok (profile, status)

  module _ (args : Arguments) where
    -- The tests of the command line.
    abbrev pub check_arguments : Result (Unit {0})
    check_arguments =
        Results.◌>>◌ (Results.raise_if (not (is_digest args.top_digest)) value_error) (
          Results.◌>>◌ (Results.raise_if (not (is_git_sha args.source_sha)) value_error) (
            Results.◌>>◌
              (Results.raise_if
                (not (m.isdecimal args.run_id) || not (m.isdecimal args.run_attempt)) value_error)
              (Results.raise_if (not (starts_with args.signing_profile_arn "arn:aws:signer:"))
                value_error)))

    abbrev pub image_reference : String → String
    image_reference platform_digest = args.repository_uri <> ("@" <> platform_digest)

    -- `evidence`, with its keys in the order that `sort_keys` writes them in.
    abbrev pub evidence_of : String → List String → String → List String → Json → Json → Json
    evidence_of platform_digest predicates report_digest applied profile status = object (
        field "applied_exceptions" (array (texts applied)) (
          field "attestation_predicate_types" (array (texts predicates)) (
            field "blocking_policy" (text "HIGH/CRITICAL with a non-empty fixed version") (
              field "image_digest" (text platform_digest) (
                field "image_reference" (text (image_reference platform_digest)) (
                  field "repository" (text args.repository) (
                    field "scan_completed_at" (text m.now) (
                      field "scan_report_digest" (text report_digest) (
                        field "scanner" (text ("Trivy " <> args.trivy_version)) (
                          field "schema_version" (number 1) (
                            field "signing_profile_arn" profile (
                              field "signing_status" status (
                                field "source_sha" (text args.source_sha)
                                  (field "top_digest" (text args.top_digest) no_fields))))))))))))))

    -- `canonical`
    abbrev pub canonical : Json → String
    canonical evidence = m.dumps evidence <> "\n"

    abbrev pub evidence_id : Json → String
    evidence_id evidence =
        args.run_id <> (":" <> (args.run_attempt <> (":" <> digest_of (canonical evidence))))

    abbrev pub aws : {A : Type 0} → Exec (List Event) A → Exec Run A
    aws = on (λ r. r.events) (λ events r. record r { events = events })

    abbrev pub with_evidence : Json → Run → Run
    with_evidence evidence r = record r { evidence = some (canonical evidence) }

    abbrev pub with_outputs : String → Json → Run → Run
    with_outputs platform_digest evidence r = record r {
      outputs = some (record {
        source_sha = args.source_sha;
        image_digest = platform_digest;
        image_reference = image_reference platform_digest;
        security_evidence_id = evidence_id evidence;
      });
    }

    -- The files that are written at the end.
    unfoldable pub write_files : String → Json → Exec Run (Unit {0})
    write_files platform_digest evidence = do
      lift m.write_evidence
      modify (with_evidence evidence)
      lift m.write_outputs
      modify (with_outputs platform_digest evidence)

    -- From the status of the signing on.
    unfoldable pub conclude : String × List String → String × List String → Json → Exec Run Json
    conclude (platform_digest, predicates) (report_digest, applied) signing = do
      (profile, status) ← lift (signed_fields signing)
      let evidence = evidence_of platform_digest predicates report_digest applied profile status
      write_files platform_digest evidence
      pure evidence

    -- From the resolved platform on.
    unfoldable pub examine : String × List String → Exec Run Json
    examine platform = do
      scan ← lift (scanned platform.0)
      signing ← aws (
          wait_for_signature m.tools args.repository platform.0 args.signing_profile_arn
            args.attempts)
      conclude platform scan signing

    -- The body of `main`, which ends with the evidence that it has written.
    unfoldable pub publish : Exec Run Json
    publish = do
      lift check_arguments
      platform ← aws (resolve_attested_platform m.tools args.repository args.top_digest)
      examine platform
