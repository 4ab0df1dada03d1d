-- ===== src/Tests/Policies.antt =====
-- A release that the policies of tool/ci let pass, and the theorems applied to it.
use base_backend.Prelude.{◌≡◌, refl, some, true, String, List, [], ◌∷◌, string_eq}
use base_backend.Errors.{ok, err, runtime_error}
use base_backend.Exec.Inversion.{Returns}
use base_backend.Ci.Json.{Json, null, get}
use base_backend.Ci.Patterns.{is_run, is_hex_digit, is_digest}
use base_backend.Ci.Exceptions.{ExceptionEntry, listed_entries, load_registry, ids_of_type}
use base_backend.Ci.Exceptions.Valid.{IsValid, Distinct, load_registry-IsValid}
use base_backend.Ci.Images.{Event, called, slept, aws_json}
use base_backend.Ci.Images.Manifests.{read_index, check_predicates}
use base_backend.Ci.Images.Attestations.{image_manifest, predicate_types, resolve_attested_platform}
use base_backend.Ci.Images.Signing.{wait_for_signature}
use base_backend.Ci.Images.Signing.Waiting.{IsWithin, wait_for_signature-IsWithin}
use base_backend.Ci.Images.Findings.{Blocked, Findings, should_block, results_of, enforce_findings}
use base_backend.Ci.Images.Findings.Enforced.{IsSettledResult, enforce_findings-ok}
use base_backend.Ci.Images.Publish.{
  Machine, Run, load_trivy_report, applied_exceptions, scanned, write_files, conclude, examine,
  publish,
}
use base_backend.Ci.Deploy.{
  Inputs, match_reference, match_evidence, validate_inputs, check_evidence, verify_evidence,
  verify_given, deploy,
}
use base_backend.Ci.Deploy.Verified.{IsVerified, deploy-IsVerified}
use base_backend.Ci.Deploy.Accepted.{IsPublished, publish-IsPublished}
use base_backend.Ci.Deploy.Validated.{IsValidated}
use base_backend.Pagination.Listing.{All, length}
use base_backend.Tests.Release.{
  platform, report, loads, str, tools, machine_with, arguments, start, json_or_null,
}

-- The evidence, and a machine whose `json.loads` gives it back.
abbrev evidence : Json
evidence = json_or_null (publish (machine_with null) arguments start).0

abbrev machine : Machine
machine = machine_with evidence

abbrev published : Run
published = (publish machine arguments start).1

release : Returns (publish machine arguments) start evidence published
unfolding publish examine conclude write_files scanned applied_exceptions load_trivy_report
    enforce_findings should_block load_registry ids_of_type wait_for_signature
    resolve_attested_platform predicate_types image_manifest read_index check_predicates aws_json
    is_digest
release = refl

is_hash : (s : String) → is_run is_hex_digit 64 (machine.sha256_hex s) ≡ true
is_hash s = refl

publish-IsPublished_example : IsPublished machine arguments evidence published
publish-IsPublished_example =
    publish-IsPublished machine arguments start release refl (λ s. refl) is_hash

abbrev waited : List Event
waited =
    (wait_for_signature (tools null) "backend" platform "arn:aws:signer:1" 3
      (slept ∷ called [] ∷ [])).1

wait_for_signature-IsWithin_example : IsWithin 3 2 (slept ∷ called [] ∷ []) waited
wait_for_signature-IsWithin_example =
    wait_for_signature-IsWithin (tools null) "backend" platform "arn:aws:signer:1" 3
      (slept ∷ called [] ∷ [])

abbrev passed : Findings
passed = record { blocked = []; applied = "CVE-1" ∷ [] }

report_passes : enforce_findings (λ s. s) ("CVE-1" ∷ []) report ≡ ok passed
unfolding enforce_findings should_block
report_passes = refl

-- Without the exception the report is refused.
report_refused : enforce_findings (λ s. s) [] report ≡ err runtime_error
unfolding enforce_findings should_block
report_refused = refl

enforce_findings-ok_example :
    (rs : List Json) × (results_of (λ s. s) ("CVE-1" ∷ []) report ≡ ok rs)
    × All (IsSettledResult (λ s. s) ("CVE-1" ∷ []) ("CVE-1" ∷ [])) rs
    × (◌≡◌ {A = List Blocked} [] [])
enforce_findings-ok_example = enforce_findings-ok (λ s. s) ("CVE-1" ∷ []) report report_passes

abbrev exception : ExceptionEntry
exception = record {
  kind = "image_vulnerability";
  id = "CVE-1";
  reason = "no release yet";
  owner = "@team";
  task = "docs/security-remediation.md#cve-1";
  expires_on = "2030-01-01";
  paths = [];
}

registry_loads : load_registry (λ s. ok 100) 50 (ok "registry") (loads null) ≡ ok (exception ∷ [])
unfolding load_registry
registry_loads = refl

load_registry-IsValid_example :
    All (IsValid (λ s. ok 100) 50) (exception ∷ [])
    × Distinct (λ s. ok 100) 50 [] (exception ∷ [])
    × ((content : String) × (document : Json) × (xs : Json) × (items : List Json) × (ok "registry"
          ≡ ok content)
        × (loads null content ≡ ok document)
        × (get "exceptions" document ≡ ok xs)
        × (listed_entries (λ s. ok 100) 50 xs ≡ ok items)
        × (length (exception ∷ []) ≡ length items))
load_registry-IsValid_example =
    load_registry-IsValid (λ s. ok 100) 50 (ok "registry") (loads null) registry_loads

abbrev inputs : Inputs
inputs = record {
  repository = "123456789012.dkr.ecr.eu-west-1.amazonaws.com/backend";
  image_digest = platform;
  evidence_run_id = "7";
  evidence_run_attempt = "1";
  evidence_digest = platform;
}

abbrev image : String
image =
    "123456789012.dkr.ecr.eu-west-1.amazonaws.com/backend@sha256:00112233445566778899aabbccddeeff00112233445566778899aabbccddeeff"

abbrev evidence_name : String
evidence_name = "7:1:sha256:00112233445566778899aabbccddeeff00112233445566778899aabbccddeeff"

deployed :
    deploy
      (loads evidence)
      str
      machine.sha256_hex
      arguments.source_sha
      image
      evidence_name
      (some (ok "evidence\n"))
    ≡ ok (inputs, some evidence)
unfolding deploy verify_given verify_evidence check_evidence validate_inputs match_reference
    match_evidence is_digest publish examine conclude write_files scanned applied_exceptions
    load_trivy_report enforce_findings should_block load_registry ids_of_type wait_for_signature
    resolve_attested_platform predicate_types image_manifest read_index check_predicates aws_json
deployed = refl

deploy-IsVerified_example :
    IsValidated arguments.source_sha image evidence_name inputs
    × IsVerified
        (loads evidence)
        str
        machine.sha256_hex
        arguments.source_sha
        image
        platform
        (ok "evidence\n")
deploy-IsVerified_example =
    deploy-IsVerified (loads evidence) str machine.sha256_hex arguments.source_sha image
      evidence_name (ok "evidence\n") deployed
