-- ===== src/Tests/Release.antt =====
-- The documents of a release that the policies of tool/ci let pass, and the tools of its run.
use base_backend.Prelude.{true, false, none, String, List, [], ◌∷◌, ◌==◌, string_eq, if◌then◌else◌}
use base_backend.Errors.{Result, ok, err}
use base_backend.Ci.Json.{
  Json, null, number, text, array, object, Items, no_items, item, Fields, no_fields, field,
}
use base_backend.Ci.Images.{Event, called, slept, Tools}
use base_backend.Ci.Images.Publish.{Arguments, Machine, Run}

abbrev pub items : List Json → Items
items [] = no_items
items (x ∷ xs) = item x (items xs)

abbrev pub fields : List (String × Json) → Fields
fields [] = no_fields
fields ((k, x) ∷ rest) = field k x (fields rest)

abbrev pub dict : List (String × Json) → Json
dict rest = object (fields rest)

abbrev pub list : List Json → Json
list xs = array (items xs)

abbrev pub hash : String
hash = "00112233445566778899aabbccddeeff00112233445566778899aabbccddeeff"

abbrev pub platform : String
platform = "sha256:00112233445566778899aabbccddeeff00112233445566778899aabbccddeeff"

abbrev pub image_answer : String → Json
image_answer manifest =
    dict (("images", list (dict (("imageManifest", text manifest) ∷ []) ∷ [])) ∷ [])

abbrev pub index : Json
index = dict (
    (
      "manifests",
      list (
          dict (
            ("digest", text platform)
            ∷ ("platform", dict (("os", text "linux") ∷ ("architecture", text "amd64") ∷ []))
            ∷ [])
          ∷ dict (
              ("digest", text "attestation")
              ∷ (
                "annotations",
                dict (
                    ("vnd.docker.reference.digest", text platform)
                    ∷ ("vnd.docker.reference.type", text "attestation-manifest")
                    ∷ []),
              )
              ∷ [])
          ∷ []),
    )
    ∷ [])

abbrev pub layer : String → Json
layer predicate =
    dict (("annotations", dict (("in-toto.io/predicate-type", text predicate) ∷ [])) ∷ [])

abbrev pub attestation : Json
attestation = dict (
    (
      "layers",
      list (layer "https://spdx.dev/Document" ∷ layer "https://slsa.dev/provenance/v1" ∷ []),
    )
    ∷ [])

abbrev pub finding : String → String → String → Json
finding id severity fixed =
    dict (
      ("VulnerabilityID", text id)
      ∷ ("Severity", text severity)
      ∷ ("FixedVersion", text fixed)
      ∷ [])

-- A severe finding that an exception names, one without a fixed version, and one that is not severe.
abbrev pub report : Json
report = dict (
    ("SchemaVersion", number 2)
    ∷ ("ArtifactName", text platform)
    ∷ (
      "Results",
      list (
          dict (
            (
              "Vulnerabilities",
              list (
                  finding "CVE-1" "HIGH" "1.2"
                  ∷ finding "CVE-2" "CRITICAL" ""
                  ∷ finding "CVE-3" "LOW" "2"
                  ∷ []),
            )
            ∷ [])
          ∷ dict []
          ∷ []),
    )
    ∷ [])

abbrev pub registry : Json
registry = dict (
    ("schema_version", number 1)
    ∷ (
      "exceptions",
      list (
          dict (
            ("type", text "image_vulnerability")
            ∷ ("id", text "CVE-1")
            ∷ ("reason", text "no release yet")
            ∷ ("owner", text "@team")
            ∷ ("task", text "docs/security-remediation.md#cve-1")
            ∷ ("expires_on", text "2030-01-01")
            ∷ [])
          ∷ []),
    )
    ∷ [])

abbrev pub signing : String → Json
signing status = dict (
    (
      "signingStatuses",
      list (
          dict (("signingProfileArn", text "arn:aws:signer:1") ∷ ("status", text status) ∷ [])
          ∷ []),
    )
    ∷ [])

-- AWS gives the index, the attestation, and then the status, which is complete after one wait.
abbrev pub answer : List Event → String
answer [] = "index answer"
answer (_ ∷ []) = "attestation answer"
answer (called _ ∷ _) = "in progress"
answer (slept ∷ _) = "complete"

abbrev pub loads : Json → String → Result Json
loads other s =
    if s == "index answer"
    then ok (image_answer "index")
    else if s == "attestation answer"
    then ok (image_answer "attestation")
    else if s == "index"
    then ok index
    else if s == "attestation"
    then ok attestation
    else if s == "in progress"
    then ok (signing "IN_PROGRESS")
    else if s == "complete"
    then ok (signing "COMPLETE")
    else if s == "registry"
    then ok registry
    else if s == "report"
    then ok report
    else ok other

abbrev pub str : Json → String
str (text s) = s
str _ = ""

abbrev pub tools : Json → Tools
tools other = record {
  aws = λ events arguments. ok (record { failed = false; stdout = answer events });
  loads = loads other;
  str = str;
}

abbrev pub machine_with : Json → Machine
machine_with other = record {
  tools = tools other;
  isdecimal = λ s. true;
  strip = λ s. s;
  dumps = λ j. "evidence";
  sha256_hex = λ s. hash;
  now = "2029-01-01";
  fromisoformat = λ s. ok 100;
  today = 50;
  registry = ok "registry";
  report = ok "report";
  write_evidence = ok tt;
  write_outputs = ok tt;
}

abbrev pub arguments : Arguments
arguments = record {
  repository = "backend";
  repository_uri = "123456789012.dkr.ecr.eu-west-1.amazonaws.com/backend";
  source_sha = "00112233445566778899aabbccddeeff00112233";
  run_id = "7";
  run_attempt = "1";
  top_digest = platform;
  trivy_version = "0.50";
  signing_profile_arn = "arn:aws:signer:1";
  attempts = 3;
}

abbrev pub start : Run
start = record { events = []; evidence = none; outputs = none }

abbrev pub json_or_null : Result Json → Json
json_or_null (ok j) = j
json_or_null (err e) = null
