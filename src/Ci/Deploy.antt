-- ===== src/Ci/Deploy.antt =====
-- tool/ci/deploy_policy.py: `validate_inputs`, `verify_evidence` and what `main` makes of them. The file, `json.loads`, `str` of a value and
-- SHA-256 are arguments.
pub mod Validated
pub mod Checked
pub mod Accepted
pub mod Verified
use package.text.Mathlib.Text.{starts_with}
use base_backend.Prelude.{
  ℕ, zero, suc, Bool, true, false, not, ◌&&◌, ◌||◌, Option, none, some, is_some, String, List, [],
  ◌∷◌, ◌==◌, string_eq, nat_eq, if◌then◌else◌,
}
use Prim.Native.String.{count, ◌++◌ as ◌<>◌}
use base_backend.Errors.{Result, ok, err, value_error}
use base_backend.Ci.Results.{raise_if, map_results, ◌>>=◌, ◌>>◌}
use base_backend.Ci.Json.{Json, text, array, no_items, get, get_or, iterate, is_text, as_str}
use base_backend.Ci.Patterns.{
  is_digit, is_region_character, is_path_character, span, is_run, drop_prefix, is_git_sha,
  is_digest,
}
use base_backend.Ci.Exceptions.{any}
use base_backend.Ci.Images.Manifests.{hashable}

-- The dict that `validate_inputs` returns.
pub record Inputs : Type 0 where
  pub repository : String
  pub image_digest : String
  pub evidence_run_id : String
  pub evidence_run_attempt : String
  pub evidence_digest : String

abbrev pub or_refused : Option String → Result String
or_refused none = err value_error
or_refused (some s) = ok s

abbrev pub not_empty : String → Bool
not_empty s = not (s == "")

-- The groups of `REFERENCE_PATTERN`: the repository and the digest. The account has 12 digits, the region and
-- the path are not empty, and `.cn` may follow the domain.
abbrev pub without : String → String → Result String
without prefix s = or_refused (drop_prefix prefix s)

abbrev pub without_cn : String → String
without_cn s = elim (drop_prefix ".cn" s) [ none ↦ s | some rest ↦ rest ]

abbrev pub is_host : String → Result String
is_host s = do
  let (account, domain) = span is_digit s
  raise_if (not (count account == 12)) value_error
  region ← without ".dkr.ecr." domain
  let (name, service) = span is_region_character region
  raise_if (not (not_empty name)) value_error
  rest ← without ".amazonaws.com" service
  path ← without "/" (without_cn rest)
  raise_if (not (not_empty path && is_run is_path_character (count path) path)) value_error
  ok s

-- A text up to its first `@`, and what follows it.
abbrev pub is_not_at : ℕ → Bool
is_not_at c = not (c == b'@')

unfoldable pub match_reference : String → Result (String × String)
match_reference s = do
  let (repository, rest) = span is_not_at s
  host ← is_host repository
  digest ← without "@" rest
  raise_if (not (is_digest digest)) value_error
  ok (repository, digest)

-- The groups of `EVIDENCE_ID_PATTERN`.
unfoldable pub match_evidence : String → Result (String × (String × String))
match_evidence s = do
  let (run_id, later) = span is_digit s
  raise_if (not (not_empty run_id)) value_error
  next ← without ":" later
  let (run_attempt, last) = span is_digit next
  raise_if (not (not_empty run_attempt)) value_error
  digest ← without ":" last
  raise_if (not (is_digest digest)) value_error
  ok (run_id, (run_attempt, digest))

unfoldable pub validate_inputs : String → String → String → Result Inputs
validate_inputs source_sha image_reference evidence_id = do
  raise_if (not (is_git_sha source_sha)) value_error
  (repository, digest) ← match_reference image_reference
  (run_id, (run_attempt, evidence_digest)) ← match_evidence evidence_id
  ok (record {
    repository = repository;
    image_digest = digest;
    evidence_run_id = run_id;
    evidence_run_attempt = run_attempt;
    evidence_digest = evidence_digest;
  })

abbrev pub found_or : Bool → Result Bool → Result Bool
found_or true later = ok true
found_or false later = later

-- `any(value.startswith(prefix) for value in predicates)`, in the order of the list that the set came from.
abbrev pub any_str_starts_with : String → List Json → Result Bool
any_str_starts_with prefix [] = ok false
any_str_starts_with prefix (x ∷ xs) = do
  s ← as_str x
  found_or (starts_with s prefix) (any_str_starts_with prefix xs)

-- `has_sbom` and the provenance, which is asked for only if there is one.
abbrev pub is_attested : List Json → Result Bool
is_attested predicates = elim (any (is_text "https://spdx.dev/Document") predicates) [
  | false ↦ ok false
  | true ↦ any_str_starts_with "https://slsa.dev/provenance/" predicates
]

-- One turn of the loop over `expected`.
abbrev pub expect : String → String → Json → Result (Unit {0})
expect key value evidence = do
  found ← get key evidence
  raise_if (not (is_text value found)) value_error

module _ (loads : String → Result Json) (str : Json → String) (sha256_hex : String → String) where
  -- The tests of the parsed evidence.
  unfoldable pub check_evidence : String → String → Json → Result Json
  check_evidence source_sha image_reference evidence = do
    expect "source_sha" source_sha evidence
    expect "image_reference" image_reference evidence
    expect "signing_status" "COMPLETE" evidence
    scanner ← get_or "scanner" (text "") evidence
    raise_if (not (starts_with (str scanner) "Trivy ")) value_error
    digest ← get_or "scan_report_digest" (text "") evidence
    raise_if (not (is_digest (str digest))) value_error
    listed ← get_or "attestation_predicate_types" (array no_items) evidence
    values ← iterate listed
    predicates ← map_results hashable values
    attested ← is_attested predicates
    raise_if (not attested) value_error
    ok evidence

  unfoldable pub verify_evidence : Result String → String → String → String → Result Json
  verify_evidence file source_sha image_reference expected_digest = do
    content ← file
    raise_if (not (("sha256:" <> sha256_hex content) == expected_digest)) value_error
    evidence ← loads content
    check_evidence source_sha image_reference evidence

  -- `if args.evidence is not None`
  unfoldable pub verify_given :
      Option (Result String) → String → String → String → Result (Option Json)
  verify_given none source_sha image_reference digest = ok none
  verify_given (some file) source_sha image_reference digest = do
    evidence ← verify_evidence file source_sha image_reference digest
    ok (some evidence)

  -- The body of `main`, up to the file of the outputs, with the evidence that was read.
  unfoldable pub deploy :
      String → String → String → Option (Result String) → Result (Inputs × Option Json)
  deploy source_sha image_reference evidence_id file = do
    values ← validate_inputs source_sha image_reference evidence_id
    evidence ← verify_given file source_sha image_reference values.evidence_digest
    ok (values, evidence)
