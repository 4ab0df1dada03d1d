-- ===== src/Ci/Images/Findings.antt =====
-- `enforce_findings` of tool/ci/ecr_image_policy.py, on the identifiers of the exceptions for images, and
-- `load_trivy_report`. `strip` is `str.strip`.
pub mod Enforced
use base_backend.Prelude.{
  Bool, true, false, not, ◌||◌, Option, none, some, String, List, [], ◌∷◌, ◌++◌, contains, ◌==◌,
  string_eq, map, if◌then◌else◌,
}
use base_backend.Errors.{Result, ok, err, runtime_error, type_error}
use base_backend.Ci.Results.{map_results, ◌>>=◌, ◌>>◌}
use base_backend.Ci.Json.{
  Json, null, text, array, no_items, get, get_or, iterate, or_else, is_member, as_str,
}
use base_backend.Ci.TextSets.{add}

pub record Blocked : Type 0 where
  pub id : Json
  pub severity : Json
  pub fixed_version : String

-- `blocked` and `applied`.
pub record Findings : Type 0 where
  pub blocked : List Blocked
  pub applied : List String

abbrev pub is_severe : String → Bool
is_severe s = s == "CRITICAL" || s == "HIGH"

module _ (strip : String → String) where
  -- `bool(fixed_version.strip())`
  abbrev is_fixed : Json → Result Bool
  is_fixed fixed_version = do version ← as_str fixed_version; ok (not (strip version == ""))

  -- `finding.get("FixedVersion") or ""`
  abbrev pub fixed_version_of : Json → Result Json
  fixed_version_of finding = do version ← get "FixedVersion" finding; ok (or_else version (text ""))

  unfoldable pub should_block : Json → Result Bool
  should_block finding = do
    fixed_version ← fixed_version_of finding
    severity ← get "Severity" finding
    severe ← is_member is_severe severity
    elim severe [ false ↦ ok false | true ↦ is_fixed fixed_version ]

  module _ (exceptions : List String) where
    abbrev pub identifier : Json → Result Json
    identifier = get_or "VulnerabilityID" (text "unknown")

    -- What a finding that blocks adds: to `applied` if an exception names it, and else to `blocked`.
    abbrev pub add_applied : Json → Findings → Findings
    add_applied (text id) f = record f { applied = add id f.applied }
    add_applied _ f = f

    abbrev pub note : Json → Findings → Result Findings
    note finding f = do
      id ← identifier finding
      known ← is_member (contains exceptions) id
      fixed_version ← fixed_version_of finding
      version ← as_str fixed_version
      severity ← get_or "Severity" (text "UNKNOWN") finding
      let b : Blocked = record { id = id; severity = severity; fixed_version = version }
      ok (if known then add_applied id f else record f { blocked = f.blocked ++ (b ∷ []) })

    -- The body of the inner loop.
    abbrev pub check_finding : Json → Findings → Result Findings
    check_finding finding f = do
      id ← identifier finding
      blocks ← should_block finding
      elim blocks [ false ↦ ok f | true ↦ note finding f ]

    abbrev pub check_findings : List Json → Findings → Result Findings
    check_findings [] f = ok f
    check_findings (x ∷ xs) f = check_finding x f >>= check_findings xs

    -- `result.get("Vulnerabilities") or []`
    abbrev pub vulnerabilities : Json → Result (List Json)
    vulnerabilities result = do
      found ← get "Vulnerabilities" result
      iterate (or_else found (array no_items))

    abbrev pub check_results : List Json → Findings → Result Findings
    check_results [] f = ok f
    check_results (r ∷ rs) f = do
      xs ← vulnerabilities r
      g ← check_findings xs f
      check_results rs g

    abbrev text_or_type_error : Json → Result String
    text_or_type_error (text s) = ok s
    text_or_type_error _ = err type_error

    -- `", ".join(...)` of the message raises where an identifier is no text.
    abbrev pub joined_ids : List Blocked → Result (List String)
    joined_ids [] = ok []
    joined_ids (b ∷ bs) = text_or_type_error b.id >>= λ s. joined_ids bs >>= λ ss. ok (s ∷ ss)

    abbrev pub refuse : List Blocked → Findings → Result Findings
    refuse [] f = ok f
    refuse (b ∷ bs) f = joined_ids (b ∷ bs) >>= λ _. err runtime_error

    -- `if blocked: raise`
    abbrev pub refuse_blocked : Findings → Result Findings
    refuse_blocked f = refuse f.blocked f

    abbrev pub results_of : Json → Result (List Json)
    results_of report = do results ← get_or "Results" (array no_items) report; iterate results

    unfoldable pub enforce_findings : Json → Result Findings
    enforce_findings report = do
      results ← results_of report
      f ← check_results results (record { blocked = []; applied = [] })
      refuse_blocked f
