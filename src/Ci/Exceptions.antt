-- ===== src/Ci/Exceptions.antt =====
-- tool/ci/security_exceptions.py: the registry of security exceptions. The text of the file, `json.loads`,
-- `date.fromisoformat` and the day are arguments; a day is its number.
pub mod Valid
use package.text.Mathlib.Text.{starts_with}
use base_backend.Prelude.{
  ℕ, Bool, true, false, not, ◌&&◌, ◌||◌, Option, none, some, is_some, String, List, [], ◌∷◌, ◌++◌,
  contains, ltb, ◌==◌, string_eq, map, if◌then◌else◌,
}
use Prim.Native.String.{◌++◌ as ◌<>◌}
use base_backend.Errors.{Result, ok, err, value_error}
use base_backend.Ci.Results.{raise_if, map_results, ◌>>=◌, ◌>>◌}
use base_backend.Ci.Json.{
  Json, null, text, array, object, no_items, Fields, list_of, lookup, value_or, get, is_number,
  is_member,
}

-- What the code reads of an entry that it has accepted.
pub record ExceptionEntry : Type 0 where
  pub kind : String
  pub id : String
  pub reason : String
  pub owner : String
  pub task : String
  pub expires_on : String
  pub paths : List String

abbrev pub allowed_types : List String
allowed_types = "configuration" ∷ "image_vulnerability" ∷ "python_dependency" ∷ []

abbrev required_fields : List String
required_fields = "type" ∷ "id" ∷ "reason" ∷ "owner" ∷ "task" ∷ "expires_on" ∷ []

abbrev pub all {ℓ} : {A : Type ℓ} → (A → Bool) → List A → Bool
all p [] = true
all p (x ∷ xs) = p x && all p xs

abbrev pub any {ℓ} : {A : Type ℓ} → (A → Bool) → List A → Bool
any p [] = false
any p (x ∷ xs) = p x || any p xs

-- The text, where the value is one, and else the empty text, which no required field may be.
abbrev pub text_or_empty : Json → String
text_or_empty (text s) = s
text_or_empty _ = ""

abbrev pub str_field : String → Fields → String
str_field k fields = text_or_empty (value_or null (lookup k fields))

-- `isinstance(paths, list) and all(isinstance(path, str) and path for path in paths)`
abbrev pub paths_of : Json → Result (List String)
paths_of (array items) =
    if all (λ x. not (text_or_empty x == "")) (list_of items)
    then ok (map text_or_empty (list_of items))
    else err value_error
paths_of _ = err value_error

abbrev pub is_empty : List String → Bool
is_empty [] = true
is_empty (_ ∷ _) = false

abbrev pub same_texts : List String → List String → Bool
same_texts [] [] = true
same_texts [] (y ∷ ys) = false
same_texts (x ∷ xs) [] = false
same_texts (x ∷ xs) (y ∷ ys) = x == y && same_texts xs ys

-- Two entries with the same key.
abbrev pub same_key : ExceptionEntry → ExceptionEntry → Bool
same_key e f = e.kind == f.kind && (e.id == f.id && same_texts e.paths f.paths)

-- `entry.keys()` and the fields that are there.
abbrev pub has_required : Fields → Bool
has_required fields = all (λ k. is_some (lookup k fields)) required_fields

abbrev pub has_texts : Fields → Bool
has_texts fields = all (λ k. not (str_field k fields == "")) required_fields

abbrev pub entry_of : Fields → List String → ExceptionEntry
entry_of fields paths = record {
  kind = str_field "type" fields;
  id = str_field "id" fields;
  reason = str_field "reason" fields;
  owner = str_field "owner" fields;
  task = str_field "task" fields;
  expires_on = str_field "expires_on" fields;
  paths = paths;
}

module _ (fromisoformat : String → Result ℕ) (today : ℕ) where
  -- The tests of the loop on one entry, up to the one for a duplicate.
  abbrev pub check_fields : Fields → Result ExceptionEntry
  check_fields fields = do
    raise_if (not (has_required fields)) value_error
    allowed ← is_member (contains allowed_types) (value_or null (lookup "type" fields))
    raise_if (not allowed) value_error
    raise_if (not (has_texts fields)) value_error
    raise_if (not (starts_with (str_field "owner" fields) "@")) value_error
    raise_if (not (starts_with (str_field "task" fields) "docs/security-remediation.md#"))
        value_error
    expires_on ← fromisoformat (str_field "expires_on" fields)
    raise_if (ltb expires_on today) value_error
    paths ← paths_of (value_or (array no_items) (lookup "paths" fields))
    raise_if (str_field "type" fields == "configuration" && is_empty paths) value_error
    ok (entry_of fields paths)

  abbrev pub check_entry : Json → Result ExceptionEntry
  check_entry (object fields) = check_fields fields
  check_entry _ = err value_error

  -- `seen` has the keys of the entries in `exceptions`.
  abbrev pub load_entries : List Json → List ExceptionEntry → Result (List ExceptionEntry)
  load_entries [] exceptions = ok exceptions
  load_entries (x ∷ xs) exceptions = do
    entry ← check_entry x
    raise_if (any (same_key entry) exceptions) value_error
    load_entries xs (exceptions ++ (entry ∷ []))

  abbrev pub listed_entries : Json → Result (List Json)
  listed_entries (array items) = ok (list_of items)
  listed_entries _ = err value_error

  unfoldable pub load_registry :
      Result String → (String → Result Json) → Result (List ExceptionEntry)
  load_registry read_text loads = do
    content ← read_text
    document ← loads content
    version ← get "schema_version" document
    raise_if (not (is_number 1 version)) value_error
    exceptions ← get "exceptions" document
    entries ← listed_entries exceptions
    load_entries entries []

-- The identifiers of the entries of a type, in their order: `python-ids` prints those of
-- `python_dependency`, and dependency_audit.py passes each of them on.
unfoldable pub ids_of_type : String → List ExceptionEntry → List String
ids_of_type kind [] = []
ids_of_type kind (e ∷ es) =
    let rest = ids_of_type kind es in if e.kind == kind then e.id ∷ rest else rest

-- The arguments `--ignore-vuln` of `pip_audit`.
abbrev pub ignore_arguments : List String → List String
ignore_arguments [] = []
ignore_arguments (id ∷ ids) = "--ignore-vuln" ∷ id ∷ ignore_arguments ids

-- `write_trivy_ignore`: the lines of one entry, on `escape`, which is `.replace('"', '\"')`.
module _ (escape : String → String) where
  abbrev pub ignore_lines : ExceptionEntry → List String
  ignore_lines e =
      let statement =
        escape (e.reason <> (" Owner: " <> (e.owner <> (". Task: " <> (e.task <> "."))))) in
      (("  - id: " <> e.id) ∷ "    paths:" ∷ [])
      ++ (map (λ path. "      - \"" <> (path <> "\"")) e.paths
          ++ (("    statement: \"" <> (statement <> "\""))
              ∷ ("    expired_at: " <> e.expires_on)
              ∷ []))

  unfoldable pub trivy_ignore_lines : List ExceptionEntry → List String
  trivy_ignore_lines [] = []
  trivy_ignore_lines (e ∷ es) =
      let rest = trivy_ignore_lines es in
      if e.kind == "configuration" then ignore_lines e ++ rest else rest
