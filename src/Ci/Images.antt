-- ===== src/Ci/Images.antt =====
-- tool/ci/ecr_image_policy.py. AWS, the JSON decoder, SHA-256 and the files are arguments. What AWS
-- answers may depend on all that the run did before.
pub mod Manifests
pub mod Attestations
pub mod Signing
pub mod Findings
pub mod Publish
use base_backend.Prelude.{
  ℕ, zero, suc, Bool, true, false, not, ◌&&◌, ◌||◌, Option, none, some, String, List, [], ◌∷◌, ◌++◌,
  is_none, contains, map, ◌==◌, string_eq, if◌then◌else◌,
}
use Prim.Native.String.{◌++◌ as ◌<>◌}
use base_backend.Errors.{Result, ok, err, runtime_error}
use base_backend.Exec.{Exec, pure, raise, raise_if, lift, modify, ◌>>=◌, ◌>>◌}
use base_backend.Ci.Json.{
  Json, null, text, texts, array, list_of, get, get_or, iterate, is_text, or_else, object,
  no_fields, no_items,
}

-- What a run does that AWS can see, and its waits.
pub data Event : Type 0 where
  called : List String → Event
  slept : Event

-- `subprocess.run` of the AWS CLI: whether it failed, and its output.
pub record Completed : Type 0 where
  pub failed : Bool
  pub stdout : String

-- What the policy uses: the AWS CLI, `json.loads`, and `str` of a value.
pub record Tools : Type 0 where
  pub aws : List Event → List String → Result Completed
  pub loads : String → Result Json
  pub str : Json → String

module _ (t : Tools) where
  abbrev output : Completed → Result Json
  output c = if c.failed then err runtime_error else t.loads c.stdout

  abbrev completed : Result Completed → Result Json
  completed (err e) = err e
  completed (ok c) = output c

  unfoldable pub aws_json : List String → Exec (List Event) Json
  aws_json arguments events = (completed (t.aws events arguments), called arguments ∷ events)
