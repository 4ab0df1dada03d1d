-- ===== src/Ci/Images/Signing.antt =====
-- `wait_for_signature` of tool/ci/ecr_image_policy.py: the status of the managed signing is asked for at most
-- `attempts` times, with a wait between two of them. A negative number of attempts is 0 here.
pub mod Waiting
pub mod Signed
use base_backend.Prelude.{
  ℕ, zero, suc, Bool, true, false, not, Option, none, some, String, List, [], ◌∷◌, ◌==◌, string_eq,
  if◌then◌else◌,
}
use Prim.Native.String.{◌++◌ as ◌<>◌}
use base_backend.Errors.{Result, ok, err, runtime_error}
use base_backend.Exec.{Exec, pure, lift, raise, ◌>>=◌, ◌>>◌}
use base_backend.Ci.Results.{collect}
use base_backend.Ci.Results
use base_backend.Ci.Json.{Json, array, no_items, get, get_or, iterate, is_text}
use base_backend.Ci.Images.{Event, slept, Tools, aws_json}

-- `status.get("signingProfileArn") == signing_profile_arn`
abbrev pub if_of_profile : String → Json → Result (Option Json)
if_of_profile arn status =
    Results.◌>>=◌ (get "signingProfileArn" status)
      λ profile. ok (if is_text arn profile then some status else none)

abbrev pub statuses_of : String → Json → Result (List Json)
statuses_of arn result =
    Results.◌>>=◌ (get_or "signingStatuses" (array no_items) result)
      λ statuses. Results.◌>>=◌ (iterate statuses) (collect (if_of_profile arn))

pub data Verdict : Type 0 where
  complete : Json → Verdict
  pending : Verdict

-- The tests of the first status, in their order.
abbrev pub verdict_on : Json → Json → Result Verdict
verdict_on first status =
    if is_text "COMPLETE" status
    then ok (complete first)
    else if is_text "FAILED" status
    then err runtime_error
    else if is_text "IN_PROGRESS" status
    then ok pending
    else err runtime_error

abbrev pub judge : List Json → Result Verdict
judge [] = ok pending
judge (first ∷ _) = Results.◌>>=◌ (get "status" first) (verdict_on first)

-- What an answer of ECR says of the signing with the profile.
abbrev pub verdict_of : String → Json → Result Verdict
verdict_of arn result = Results.◌>>=◌ (statuses_of arn result) judge

abbrev pub sleep : Exec (List Event) (Unit {0})
sleep events = (ok tt, slept ∷ events)

-- `if attempt < attempts: time.sleep(delay)`, with the number of attempts that are left.
abbrev pub wait_if_left : ℕ → Exec (List Event) (Unit {0})
wait_if_left zero = pure tt
wait_if_left (suc left) = sleep

module _ (t : Tools) (repository digest signing_profile_arn : String) where
  abbrev pub ask : Exec (List Event) Json
  ask = aws_json t (
      "ecr"
      ∷ "describe-image-signing-status"
      ∷ "--repository-name"
      ∷ repository
      ∷ "--image-id"
      ∷ ("imageDigest=" <> digest)
      ∷ [])

  -- What follows the tests of an attempt, where `rest` are the later attempts.
  abbrev pub go_on : ℕ → Exec (List Event) Json → Verdict → Exec (List Event) Json
  go_on left rest (complete status) = pure status
  go_on left rest pending = wait_if_left left >> rest

  -- `attempts` counts the attempts that are left.
  unfoldable pub wait_for_signature : ℕ → Exec (List Event) Json
  wait_for_signature zero = raise runtime_error
  wait_for_signature (suc left) = do
    result ← ask
    verdict ← lift (verdict_of signing_profile_arn result)
    go_on left (wait_for_signature left) verdict
