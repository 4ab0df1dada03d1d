-- ===== src/Ci/Images/Attestations.antt =====
-- `image_manifest` and `resolve_attested_platform` of tool/ci/ecr_image_policy.py: the one platform image of a
-- release index, and the predicates that its attestations have.
use base_backend.Prelude.{String, List, [], ◌∷◌, ◌++◌, string_eq}
use Prim.Native.String.{◌++◌ as ◌<>◌}
use base_backend.Errors.{Result, err, type_error}
use base_backend.Exec.{Exec, pure, lift, ◌>>=◌}
use base_backend.Ci.Json.{Json, text}
use base_backend.Ci.Images.{Event, Tools, aws_json}
use base_backend.Ci.Images.Manifests.{image_of, read_index, predicates_of, check_predicates}

abbrev pub index_types : List String
index_types =
    "application/vnd.oci.image.index.v1+json"
    ∷ "application/vnd.docker.distribution.manifest.list.v2+json"
    ∷ "application/vnd.oci.image.manifest.v1+json"
    ∷ "application/vnd.docker.distribution.manifest.v2+json" ∷ []

module _ (t : Tools) where
  -- `json.loads` of what is no text.
  abbrev loads_text : Json → Result Json
  loads_text (text s) = t.loads s
  loads_text _ = err type_error

  unfoldable pub image_manifest : String → String → List String → Exec (List Event) Json
  image_manifest repository digest media_types = do
    response ← aws_json t (
        "ecr"
        ∷ "batch-get-image"
        ∷ "--repository-name"
        ∷ repository
        ∷ "--image-ids"
        ∷ ("imageDigest=" <> digest)
        ∷ "--accepted-media-types"
        ∷ media_types)
    manifest ← lift (image_of response)
    lift (loads_text manifest)

  -- The loop over the attestations.
  unfoldable pub predicate_types : String → List Json → Exec (List Event) (List Json)
  predicate_types repository [] = pure []
  predicate_types repository (digest ∷ digests) = do
    manifest ←
        image_manifest repository (t.str digest) ("application/vnd.oci.image.manifest.v1+json" ∷ [])
    here ← lift (predicates_of manifest)
    rest ← predicate_types repository digests
    pure (here ++ rest)

  unfoldable pub resolve_attested_platform :
      String → String → Exec (List Event) (String × List String)
  resolve_attested_platform repository top_digest = do
    index ← image_manifest repository top_digest index_types
    (platform_digest, attestations) ← lift (read_index index)
    predicates ← predicate_types repository attestations
    names ← lift (check_predicates predicates)
    pure (platform_digest, names)
