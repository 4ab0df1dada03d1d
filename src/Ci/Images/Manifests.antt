-- ===== src/Ci/Images/Manifests.antt =====
-- What `image_manifest` and `resolve_attested_platform` of tool/ci/ecr_image_policy.py read from an answer of
-- ECR, from the index of a release, and from the manifest of an attestation.
use base_backend.Prelude.{
  Bool, true, false, ◌&&◌, Option, none, some, String, List, [], ◌∷◌, contains, ◌==◌, string_eq,
  nat_eq, if◌then◌else◌,
}
use Prim.Native.String.{count}
use base_backend.Errors.{Result, ok, err, runtime_error, type_error, key_error}
use base_backend.Ci.Results.{raise_if, collect, map_results, ◌>>=◌, ◌>>◌}
use base_backend.Ci.Json.{
  Json, text, array, object, no_fields, field, no_items, item, list_of, get, get_or, entry, iterate,
  truthy, is_text, as_str,
}
use base_backend.Ci.Patterns.{is_digest}
use base_backend.Ci.TextSets.{set_of, any_starts_with}

-- `len(images) != 1` raises, and `images[0]` is the image. A dict has no key 0, and a character of a text is
-- no image.
abbrev pub only_image : Json → Result Json
only_image (array (item x no_items)) = ok x
only_image (array no_items) = err runtime_error
only_image (array (item x (item y rest))) = err runtime_error
only_image (object no_fields) = err runtime_error
only_image (object (field k x no_fields)) = err key_error
only_image (object (field k x (field j y rest))) = err runtime_error
only_image (text s) = if count s == 1 then err type_error else err runtime_error
only_image _ = err type_error

abbrev pub image_of : Json → Result Json
image_of response = do
  failures ← get_or "failures" (array no_items) response
  raise_if (truthy failures) runtime_error
  images ← get_or "images" (array no_items) response
  image ← only_image images
  entry "imageManifest" image

-- `value.get(outer, {}).get(key)`
abbrev pub get_in : String → String → Json → Result Json
get_in outer key value = do inner ← get_or outer (object no_fields) value; get key inner

-- `[descriptor["digest"] for descriptor in manifests if ...]`: the second condition is asked only if the
-- first one holds.
abbrev pub digest_if : Json → Bool → Result (Option Json)
digest_if descriptor false = ok none
digest_if descriptor true = do digest ← entry "digest" descriptor; ok (some digest)

abbrev pub has_both : String → String → String → String → String → Json → Result Bool
has_both outer k a j b descriptor = do
  first ← get_in outer k descriptor
  elim (is_text a first) [
    | false ↦ ok false
    | true ↦ get_in outer j descriptor >>= λ second. ok (is_text b second)
  ]

abbrev pub platform_digests : List Json → Result (List Json)
platform_digests manifests =
    collect (λ d. has_both "platform" "os" "linux" "architecture" "amd64" d >>= digest_if d)
      manifests

abbrev pub only_digest : List Json → Result String
only_digest (text s ∷ []) = if is_digest s then ok s else err runtime_error
only_digest (_ ∷ []) = err type_error
only_digest _ = err runtime_error

abbrev pub attestation_digests : String → List Json → Result (List Json)
attestation_digests platform_digest manifests =
    collect
      (λ d.
        has_both "annotations" "vnd.docker.reference.digest" platform_digest
          "vnd.docker.reference.type" "attestation-manifest" d
        >>= digest_if d)
      manifests

-- `isinstance(manifests, list)`
abbrev manifest_list : Json → Result (List Json)
manifest_list (array items) = ok (list_of items)
manifest_list _ = err runtime_error

-- `if not attestation_digests: raise`
abbrev some_digests : List Json → Result (List Json)
some_digests [] = err runtime_error
some_digests (x ∷ xs) = ok (x ∷ xs)

-- The digest of the one platform of an index, and those of its attestations.
unfoldable pub read_index : Json → Result (String × List Json)
read_index index = do
  listed ← get "manifests" index
  manifests ← manifest_list listed
  platforms ← platform_digests manifests
  platform_digest ← only_digest platforms
  found ← attestation_digests platform_digest manifests
  attestations ← some_digests found
  ok (platform_digest, attestations)

-- `predicate_types.add(predicate)`: what has no hash raises.
abbrev pub hashable : Json → Result Json
hashable (array _) = err type_error
hashable (object _) = err type_error
hashable x = ok x

abbrev pub predicate_if : Json → Result (Option Json)
predicate_if predicate =
    if truthy predicate then (hashable predicate >>= λ p. ok (some p)) else ok none

-- The predicates of one manifest.
abbrev pub predicates_of : Json → Result (List Json)
predicates_of manifest = do
  layers ← get_or "layers" (array no_items) manifest
  layers ← iterate layers
  collect (λ layer. get_in "annotations" "in-toto.io/predicate-type" layer >>= predicate_if) layers

-- The check of the predicates. A predicate that is no text makes `startswith` or `sorted` raise.
abbrev pub attested : List String → Result (List String)
attested predicate_types =
    if contains predicate_types "https://spdx.dev/Document"
      && any_starts_with "https://slsa.dev/provenance/" predicate_types
    then ok predicate_types
    else err runtime_error

unfoldable pub check_predicates : List Json → Result (List String)
check_predicates predicates = do names ← map_results as_str predicates; attested (set_of names)
