-- ===== src/Ci/Images/Publish/Resolved.antt =====
-- What a platform that is resolved, and a report that is loaded, are.
use base_backend.Prelude.{
  ◌≡◌, refl, sym, ap, subst, inl, inr, Bool, true, false, not, ◌&&◌, String, List, contains,
  Bool-cases, string_eq,
}
use base_backend.Errors.{Result, ok, err, runtime_error}
use base_backend.Exec.{lift}
use base_backend.Exec.Inversion.{Returns, bind-ok, pure-Returns}
use base_backend.Ci.Results.{ok-injective, map_results, raise_if, bind-ok as chain-ok}
use base_backend.Ci.Json.{Json, get, as_str, is_number}
use base_backend.Ci.TextSets.{set_of, any_starts_with}
use base_backend.Ci.Images.{Event, Tools}
use base_backend.Ci.Images.Manifests.{read_index, attested, check_predicates}
use base_backend.Ci.Images.Attestations.{
  index_types, image_manifest, predicate_types, resolve_attested_platform,
}
use base_backend.Ci.Images.Publish.{Machine, digest_of, references, linked, load_trivy_report}

-- The predicates name an SBOM and a provenance.
abbrev pub IsAttested : List String → Type 0
IsAttested names =
    (contains names "https://spdx.dev/Document" ≡ true)
    × (any_starts_with "https://slsa.dev/provenance/" names ≡ true)

both : (a b : Bool) → (a && b) ≡ true → (a ≡ true) × (b ≡ true)
both true b h = (refl, h)
both false b h = absurd (cc)

attested-IsAttested : (names : List String) {r : List String} → attested names ≡ ok r → IsAttested r
attested-IsAttested names {r} h =
    let sbom = contains names "https://spdx.dev/Document" in
    let provenance = any_starts_with "https://slsa.dev/provenance/" names in
    elim (Bool-cases (sbom && provenance)) [
      | inl yes_ ↦
          let same : ok names ≡ ok r = rw yes_ at h in
          subst IsAttested (ok-injective same) (both sbom provenance yes_)
      | inr no_ ↦ let raised : err runtime_error ≡ ok r = rw no_ at h in absurd (cc)
    ]

check_predicates-IsAttested :
    (xs : List Json) {r : List String} → check_predicates xs ≡ ok r → IsAttested r
unfolding check_predicates
check_predicates-IsAttested xs h =
    let (names, _, h1) = chain-ok (map_results as_str xs) _ h in
    attested-IsAttested (set_of names) h1

module _ (t : Tools) where
  -- The predicates of a platform that is resolved name an SBOM and a provenance.
  pub resolve_attested_platform-IsAttested :
      (repository top_digest : String) (events : List Event) {p : String × List String}
      {events' : List Event}
      → Returns (resolve_attested_platform t repository top_digest) events p events'
      → IsAttested p.1
  unfolding resolve_attested_platform
  resolve_attested_platform-IsAttested repository top_digest events h =
      let (index, s1, _, h1) =
        bind-ok (image_manifest t repository top_digest index_types) _ events h in
      let (read, s2, _, h2) = bind-ok (lift (read_index index)) _ s1 h1 in
      let (predicates, s3, _, h3) = bind-ok (predicate_types t repository read.1) _ s2 h2 in
      let (names, s4, e, h4) = bind-ok (lift (check_predicates predicates)) _ s3 h3 in
      let (same, _) = pure-Returns (read.0, names) s4 h4 in
      subst (λ (x : String × List String). IsAttested x.1) same
        (check_predicates-IsAttested predicates
          (ap (λ (x : Result (List String) × List Event). x.0) e))

module _ (m : Machine) where
  -- The digest of a report that is loaded is a SHA-256 digest of some text.
  pub load_trivy_report-digest :
      (platform : String) {r : Json × String}
      → load_trivy_report m platform ≡ ok r
      → (content : String) × (r.1 ≡ digest_of m content)
  unfolding load_trivy_report
  load_trivy_report-digest platform h =
      let (content, _, h1) = chain-ok m.report _ h in
      let (report, _, h2) = chain-ok (m.tools.loads content) _ h1 in
      let (version, _, h3) = chain-ok (get "SchemaVersion" report) _ h2 in
      let (_, _, h4) = chain-ok (raise_if (not (is_number 2 version)) runtime_error) _ h3 in
      let (names, _, h5) = chain-ok (references m report) _ h4 in
      let (_, _, h6) = chain-ok (linked m platform names) _ h5 in
      (content, sym (ap (λ (x : Json × String). x.1) (ok-injective h6)))
