-- ===== src/Ci/Exceptions/Valid.antt =====
-- What the registry of security exceptions accepts.
use package.text.Mathlib.Text.{starts_with}
use base_backend.Prelude.{
  ℕ, suc, ◌≡◌, ◌≤◌, ◌⊎◌, inl, inr, refl, sym, ap, subst, ◌∙◌, Bool, true, false, not, ◌&&◌, String,
  List, [], ◌∷◌, ◌++◌, contains, ltb, ◌==◌, string_eq, arith,
}
use base_backend.Errors.{Result, ok, value_error}
use base_backend.Ci.Results.{raise_if, raise_if-ok, ok-injective, bind-ok}
use base_backend.Ci.Json.{
  Json, null, boolean, number, other_number, text, array, object, no_items, Fields, lookup,
  value_or, get, is_number, is_member,
}
use base_backend.Pagination.Listing.{All, length}
use base_backend.Ci.Exceptions.{
  ExceptionEntry, allowed_types, any, text_or_empty, has_required, has_texts, is_empty, entry_of,
  str_field, paths_of, same_key, check_fields, check_entry, load_entries, listed_entries,
  load_registry,
}

both : (a b : Bool) → (a && b) ≡ false → (a ≡ false) ⊎ (b ≡ false)
both true b h = inr h
both false b h = inl refl

negated : (b : Bool) → not b ≡ false → b ≡ true
negated true h = refl
negated false h = absurd (cc)

member_text : (p : String → Bool) (x : Json) → is_member p x ≡ ok true → p (text_or_empty x) ≡ true
member_text p (text s) h = ok-injective h
member_text p null h = absurd (cc)
member_text p (boolean _) h = absurd (cc)
member_text p (number _) h = absurd (cc)
member_text p (other_number _) h = absurd (cc)
member_text p (array _) h = absurd (cc)
member_text p (object _) h = absurd (cc)

filled_list :
    (ps : List String) → is_empty ps ≡ false → (p : String) × (qs : List String) × (ps ≡ p ∷ qs)
filled_list [] h = absurd (cc)
filled_list (p ∷ ps) h = (p, ps, refl)

append-nil : (xs : List ExceptionEntry) → xs ++ [] ≡ xs
append-nil [] = refl
append-nil (x ∷ xs) = ap (λ l. x ∷ l) (append-nil xs)

append_assoc : (xs ys zs : List ExceptionEntry) → (xs ++ ys) ++ zs ≡ xs ++ (ys ++ zs)
append_assoc [] ys zs = refl
append_assoc (x ∷ xs) ys zs = ap (λ l. x ∷ l) (append_assoc xs ys zs)

module _ (fromisoformat : String → Result ℕ) (today : ℕ) where
  -- An entry of an allowed type that has an owner and has not expired, and that names its paths if it is
  -- one for the configuration.
  pub record IsValid (e : ExceptionEntry) : Type 0 where
    pub allowed : contains allowed_types e.kind ≡ true
    pub owned : starts_with e.owner "@" ≡ true
    pub day : ℕ
    pub expires : fromisoformat e.expires_on ≡ ok day
    pub unexpired : today ≤ day
    pub scoped :
        ((e.kind == "configuration") ≡ false)
        ⊎ ((p : String) × (ps : List String) × (e.paths ≡ p ∷ ps))

  IsValid-entry_of :
      (fields : Fields) (allowed : Bool) (day : ℕ) (paths : List String)
      → is_member (contains allowed_types) (value_or null (lookup "type" fields)) ≡ ok allowed
      → allowed ≡ true
      → starts_with (str_field "owner" fields) "@" ≡ true
      → fromisoformat (str_field "expires_on" fields) ≡ ok day
      → ltb day today ≡ false
      → (str_field "type" fields == "configuration" && is_empty paths) ≡ false
      → IsValid (entry_of fields paths)
  IsValid-entry_of fields allowed day paths member is_allowed owned expires unexpired scoped =
      record {
        allowed =
            member_text (contains allowed_types) (value_or null (lookup "type" fields))
              (member ∙ ap ok is_allowed);
        owned = owned;
        day = day;
        expires = expires;
        unexpired = ground arith;
        scoped = elim (both (str_field "type" fields == "configuration") (is_empty paths) scoped) [
          | inl other ↦ inl other
          | inr filled ↦ inr (filled_list paths filled)
        ];
      }

  check_fields-IsValid :
      (fields : Fields) {e : ExceptionEntry}
      → check_fields fromisoformat today fields ≡ ok e
      → IsValid e
  check_fields-IsValid fields {e} h =
      let (_, _, h1) = bind-ok (raise_if (not (has_required fields)) value_error) _ h in
      let (allowed, member, h2) =
        bind-ok (is_member (contains allowed_types) (value_or null (lookup "type" fields))) _ h1 in
      let (_, is_allowed, h3) = bind-ok (raise_if (not allowed) value_error) _ h2 in
      let (_, _, h4) = bind-ok (raise_if (not (has_texts fields)) value_error) _ h3 in
      let (_, owned, h5) =
        bind-ok (raise_if (not (starts_with (str_field "owner" fields) "@")) value_error) _ h4 in
      let (_, _, h6) =
        bind-ok
          (raise_if (not (starts_with (str_field "task" fields) "docs/security-remediation.md#"))
            value_error)
          _ h5 in
      let (day, expires, h7) = bind-ok (fromisoformat (str_field "expires_on" fields)) _ h6 in
      let (_, unexpired, h8) = bind-ok (raise_if (ltb day today) value_error) _ h7 in
      let (paths, _, h9) =
        bind-ok (paths_of (value_or (array no_items) (lookup "paths" fields))) _ h8 in
      let (_, scoped, h10) =
        bind-ok
          (raise_if (str_field "type" fields == "configuration" && is_empty paths) value_error) _
          h9 in
      subst IsValid (ok-injective h10) (
        IsValid-entry_of fields allowed day paths member
          (negated allowed (raise_if-ok (not allowed) value_error is_allowed))
          (negated (starts_with (str_field "owner" fields) "@")
            (raise_if-ok (not (starts_with (str_field "owner" fields) "@")) value_error owned))
          expires (raise_if-ok (ltb day today) value_error unexpired)
          (raise_if-ok (str_field "type" fields == "configuration" && is_empty paths) value_error
            scoped))

  check_entry-IsValid :
      (x : Json) {e : ExceptionEntry} → check_entry fromisoformat today x ≡ ok e → IsValid e
  check_entry-IsValid (object fields) h = check_fields-IsValid fields h
  check_entry-IsValid null h = absurd (cc)
  check_entry-IsValid (boolean _) h = absurd (cc)
  check_entry-IsValid (number _) h = absurd (cc)
  check_entry-IsValid (other_number _) h = absurd (cc)
  check_entry-IsValid (text _) h = absurd (cc)
  check_entry-IsValid (array _) h = absurd (cc)

  -- No entry has the key of an earlier one.
  abbrev pub Distinct : List ExceptionEntry → List ExceptionEntry → Type 0
  Distinct seen [] = Unit
  Distinct seen (e ∷ es) = (any (same_key e) seen ≡ false) × Distinct (seen ++ (e ∷ [])) es

  load_entries-ok :
      (xs : List Json) (seen : List ExceptionEntry) {es : List ExceptionEntry}
      → load_entries fromisoformat today xs seen ≡ ok es
      → (new : List ExceptionEntry) × (es ≡ seen ++ new)
        × All IsValid new
        × Distinct seen new
        × (length new ≡ length xs)
  load_entries-ok [] seen h = ([], sym (ok-injective h) ∙ sym (append-nil seen), tt, tt, refl)
  load_entries-ok (x ∷ xs) seen h =
      let (e, checked, h1) = bind-ok (check_entry fromisoformat today x) _ h in
      let (_, fresh, h2) = bind-ok (raise_if (any (same_key e) seen) value_error) _ h1 in
      let (new, whole, valid, distinct, n) = load_entries-ok xs (seen ++ (e ∷ [])) h2 in
      (
        e ∷ new,
        whole ∙ append_assoc seen (e ∷ []) new,
        (check_entry-IsValid x checked, valid),
        (raise_if-ok (any (same_key e) seen) value_error fresh, distinct),
        ap suc n,
      )

  -- A registry that loads has as many exceptions as its file lists. Each is of an allowed type, has an
  -- owner, has not expired, and names its paths if it is one for the configuration; no two of them have
  -- the same type, identifier and paths.
  pub load_registry-IsValid :
      (read_text : Result String) (loads : String → Result Json) {es : List ExceptionEntry}
      → load_registry fromisoformat today read_text loads ≡ ok es
      → All IsValid es
        × Distinct [] es
        × ((content : String) × (document : Json) × (xs : Json) × (items : List Json) × (read_text
              ≡ ok content)
            × (loads content ≡ ok document)
            × (get "exceptions" document ≡ ok xs)
            × (listed_entries fromisoformat today xs ≡ ok items)
            × (length es ≡ length items))
  unfolding load_registry
  load_registry-IsValid read_text loads {es} h =
      let (content, read, h1) = bind-ok read_text _ h in
      let (document, loaded, h2) = bind-ok (loads content) _ h1 in
      let (version, _, h3) = bind-ok (get "schema_version" document) _ h2 in
      let (_, _, h4) = bind-ok (raise_if (not (is_number 1 version)) value_error) _ h3 in
      let (xs, there, h5) = bind-ok (get "exceptions" document) _ h4 in
      let (items, of_list, h6) = bind-ok (listed_entries fromisoformat today xs) _ h5 in
      let (new, whole, valid, distinct, n) = load_entries-ok items [] h6 in
      (
        subst (All IsValid) (sym whole) valid,
        subst (Distinct []) (sym whole) distinct,
        (content, document, xs, items, read, loaded, there, of_list, ap length whole ∙ n),
      )
