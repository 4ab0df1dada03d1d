-- ===== src/Users/Listings/Asked.antt =====
-- What `_user_conditions` asks of a user, condition by condition.
use base_backend.Prelude.{
  ℕ, ◌≤◌, ◌≡◌, ◌⊎◌, inl, inr, refl, sym, subst, arith, String, Bool, true, false, ◌&&◌, ◌||◌,
  Option, none, some, leb, is_some, Bool-cases, ◌==◌, nat_eq, string_eq, map_option, if◌then◌else◌,
}
use Prim.Native.String.{◌++◌ as ◌<>◌}
use base_backend.Redis.{Uuid}
use base_backend.Authorization.{role_eq, status_eq}
use base_backend.World.{UserModel, UserProfileModel}
use base_backend.Users.Repository.{completed_at}
use base_backend.Users.Listings.{
  if_given, same_bool, phone_of, ilike_or_null, UserFilters, matches_search, user_conditions,
}

-- A condition on a value that may be missing.
abbrev pub Given {ℓ} : {A : Type ℓ} → Option A → (A → Type 0) → Type 0
Given none P = Unit
Given (some a) P = P a

-- Whether the data of a user is uploaded: whether its profile is complete.
abbrev pub uploaded : Option UserProfileModel → Bool
uploaded none = false
uploaded (some p) = is_some p.completed_at

given_iff :
    {A : Type 0} (o : Option A) (p : A → Bool) (P : A → Type 0)
    → ((a : A) → (p a ≡ true → P a) × (P a → p a ≡ true))
    → (if_given o p ≡ true → Given o P) × (Given o P → if_given o p ≡ true)
given_iff none p P same = (λ h. tt, λ h. refl)
given_iff (some a) p P same = same a

and_iff :
    {A B : Type 0} (a b : Bool)
    → (a ≡ true → A) × (A → a ≡ true)
    → (b ≡ true → B) × (B → b ≡ true)
    → ((a && b) ≡ true → A × B) × (A × B → (a && b) ≡ true)
and_iff true b (f, f') (g, g') = (λ h. (f refl, g h), λ (x, y). g' y)
and_iff false b (f, f') (g, g') = (λ h. absurd (cc), λ (x, y). f' x)

or_iff :
    {A B : Type 0} (a b : Bool)
    → (a ≡ true → A) × (A → a ≡ true)
    → (b ≡ true → B) × (B → b ≡ true)
    → ((a || b) ≡ true → A ⊎ B) × (A ⊎ B → (a || b) ≡ true)
or_iff true b (f, f') (g, g') = (λ h. inl (f refl), λ h. refl)
or_iff {A} {B} false b (f, f') (g, g') = (λ h. inr (g h), back)
  where
    back : A ⊎ B → b ≡ true
    back (inl x) = absurd (cc (f' x))
    back (inr y) = g' y

same_bool_iff : (a b : Bool) → (same_bool a b ≡ true → a ≡ b) × (a ≡ b → same_bool a b ≡ true)
same_bool_iff true b = (sym, sym)
same_bool_iff false true = (λ h. h, λ h. h)
same_bool_iff false false = (λ h. refl, λ h. refl)

leb_iff : (a b : ℕ) → (leb a b ≡ true → a ≤ b) × (a ≤ b → leb a b ≡ true)
leb_iff a b = (λ h. ground arith, λ h. ground arith)

pub uploaded-completed_at : (o : Option UserProfileModel) → is_some (completed_at o) ≡ uploaded o
uploaded-completed_at none = refl
uploaded-completed_at (some p) = refl

module _ (strip : String → String) (ilike : String → String → Bool) where
  -- A text of a user that has the text that is searched for, with anything around it.
  abbrev pub Has : String → String → Type 0
  Has search s = ilike ("%" <> (strip search <> "%")) s ≡ true

  abbrev HasName : String → Option UserProfileModel → Type 0
  HasName search none = ⊥
  HasName search (some p) = Has search p.full_name

  abbrev HasPhone : String → Option UserProfileModel → Type 0
  HasPhone search none = ⊥
  HasPhone search (some p) = (number : String) × (p.phone_number ≡ some number) × Has search number

  -- An empty text finds every user, another one those with the text in the email, the name or the phone
  -- number.
  abbrev pub IsFound : String → UserModel → Option UserProfileModel → Type 0
  IsFound search m profile =
      (search ≡ "") ⊎ (Has search m.email ⊎ (HasName search profile ⊎ HasPhone search profile))

  -- What the filters of a request ask of a user, each only if it is given.
  pub record IsAskedFor (f : UserFilters) (m : UserModel) (profile : Option UserProfileModel)
      : Type 0 where
    pub role : Given f.role (λ r. m.role ≡ r)
    pub status : Given f.status (λ s. m.status ≡ s)
    pub is_verified : Given f.is_verified (λ v. m.is_verified ≡ v)
    pub is_profile_completed : Given f.is_profile_completed (λ c. uploaded profile ≡ c)
    pub created_at_from : Given f.created_at_from (λ t. t ≤ m.created_at)
    pub created_at_to : Given f.created_at_to (λ t. m.created_at ≤ t)
    pub search : Given f.search (λ s. IsFound s m profile)

  name_iff :
      (s : String) (o : Option UserProfileModel)
      → (ilike_or_null ilike
              ("%" <> (strip s <> "%"))
              (map_option (λ (p : UserProfileModel). p.full_name) o)
            ≡ true
          → HasName s o)
        × (HasName s o
            → ilike_or_null ilike
                ("%" <> (strip s <> "%"))
                (map_option (λ (p : UserProfileModel). p.full_name) o)
              ≡ true)
  name_iff s none = (λ h. absurd (cc), λ h. absurd h)
  name_iff s (some p) = (λ h. h, λ h. h)

  phone_iff :
      (s : String) (o : Option UserProfileModel)
      → (ilike_or_null ilike ("%" <> (strip s <> "%")) (phone_of o) ≡ true → HasPhone s o)
        × (HasPhone s o → ilike_or_null ilike ("%" <> (strip s <> "%")) (phone_of o) ≡ true)
  phone_iff s none = (λ h. absurd (cc), λ h. absurd h)
  phone_iff s (some p) = go p.phone_number refl
    where
      go :
          (n : Option String)
          → p.phone_number ≡ n
          → (ilike_or_null ilike ("%" <> (strip s <> "%")) (phone_of (some p)) ≡ true
              → HasPhone s (some p))
            × (HasPhone s (some p)
                → ilike_or_null ilike ("%" <> (strip s <> "%")) (phone_of (some p)) ≡ true)
      go none e = (λ h. absurd (ground arith), λ (x, h, _). absurd (cc))
      go (some n) e = (λ h. (n, e, ground arith), λ (x, h, k). ground arith)

  IsFound-iff :
      (s : String) (m : UserModel) (o : Option UserProfileModel)
      → ((if s == "" then true else matches_search strip ilike s (m, o)) ≡ true → IsFound s m o)
        × (IsFound s m o → (if s == "" then true else matches_search strip ilike s (m, o)) ≡ true)
  IsFound-iff s m o = elim (Bool-cases (s == "")) [
    | inl empty ↦ (λ h. inl ((string_eq.equal_iff s "").0 empty), λ h. ground arith)
    | inr text ↦
        let searched =
          or_iff {A = Has s m.email} (ilike ("%" <> (strip s <> "%")) m.email) _ (λ h. h, λ h. h)
            (or_iff _ _ (name_iff s o) (phone_iff s o)) in
        (λ h. inr (searched.0 (rw text at h)), λ h. rw text (searched.1 (not_empty text h)))
  ]
    where
      not_empty : (s == "") ≡ false → IsFound s m o → Has s m.email ⊎ (HasName s o ⊎ HasPhone s o)
      not_empty text (inl e) = absurd (ground (arith, string_eq.equal_iff s ""))
      not_empty text (inr h) = h

  -- The conditions of the statement are those of the filters.
  pub user_conditions_iff :
      (f : UserFilters) (u : Uuid) (m : UserModel) (o : Option UserProfileModel)
      → (user_conditions strip ilike f u (m, o) ≡ true → IsAskedFor f m o)
        × (IsAskedFor f m o → user_conditions strip ilike f u (m, o) ≡ true)
  user_conditions_iff f u m o =
      let each =
        and_iff _ _ (given_iff f.role _ (λ r. m.role ≡ r) (λ r. role_eq.equal_iff m.role r)) (
          and_iff _ _
            (given_iff f.status _ (λ s. m.status ≡ s) (λ s. status_eq.equal_iff m.status s))
            (and_iff _ _
              (given_iff f.is_verified _ (λ v. m.is_verified ≡ v) (same_bool_iff m.is_verified))
              (and_iff _ _
                (given_iff f.is_profile_completed _ (λ c. uploaded o ≡ c)
                  (λ c.
                    subst
                      (λ b.
                        (same_bool b c ≡ true → uploaded o ≡ c)
                        × (uploaded o ≡ c → same_bool b c ≡ true))
                      (sym (uploaded-completed_at o)) (same_bool_iff (uploaded o) c)))
                (and_iff _ _
                  (given_iff f.created_at_from _ (λ t. t ≤ m.created_at)
                    (λ t. leb_iff t m.created_at))
                  (and_iff _ _
                    (given_iff f.created_at_to _ (λ t. m.created_at ≤ t)
                      (λ t. leb_iff m.created_at t))
                    (given_iff f.search _ (λ s. IsFound s m o) (λ s. IsFound-iff s m o))))))) in
      (
        λ h.
            let (a, (b, (c, (d, (e, (g, i)))))) = each.0 h in
            record {
              role = a;
              status = b;
              is_verified = c;
              is_profile_completed = d;
              created_at_from = e;
              created_at_to = g;
              search = i;
            },
        λ x. each.1 (
          x.role,
          (
            x.status,
            (
              x.is_verified,
              (x.is_profile_completed, (x.created_at_from, (x.created_at_to, x.search))),
            ),
          ),
        ),
      )
