-- ===== src/Administration/Lookups.antt =====
-- The look-ups of app/modules/users/application/use_cases: get_user_by_id.py, get_current_user.py,
-- get_user_profile_by_id.py and get_current_user_profile.py.
use base_backend.Prelude.{
  ◌≡◌, ◌∙◌, sym, ap, subst, refl, inl, inr, Bool, true, ◌&&◌, String, Option, none, some,
  map_option, arith, Bool-cases, ◌==◌, string_eq, if◌then◌else◌,
}
use Prim.Native.String.{slice}
use base_backend.Errors.{user_not_found, user_profile_not_found}
use base_backend.Exec.{Exec, pure, or_raise, ◌>>=◌, ◌>>◌}
use base_backend.Exec.Inversion.{Returns, bind-ok, pure-Returns}
use base_backend.Redis.{Time, Uuid}
use base_backend.Authorization.{UserRole}
use base_backend.World.{UserModel, UserProfileModel, World, Backend}
use base_backend.Users.{User, UserDto, user_dto}
use base_backend.Users.Repository.{get_by_id, to_entity, completed_at}
use base_backend.Users.Profiles.{
  PhoneNumber, UserProfile, UserProfileDto, profile_dto, phone_number_entity, profile_entity,
  get_profile,
}
use base_backend.Users.Profiles.Completion.{get_profile-Returns, or_raise-some}
use base_backend.Administration.{ensure_can_manage_target, can_manage_target}
use base_backend.Administration.Permissions.{MayManage, target_row, permitted, may_manage}

module _ (b : Backend) where
  unfoldable pub get_current_user : Uuid → Exec World UserDto
  get_current_user user_id = do
    found ← get_by_id b user_id
    user ← or_raise found user_not_found
    pure (user_dto user)

  unfoldable pub get_user_by_id : Time → UserRole → Uuid → Exec World UserDto
  get_user_by_id now actor_role user_id = do
    found ← get_by_id b user_id
    target ← or_raise found user_not_found
    ensure_can_manage_target b now actor_role target
    pure (user_dto target)

  unfoldable pub get_current_user_profile : (String → Bool) → Uuid → Exec World UserProfileDto
  get_current_user_profile isdigit user_id = do
    found ← get_profile isdigit b user_id
    profile ← or_raise found user_profile_not_found
    pure (profile_dto profile)

  unfoldable pub get_user_profile_by_id :
      (String → Bool) → Time → UserRole → Uuid → Exec World UserProfileDto
  get_user_profile_by_id isdigit now actor_role user_id = do
    found ← get_by_id b user_id
    target ← or_raise found user_not_found
    ensure_can_manage_target b now actor_role target
    row ← get_profile isdigit b user_id
    profile ← or_raise row user_profile_not_found
    pure (profile_dto profile)

  -- A user is shown only to who may manage it: what is shown is its row, with the completion of its
  -- profile, and nothing is written.
  get_user_by_id-Returns :
      (now : Time) (actor : UserRole) (u : Uuid) (w : World) {d : UserDto} {w' : World}
      → Returns (get_user_by_id now actor u) w d w'
      → (m : UserModel) × (w.db.users u ≡ some m)
        × MayManage actor m
        × (d ≡ user_dto (to_entity u m (completed_at (w.db.profiles u))))
        × (w' ≡ w)
  unfolding get_user_by_id
  get_user_by_id-Returns now actor u w h =
      let (found, w1, e1, r1) = bind-ok (get_by_id b u) _ w h in
      let (x, w2, e2, r2) = bind-ok (or_raise found user_not_found) _ w1 r1 in
      let (_, w3, e3, r3) = bind-ok (ensure_can_manage_target b now actor x) _ w2 r2 in
      let (m, here, ex, back) = target_row b now u w e1 e2 in
      let (allowed, same) = permitted b now u actor x w2 e3 in
      let (shown, last) = pure-Returns (user_dto x) w3 r3 in
      (
        m,
        here,
        may_manage actor u m (completed_at (w.db.profiles u))
            (subst (λ y. can_manage_target actor y ≡ true) ex allowed),
        sym shown ∙ ap (λ (y : User). user_dto y) ex,
        last ∙ same ∙ back,
      )

  -- The phone number of a row.
  abbrev pub shown_phone : (String → Bool) → UserProfileModel → Option PhoneNumber
  shown_phone isdigit p = elim p.dial_code [
    | none ↦ none
    | some dial ↦ elim p.phone_number [
      | none ↦ none
      | some number ↦
          if (slice dial 0 1 == "+") && isdigit number
          then some (record { country_code = p.country_code; dial_code = dial; number = number })
          else none
    ]
  ]

  -- A row as it is shown.
  abbrev pub shown_profile : (String → Bool) → Uuid → UserProfileModel → UserProfileDto
  shown_profile isdigit u p = record {
    user_id = u;
    full_name = p.full_name;
    phone_number = shown_phone isdigit p;
    avatar_url = p.avatar_url;
    created_at = p.created_at;
    updated_at = p.updated_at;
    completed_at = p.completed_at;
  }

  phone_of_row :
      (isdigit : String → Bool) (country dial number : Option String) (p : UserProfileModel)
      → p.country_code ≡ country
      → p.dial_code ≡ dial
      → p.phone_number ≡ number
      → phone_number_entity isdigit country dial number ≡ shown_phone isdigit p
  unfolding phone_number_entity
  phone_of_row isdigit c none n p hc hd hn = ground arith
  phone_of_row isdigit c (some d) none p hc hd hn = ground arith
  phone_of_row isdigit c (some d) (some n) p hc hd hn = elim (Bool-cases (slice d 0 1 == "+")) [
    | inl plus ↦ elim (Bool-cases (isdigit n)) [
      | inl digits ↦ ground arith
      | inr other ↦ ground arith
    ]
    | inr no_plus ↦ ground arith
  ]

  profile_dto-entity :
      (isdigit : String → Bool) (u : Uuid) (p : UserProfileModel)
      → profile_dto (profile_entity isdigit u p) ≡ shown_profile isdigit u p
  unfolding profile_dto profile_entity
  profile_dto-entity isdigit u p =
      ap (λ (q : Option PhoneNumber). record (shown_profile isdigit u p) { phone_number = q })
        (phone_of_row isdigit p.country_code p.dial_code p.phone_number p refl refl refl)

  profile_there :
      (isdigit : String → Bool) (u : Uuid) (o : Option UserProfileModel) (p : UserProfile)
      → map_option (λ m. profile_entity isdigit u m) o ≡ some p
      → (m : UserProfileModel) × (o ≡ some m) × (p ≡ profile_entity isdigit u m)
  profile_there isdigit u none p h = absurd (cc)
  profile_there isdigit u (some m) p h = (m, refl, cc)

  -- A profile is shown only to who may manage its user: what is shown are the fields of its row, with the phone
  -- number if it has both parts, the first begins with `+` and the second is of digits. Nothing is written.
  pub get_user_profile_by_id-Returns :
      (isdigit : String → Bool) (now : Time) (actor : UserRole) (u : Uuid) (w : World)
      {d : UserProfileDto} {w' : World}
      → Returns (get_user_profile_by_id isdigit now actor u) w d w'
      → (m : UserModel) × (p : UserProfileModel) × (w.db.users u ≡ some m)
        × MayManage actor m
        × (w.db.profiles u ≡ some p)
        × (d ≡ shown_profile isdigit u p)
        × (w' ≡ w)
  unfolding get_user_profile_by_id
  get_user_profile_by_id-Returns isdigit now actor u w h =
      let (found, w1, e1, r1) = bind-ok (get_by_id b u) _ w h in
      let (x, w2, e2, r2) = bind-ok (or_raise found user_not_found) _ w1 r1 in
      let (_, w3, e3, r3) = bind-ok (ensure_can_manage_target b now actor x) _ w2 r2 in
      let (row, w4, e4, r4) = bind-ok (get_profile isdigit b u) _ w3 r3 in
      let (y, w5, e5, r5) = bind-ok (or_raise row user_profile_not_found) _ w4 r4 in
      let (m, here, ex, back) = target_row b now u w e1 e2 in
      let (allowed, same) = permitted b now u actor x w2 e3 in
      let (f4, answer) = get_profile-Returns isdigit b u w3 e4 in
      let (there, f5) = or_raise-some isdigit b row user_profile_not_found w4 e5 in
      let (shown, last) = pure-Returns (profile_dto y) w5 r5 in
      let back3 : w3 ≡ w = same ∙ back in
      let (p, stored, ep) = profile_there isdigit u (w3.db.profiles u) y (sym answer ∙ there) in
      (
        m,
        p,
        here,
        may_manage actor u m (completed_at (w.db.profiles u))
            (subst (λ z. can_manage_target actor z ≡ true) ex allowed),
        ap (λ (z : World). z.db.profiles u) (sym back3) ∙ stored,
        sym shown ∙ ap (λ (y : UserProfile). profile_dto y) ep ∙ profile_dto-entity isdigit u p,
        last ∙ f5 ∙ f4 ∙ back3,
      )
