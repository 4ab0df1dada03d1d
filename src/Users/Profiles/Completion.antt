-- ===== src/Users/Profiles/Completion.antt =====
-- What the use cases on profiles leave: they are atomic, and a user with a profile has uploaded its data.
use base_backend.Prelude.{
  ◌≡◌, ◌∙◌, inl, inr, ap, sym, subst, refl, String, Bool, true, false, not, Option, none, some,
  is_some, arith, Option-cases, ◌==◌, nat_eq, map_option, update_at,
}
use base_backend.Errors.{Error, forbidden, user_not_found, user_profile_already_exists}
use base_backend.Exec.{raise_if, or_raise}
use base_backend.Exec.Inversion.{Returns, bind-ok, pure-Returns, raise_if-Returns}
use base_backend.Redis.{Time, Uuid}
use base_backend.Sql.{select_one, insert_row}
use base_backend.Authorization.{active, status_eq}
use base_backend.World.{UserModel, UserProfileModel, World, Backend, commit, rollback}
use base_backend.World.Transactions.{
  KeepsCommitted, CommitsLast, IsAtomic, transaction_rules, transaction-Returns, commit-Returns,
}
use base_backend.Users.Repository.{to_entity, get_by_id}
use base_backend.Users.Repository.Effects.{user_at, user_at-some, get_by_id-Returns}
use base_backend.Users.Requests.{
  IsAtomicRequest, IsReading, or_raise-IsReading, raise_if-IsReading, transaction-IsAtomicRequest,
  bind-IsAtomicRequest, get_by_id-IsReading,
}
use base_backend.Users.Profiles.{
  PhoneNumber, UserProfile, UserProfileDto, profile_entity, new_profile, get_profile,
  create_profile, flush_change, update_profile, create_user_profile_steps, create_user_profile,
  found_or_rollback, update_user_profile_steps, update_user_profile,
}

-- The row of a profile that begins at a time: complete, without an avatar.
abbrev pub begun_profile : String → Option PhoneNumber → Time → UserProfileModel
begun_profile name phone now = record {
  full_name = name;
  country_code = elim phone [ none ↦ none | some p ↦ p.country_code ];
  dial_code = map_option (λ (p : PhoneNumber). p.dial_code) phone;
  phone_number = map_option (λ (p : PhoneNumber). p.number) phone;
  avatar_url = none;
  avatar_object_key = none;
  created_at = now;
  updated_at = now;
  completed_at = some now;
}

module _ (isdigit : String → Bool) (b : Backend) where
  pub get_profile-IsReading : (u : Uuid) → IsReading (get_profile isdigit b u)
  unfolding get_profile select_one
  get_profile-IsReading u = record {
    at = λ w. elim (Option-cases (b.profiles.select u (λ _. true) w.db.profiles)) [
      | inl failed ↦ ground arith
      | inr (r, e) ↦ ground arith
    ];
  }

  create_profile-KeepsCommitted :
      (u : Uuid) (name : String) (phone : Option PhoneNumber) (now : Time)
      → KeepsCommitted (create_profile isdigit b u name phone now)
  unfolding create_profile
  create_profile-KeepsCommitted u name phone now = search transaction_rules

  pub flush_change-KeepsCommitted :
      (u : Uuid) (f : UserProfileModel → UserProfileModel) (row : Option UserProfileModel)
      → KeepsCommitted (flush_change isdigit b u f row)
  unfolding flush_change
  flush_change-KeepsCommitted u f none = search transaction_rules
  flush_change-KeepsCommitted u f (some m) = search transaction_rules

  update_profile-KeepsCommitted :
      (u : Uuid) (name : Option String) (phone : Option PhoneNumber) (now : Time)
      → KeepsCommitted (update_profile isdigit b u name phone now)
  unfolding update_profile
  update_profile-KeepsCommitted u name phone now =
      search (transaction_rules, flush_change-KeepsCommitted)

  pub found_or_rollback-KeepsCommitted :
      (row : Option UserProfile) → KeepsCommitted (found_or_rollback isdigit b row)
  unfolding found_or_rollback rollback
  found_or_rollback-KeepsCommitted none = record { at = λ w. refl }
  found_or_rollback-KeepsCommitted (some p) = record { at = λ w. refl }

  create_steps-CommitsLast :
      (u : Uuid) (name : String) (phone : Option PhoneNumber) (now : Time)
      → CommitsLast (create_user_profile_steps isdigit b u name phone now)
  unfolding create_user_profile_steps
  create_steps-CommitsLast u name phone now =
      search (transaction_rules, create_profile-KeepsCommitted) depth 8

  update_steps-CommitsLast :
      (u : Uuid) (name : Option String) (phone : Option PhoneNumber) (now : Time)
      → CommitsLast (update_user_profile_steps isdigit b u name phone now)
  unfolding update_user_profile_steps
  update_steps-CommitsLast u name phone now =
      search (transaction_rules, update_profile-KeepsCommitted, found_or_rollback-KeepsCommitted)
        depth 8

  create-request :
      (u : Uuid) (name : String) (phone : Option PhoneNumber) (now : Time)
      → IsAtomicRequest (create_user_profile isdigit b u name phone now)
  unfolding create_user_profile
  create-request u name phone now =
      search
        (
          transaction-IsAtomicRequest, bind-IsAtomicRequest, or_raise-IsReading, raise_if-IsReading,
          get_by_id-IsReading, get_profile-IsReading, create_steps-CommitsLast,
        )
        depth 12

  update-request :
      (u : Uuid) (name : Option String) (phone : Option PhoneNumber) (now : Time)
      → IsAtomicRequest (update_user_profile isdigit b u name phone now)
  unfolding update_user_profile
  update-request u name phone now =
      search
        (
          transaction-IsAtomicRequest, bind-IsAtomicRequest, or_raise-IsReading, raise_if-IsReading,
          get_by_id-IsReading, update_steps-CommitsLast,
        )
        depth 12

  pub profiles-IsAtomic :
      (u : Uuid) (name : String) (new_name : Option String) (phone : Option PhoneNumber)
      (now : Time) (w : World)
      → w.db ≡ w.committed
      → IsAtomic w.committed (create_user_profile isdigit b u name phone now w)
        × IsAtomic w.committed (update_user_profile isdigit b u new_name phone now w)
  profiles-IsAtomic u name new_name phone now w h =
      ((create-request u name phone now).at w h, (update-request u new_name phone now).at w h)

  pub or_raise-some :
      {A : Type 0} (o : Option A) (e : Error) (s : World) {x : A} {w' : World}
      → Returns (or_raise o e) s x w'
      → (o ≡ some x) × (w' ≡ s)
  or_raise-some none e s h = absurd (cc)
  or_raise-some (some a) e s h = (cc, cc)

  pub get_profile-Returns :
      (u : Uuid) (w : World) {r : Option UserProfile} {w' : World}
      → Returns (get_profile isdigit b u) w r w'
      → (w' ≡ w) × (r ≡ map_option (λ m. profile_entity isdigit u m) (w.db.profiles u))
  unfolding get_profile select_one
  get_profile-Returns u w h = elim (Option-cases (b.profiles.select u (λ _. true) w.db.profiles)) [
    | inl failed ↦ ground arith
    | inr (_, e) ↦ ground (arith, b.profiles.select_done u (λ _. true) w.db.profiles e)
  ]

  create_profile-Returns :
      (u : Uuid) (name : String) (phone : Option PhoneNumber) (now : Time) (w : World)
      {r : UserProfile} {w' : World}
      → Returns (create_profile isdigit b u name phone now) w r w'
      → w' ≡ record w {
        db = record (w.db) {
          profiles = update_at u (some (new_profile name phone now)) w.db.profiles;
        };
      }
  unfolding create_profile insert_row
  create_profile-Returns u name phone now w h =
      elim (Option-cases (b.profiles.insert u (new_profile name phone now) w.db.profiles)) [
        | inl failed ↦ ground arith
        | inr (_, e) ↦
            ground (arith, b.profiles.insert_done u (new_profile name phone now) w.db.profiles e)
      ]

  no_profile :
      (u : Uuid) (o : Option UserProfileModel)
      → is_some (map_option (λ m. profile_entity isdigit u m) o) ≡ false
      → o ≡ none
  no_profile u none h = refl
  no_profile u (some m) h = absurd (cc)

  uploaded :
      (u : Uuid) (m : UserModel) (p : UserProfileModel) (at : Time) (w' : World)
      → w'.db.users u ≡ some m
      → w'.db.profiles u ≡ some p
      → p.completed_at ≡ some at
      → user_at w'.db u ≡ some (to_entity u m (some at))
  uploaded u m p at w' here there done = ground arith

  -- A profile is created only for an active user who has none. Its row has the name, the phone number and
  -- the time of the call, and is committed; from then on the user reads as before, with its data uploaded.
  pub create_user_profile-Returns :
      (u : Uuid) (name : String) (phone : Option PhoneNumber) (now : Time) (w : World)
      {d : UserProfileDto} {w' : World}
      → Returns (create_user_profile isdigit b u name phone now) w d w'
      → (m : UserModel) × (w.db.users u ≡ some m)
        × (m.status ≡ active)
        × (w.db.profiles u ≡ none)
        × (w'.db ≡ w'.committed)
        × (w'.db.profiles ≡ update_at u (some (begun_profile name phone now)) w.db.profiles)
        × (user_at w'.db u
            ≡ some (record {
              id = u;
              email = m.email;
              role = m.role;
              status = m.status;
              is_verified = m.is_verified;
              created_at = m.created_at;
              is_user_data_uploaded = true;
              authorization_version = m.authorization_version;
            }))
  unfolding create_user_profile create_user_profile_steps to_entity
  create_user_profile-Returns u name phone now w {d} {w'} h =
      let steps = create_user_profile_steps isdigit b u name phone now in
      let (found, w1, e1, r1) = bind-ok (get_by_id b u) _ w h in
      let (x, w2, e2, r2) = bind-ok (or_raise found user_not_found) _ w1 r1 in
      let (_, w3, e3, r3) = bind-ok (raise_if (not (x.status == active)) forbidden) _ w2 r2 in
      let (existing, w4, e4, r4) = bind-ok (get_profile isdigit b u) _ w3 r3 in
      let (_, w5, e5, r5) =
        bind-ok (raise_if (is_some existing) user_profile_already_exists) _ w4 r4 in
      let (f1, answer) = get_by_id-Returns b w u e1 in
      let (there, f2) = or_raise-some found user_not_found w1 e2 in
      let (is_active, f3) = raise_if-Returns (not (x.status == active)) forbidden w2 e3 in
      let (f4, answer4) = get_profile-Returns u w3 e4 in
      let (fresh, f5) = raise_if-Returns (is_some existing) user_profile_already_exists w4 e5 in
      let back3 : w3 ≡ w = f3 ∙ f2 ∙ f1 in
      let back : w5 ≡ w = f5 ∙ f4 ∙ back3 in
      let r6 = subst (λ y. Returns steps y d w') back (transaction-Returns steps w5 r5) in
      let (p, v1, g1, q1) = bind-ok (create_profile isdigit b u name phone now) _ w r6 in
      let (_, v2, g2, q2) = bind-ok (commit b) _ v1 q1 in
      let s1 = create_profile-Returns u name phone now w g1 in
      let s2 = commit-Returns b v1 g2 in
      let (_, s3) = pure-Returns _ v2 q2 in
      let last = s3 ∙ s2 ∙ ap (λ (y : World). record y { committed = y.db }) s1 in
      let (m, here, _, status, _) = user_at-some w.db u (sym answer ∙ there) in
      let none_before = no_profile u (w.db.profiles u) (
        ap (λ (y : World). is_some (map_option (λ n. profile_entity isdigit u n) (y.db.profiles u)))
          (sym back3)
        ∙ ap (λ (o : Option UserProfile). is_some o) (sym answer4)
        ∙ fresh) in
      (
        m,
        here,
        sym status ∙ (status_eq.equal_iff x.status active).0 (ground arith),
        none_before,
        ap (λ (y : World). y.db) last ∙ sym (ap (λ (y : World). y.committed) last),
        ap (λ (y : World). y.db.profiles) last,
        uploaded u m (begun_profile name phone now) now w'
            (ap (λ (y : World). y.db.users u) last ∙ here)
            (ap (λ (y : World). y.db.profiles u) last ∙ ground (arith, nat_eq.equal_iff u u)) refl,
      )
