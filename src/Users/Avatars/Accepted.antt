-- ===== src/Users/Avatars/Accepted.antt =====
-- What an upload of an avatar has tested when it returns, and what it leaves.
use base_backend.Prelude.{
  ℕ, ◌≤◌, ◌≡◌, ◌∙◌, inl, inr, ap, sym, refl, arith, String, Bool, true, false, not, Option, none,
  some, is_none, ltb, Option-cases, ◌==◌, nat_eq,
}
use base_backend.Errors.{
  Result, ok, forbidden, user_not_found, user_profile_not_found, invalid_avatar_upload,
}
use base_backend.Exec.{lift, raise_if, or_raise}
use base_backend.Exec.Inversion.{Returns, bind-ok, pure-Returns, raise_if-Returns}
use base_backend.Redis.{Time, Uuid}
use base_backend.Sql.{select_one, update_all}
use base_backend.Authorization.{active, status_eq}
use base_backend.World.{UserProfileModel, World, Backend, on_profiles, commit, rollback}
use base_backend.World.Transactions.{transaction-Returns, commit-Returns}
use base_backend.Users.Repository.{get_by_id}
use base_backend.Users.Profiles.{
  UserProfile, UserProfileDto, profile_dto, profile_entity, get_profile, flush_change,
  update_avatar, found_or_rollback,
}
use base_backend.Users.Avatars.{
  AvatarStorage, is_allowed, max_avatar_bytes, update_user_avatar_steps, update_user_avatar,
}

module _ (isdigit : String → Bool) (b : Backend) where
  found-Returns :
      (row : Option UserProfile) (w : World) {p : UserProfile} {w' : World}
      → Returns (found_or_rollback isdigit b row) w p w'
      → (row ≡ some p) × (w' ≡ w)
  unfolding found_or_rollback rollback
  found-Returns none w h = absurd (cc)
  found-Returns (some p) w h =
      let (e, f) = pure-Returns p w h in (ap (λ (x : UserProfile). some x) e, f)

  flush_change-Returns :
      (u : Uuid) (f : UserProfileModel → UserProfileModel) (m : UserProfileModel) (w : World)
      {r : Option UserProfile} {w' : World}
      → w.db.profiles u ≡ some m
      → Returns (flush_change isdigit b u f (some m)) w r w'
      → (r ≡ some (profile_entity isdigit u (f m))) × (w'.db.profiles u ≡ some (f m))
  unfolding flush_change update_all
  flush_change-Returns u f m w here h =
      elim (Option-cases (b.profiles.update (λ k _. k == u) f w.db.profiles)) [
        | inl failed ↦ ground arith
        | inr ((_, _), e) ↦
            ground (
              arith,
              b.profiles.update_done (λ k _. k == u) f w.db.profiles e,
              nat_eq.equal_iff u u,
            )
      ]

  select-Returns :
      (u : Uuid) (w : World) {r : Option UserProfileModel} {w' : World}
      → Returns (on_profiles (select_one b.profiles u (λ _. true))) w r w'
      → (w' ≡ w) × (r ≡ w.db.profiles u)
  unfolding select_one
  select-Returns u w h = elim (Option-cases (b.profiles.select u (λ _. true) w.db.profiles)) [
    | inl failed ↦ ground arith
    | inr (_, e) ↦ ground (arith, b.profiles.select_done u (λ _. true) w.db.profiles e)
  ]

  flushed :
      (u : Uuid) (f : UserProfileModel → UserProfileModel) (o : Option UserProfileModel) (w : World)
      {r : Option UserProfile} {p : UserProfile} {w' : World}
      → w.db.profiles u ≡ o
      → Returns (flush_change isdigit b u f o) w r w'
      → r ≡ some p
      → (m : UserProfileModel) × (p ≡ profile_entity isdigit u (f m))
        × (w'.db.profiles u ≡ some (f m))
  unfolding flush_change
  flushed u f none w here h there = absurd (cc)
  flushed u f (some m) w here h there =
      let (e, stored) = flush_change-Returns u f m w here h in (m, ground arith, stored)

  -- A profile as it is read and as it is stored has this avatar.
  abbrev pub HasAvatar : UserProfile → Option UserProfileModel → String → String → Type 0
  HasAvatar p row url key =
      (p.avatar_url ≡ some url)
      × ((m : UserProfileModel) × (row ≡ some m)
          × (m.avatar_url ≡ some url)
          × (m.avatar_object_key ≡ some key))

  update_avatar-Returns :
      (u : Uuid) (url key : String) (now : Time) (w : World) {r : Option UserProfile}
      {p : UserProfile} {w' : World}
      → Returns (update_avatar isdigit b u url key now) w r w'
      → r ≡ some p
      → HasAvatar p (w'.db.profiles u) url key
  unfolding update_avatar profile_entity
  update_avatar-Returns u url key now w h there =
      let (row, w1, e1, r1) = bind-ok (on_profiles (select_one b.profiles u (λ _. true))) _ w h in
      let (same, answer) = select-Returns u w e1 in
      let here : w1.db.profiles u ≡ row = ap (λ (y : World). y.db.profiles u) same ∙ sym answer in
      let (m, ep, stored) = flushed u _ row w1 here r1 there in
      (ap (λ (y : UserProfile). y.avatar_url) ep, (_, stored, refl, refl))

module _ (isdigit : String → Bool) (b : Backend) (storage : AvatarStorage) where
  steps-Returns :
      (u : Uuid) (name type : String) (size : ℕ) (now : Time) (w : World) {d : UserProfileDto}
      {w' : World}
      → Returns (update_user_avatar_steps isdigit b storage u name type size now) w d w'
      → (url : String) × (key : String) × (storage.save_avatar u name type size ≡ ok (url, key))
        × (d.avatar_url ≡ some url)
        × (w'.db ≡ w'.committed)
        × ((m : UserProfileModel) × (w'.db.profiles u ≡ some m)
            × (m.avatar_url ≡ some url)
            × (m.avatar_object_key ≡ some key))
  unfolding update_user_avatar_steps profile_dto
  steps-Returns u name type size now w h =
      let ((url, key), w1, e1, r1) = bind-ok (lift (storage.save_avatar u name type size)) _ w h in
      let (row, w2, e2, r2) = bind-ok (update_avatar isdigit b u url key now) _ w1 r1 in
      let (p, w3, e3, r3) = bind-ok (found_or_rollback isdigit b row) _ w2 r2 in
      let (_, w4, e4, r4) = bind-ok (commit b) _ w3 r3 in
      let (there, f3) = found-Returns isdigit b row w2 e3 in
      let f4 = commit-Returns b w3 e4 in
      let (shown, f5) = pure-Returns (profile_dto p) w4 r4 in
      let last = f5 ∙ f4 in
      let rows : World → Option UserProfileModel = λ y. y.db.profiles u in
      let (read, (m, stored, has_url, has_key)) =
        update_avatar-Returns isdigit b u url key now w1 e2 there in
      (
        url,
        key,
        ap (λ (y : Result (String × String) × World). y.0) e1,
        sym (ap (λ (y : UserProfileDto). y.avatar_url) shown) ∙ read,
        ap (λ (y : World). y.db) last ∙ sym (ap (λ (y : World). y.committed) last),
        (m, ap rows last ∙ ap rows f3 ∙ stored, has_url, has_key),
      )

  -- An avatar is accepted only of an allowed type and of a size between one byte and the maximum, and
  -- only when the storage has saved it. The URL and the key that the storage gave stand in the row,
  -- which is committed, and the URL in the answer.
  pub update_user_avatar-Returns :
      (u : Uuid) (name type : String) (size : ℕ) (now : Time) (w : World) {d : UserProfileDto}
      {w' : World}
      → Returns (update_user_avatar isdigit b storage u name type size now) w d w'
      → (is_allowed type ≡ true)
        × (1 ≤ size)
        × (size ≤ max_avatar_bytes)
        × ((url : String) × (key : String) × (storage.save_avatar u name type size ≡ ok (url, key))
            × (d.avatar_url ≡ some url)
            × (w'.db ≡ w'.committed)
            × ((m : UserProfileModel) × (w'.db.profiles u ≡ some m)
                × (m.avatar_url ≡ some url)
                × (m.avatar_object_key ≡ some key)))
  unfolding update_user_avatar
  update_user_avatar-Returns u name type size now w h =
      let bad = invalid_avatar_upload in
      let (found, w1, e1, r1) = bind-ok (get_by_id b u) _ w h in
      let (x, w2, e2, r2) = bind-ok (or_raise found user_not_found) _ w1 r1 in
      let (_, w3, e3, r3) = bind-ok (raise_if (not (x.status == active)) forbidden) _ w2 r2 in
      let (_, w4, e4, r4) =
        bind-ok (raise_if (not (is_allowed type)) (bad "unsupported_content_type")) _ w3 r3 in
      let (_, w5, e5, r5) = bind-ok (raise_if (size == 0) (bad "empty_file")) _ w4 r4 in
      let (_, w6, e6, r6) =
        bind-ok (raise_if (ltb max_avatar_bytes size) (bad "file_too_large")) _ w5 r5 in
      let (p, w7, e7, r7) = bind-ok (get_profile isdigit b u) _ w6 r6 in
      let (_, w8, e8, r8) = bind-ok (raise_if (is_none p) user_profile_not_found) _ w7 r7 in
      let (allowed, _) =
        raise_if-Returns (not (is_allowed type)) (bad "unsupported_content_type") w3 e4 in
      let (some_bytes, _) = raise_if-Returns (size == 0) (bad "empty_file") w4 e5 in
      let (small, _) = raise_if-Returns (ltb max_avatar_bytes size) (bad "file_too_large") w5 e6 in
      (
        not_false (is_allowed type) allowed,
        at_least_one size some_bytes,
        at_most size small,
        steps-Returns u name type size now w8 (
            transaction-Returns (update_user_avatar_steps isdigit b storage u name type size now) w8
              r8),
      )
    where
      not_false : (c : Bool) → not c ≡ false → c ≡ true
      not_false true e = refl
      not_false false e = absurd (cc)

      at_least_one : (n : ℕ) → (n == 0) ≡ false → 1 ≤ n
      at_least_one n e = ground (arith, nat_eq.equal_iff n 0)

      at_most : (n : ℕ) → ltb max_avatar_bytes n ≡ false → n ≤ max_avatar_bytes
      at_most n e = ground arith
