-- ===== src/Users/Repository/Creation.antt =====
-- What `get_or_create` leaves: the user that it returns is a row with the email. It raises failures only.
use base_backend.Prelude.{
  ◌≡◌, ◌∙◌, inl, inr, ap, sym, subst, refl, String, Bool, true, false, Option, none, some, arith,
  Option-cases, ◌==◌, string_eq, nat_eq,
}
use base_backend.Errors.{Error, is_failure}
use base_backend.Exec.NeverRaises.{NeverRaises}
use base_backend.World.Failures.{failure_rules}
use base_backend.Exec.Inversion.{Returns, bind-ok, pure-Returns, on-Returns}
use base_backend.Redis.{Time, Uuid}
use base_backend.Sql.{Table, select_one, select_first, insert_row}
use base_backend.Sql.Effects.{select_one-Returns, select_first-Returns, insert_row-Returns}
use base_backend.World.{UserModel, World, Backend, on_users, on_profiles}
use base_backend.Users.{User}
use base_backend.Users.Repository.{
  to_entity, completed_at, new_user, with_profile, get_by_email, or_create, get_or_create,
}

-- The row of this user has this email.
abbrev pub HasEmail : Table UserModel → Uuid → String → Type 0
HasEmail t u email = (m : UserModel) × (t u ≡ some m) × (m.email ≡ email)

-- What a look-up by email answers: no one, or the user of a row.
abbrev FoundBy : Table UserModel → String → Option User → Type 0
FoundBy t email none = Unit
FoundBy t email (some x) = HasEmail t x.id email

module _ (b : Backend) where
  on_users-Returns :
      {A : Type 0} (m : _) (w : World) {a : A} {w' : World}
      → Returns (on_users m) w a w'
      → (t : Table UserModel) × Returns m w.db.users a t
        × (w' ≡ record w { db = record (w.db) { users = t } })
  on_users-Returns m w h =
      on-Returns (λ (x : World). x.db.users)
        (λ t (x : World). record x { db = record (x.db) { users = t } }) m w h

  with_profile-Returns :
      (row : Option (Uuid × UserModel)) (email : String) (w : World) {r : Option User} {w' : World}
      → ((k : Uuid) (m : UserModel)
          → row ≡ some (k, m)
          → (w.db.users k ≡ some m) × (m.email ≡ email))
      → Returns (with_profile b row) w r w'
      → (w' ≡ w) × FoundBy w.db.users email r
  unfolding with_profile to_entity
  with_profile-Returns none email w found h =
      let (e, f) = pure-Returns {A = Option User} none w h in
      (f, subst (λ o. FoundBy w.db.users email o) e tt)
  with_profile-Returns (some (id, m)) email w found h =
      let read = on_profiles (select_one b.profiles id (λ _. true)) in
      let (p, w1, e1, r1) = bind-ok read _ w h in
      let (t, f1, g1) =
        on-Returns (λ (x : World). x.db.profiles)
          (λ t (x : World). record x { db = record (x.db) { profiles = t } })
          (select_one b.profiles id (λ _. true)) w e1 in
      let (same, _) = select_one-Returns b.profiles w.db.profiles id (λ _. true) f1 in
      let (e2, f2) = pure-Returns (some (to_entity id m (completed_at p))) w1 r1 in
      let (here, same_email) = found id m refl in
      (
        f2 ∙ g1 ∙ ap (λ t. record w { db = record (w.db) { profiles = t } }) same,
        subst (λ o. FoundBy w.db.users email o) e2 (m, here, same_email),
      )

  get_by_email-Returns :
      (email : String) (w : World) {r : Option User} {w' : World}
      → Returns (get_by_email b email) w r w'
      → (w' ≡ w) × FoundBy w.db.users email r
  unfolding get_by_email
  get_by_email-Returns email w {r} {w'} h =
      let p = λ (k : Uuid) (m : UserModel). m.email == email in
      let (row, w1, e1, r1) = bind-ok (on_users (select_first b.users p)) _ w h in
      let (t, f1, g1) = on_users-Returns (select_first b.users p) w e1 in
      let (same, answer) = select_first-Returns b.users w.db.users p f1 in
      let back : w1 ≡ w = g1 ∙ ap (λ t. record w { db = record (w.db) { users = t } }) same in
      with_profile-Returns row email w
        (λ k m e.
          let (here, q) = b.users.select_where_row p w.db.users (answer ∙ ap some e) in
          (here, (string_eq.equal_iff m.email email).0 q))
        (subst (λ y. Returns (with_profile b row) y r w') back r1)

  or_create-Returns :
      (id : Uuid) (email : String) (now : Time) (existing : Option User) (w : World) {x : User}
      {w' : World}
      → FoundBy w.db.users email existing
      → Returns (or_create b id email now existing) w x w'
      → HasEmail w'.db.users x.id email × (w'.committed ≡ w.committed)
  unfolding or_create to_entity
  or_create-Returns id email now (some y) w {x} found h =
      let (e, f) = pure-Returns y w h in
      (
        subst (λ (z : World). HasEmail z.db.users x.id email) (sym f)
            (subst (λ (z : User). HasEmail w.db.users z.id email) e found),
        ap (λ (z : World). z.committed) f,
      )
  or_create-Returns id email now none w {x} found h =
      let (_, w1, e1, r1) = bind-ok (on_users (insert_row b.users id (new_user email now))) _ w h in
      let (t, f1, g1) = on_users-Returns (insert_row b.users id (new_user email now)) w e1 in
      let (_, stored) = insert_row-Returns b.users w.db.users id (new_user email now) f1 in
      let (e2, f2) = pure-Returns (to_entity id (new_user email now) none) w1 r1 in
      let row : w1.db.users id ≡ some (new_user email now) =
        ap (λ (z : World). z.db.users id) g1
        ∙ ap (λ (z : Table UserModel). z id) stored
        ∙ ground (arith, nat_eq.equal_iff id id) in
      (
        subst (λ (z : World). HasEmail z.db.users x.id email) (sym f2)
            (subst (λ k. HasEmail w1.db.users k email) (ap (λ (z : User). z.id) e2)
              (new_user email now, row, refl)),
        ap (λ (z : World). z.committed) (f2 ∙ g1),
      )

  -- The user that is returned is there with the email, and nothing is committed.
  pub get_or_create-Returns :
      (id : Uuid) (email : String) (now : Time) (w : World) {x : User} {w' : World}
      → Returns (get_or_create b id email now) w x w'
      → HasEmail w'.db.users x.id email × (w'.committed ≡ w.committed)
  unfolding get_or_create
  get_or_create-Returns id email now w {x} {w'} h =
      let (existing, w1, e1, r1) = bind-ok (get_by_email b email) _ w h in
      let (same, found) = get_by_email-Returns email w e1 in
      or_create-Returns id email now existing w found
        (subst (λ y. Returns (or_create b id email now existing) y x w') same r1)

module _ (b : Backend) (e : Error) (own : is_failure e ≡ false) where
  with_profile-NeverRaises : (row : Option (Uuid × UserModel)) → NeverRaises e (with_profile b row)
  unfolding with_profile
  with_profile-NeverRaises none = search failure_rules
  with_profile-NeverRaises (some (id, m)) = search failure_rules

  select_first-NeverRaises : (p : Uuid → UserModel → Bool) → NeverRaises e (select_first b.users p)
  unfolding select_first
  select_first-NeverRaises p = record {
    at = λ s u h. elim (Option-cases (b.users.select_where p s)) [
      | inl f ↦ ground arith
      | inr (r, f) ↦ cc
    ];
  }

  get_by_email-NeverRaises : (email : String) → NeverRaises e (get_by_email b email)
  unfolding get_by_email
  get_by_email-NeverRaises email =
      search (failure_rules, with_profile-NeverRaises, select_first-NeverRaises)

  or_create-NeverRaises :
      (id : Uuid) (email : String) (now : Time) (found : Option User)
      → NeverRaises e (or_create b id email now found)
  unfolding or_create
  or_create-NeverRaises id email now none = search failure_rules
  or_create-NeverRaises id email now (some x) = search failure_rules

  pub get_or_create-NeverRaises :
      (id : Uuid) (email : String) (now : Time) → NeverRaises e (get_or_create b id email now)
  unfolding get_or_create
  get_or_create-NeverRaises id email now =
      search (failure_rules, get_by_email-NeverRaises, or_create-NeverRaises)
