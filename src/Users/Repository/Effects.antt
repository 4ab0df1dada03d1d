-- ===== src/Users/Repository/Effects.antt =====
-- What each operation of the user repository leaves in the database when it returns.
use base_backend.Prelude.{
  ◌≡◌, inl, inr, Bool, true, Option, none, some, arith, Option-cases, map_option, nat_eq, update_at,
}
use base_backend.Exec.Inversion.{Returns}
use base_backend.Redis.{Uuid}
use base_backend.Sql.{Table, select_one, update_row}
use base_backend.Authorization.{UserRole, UserStatus}
use base_backend.World.{UserModel, Db, World, Backend}
use base_backend.Users.{User}
use base_backend.Users.Repository.{
  to_entity, completed_at, with_role, with_status, get_by_id, set_verified, update_role,
  update_status,
}

abbrev pub verified : Bool → UserModel → UserModel
verified v m = record m { is_verified = v }

abbrev pub with_users : Table UserModel → World → World
with_users t w = record w { db = record (w.db) { users = t } }

-- The user of a key, as the outer join with the profile shows it.
abbrev pub user_at : Db → Uuid → Option User
user_at db u = map_option (λ m. to_entity u m (completed_at (db.profiles u))) (db.users u)

module _ (b : Backend) (w : World) (u : Uuid) where
  pub get_by_id-Returns :
      {r : Option User} {w' : World}
      → Returns (get_by_id b u) w r w'
      → (w' ≡ w) × (r ≡ user_at w.db u)
  unfolding get_by_id select_one
  get_by_id-Returns h = elim (Option-cases (b.users.select u (λ _. true) w.db.users)) [
    | inl failed ↦ ground arith
    | inr (_, e) ↦ elim (Option-cases (b.profiles.select u (λ _. true) w.db.profiles)) [
      | inl failed ↦ ground (arith, b.users.select_done u (λ _. true) w.db.users e)
      | inr (_, e') ↦ ground (
        arith,
        b.users.select_done u (λ _. true) w.db.users e,
        b.profiles.select_done u (λ _. true) w.db.profiles e',
      )
    ]
  ]

  pub set_verified-Returns :
      (v : Bool) {w' : World}
      → Returns (set_verified b u v) w tt w'
      → w' ≡ with_users (update_at u (map_option (verified v) (w.db.users u)) w.db.users) w
  unfolding set_verified update_row
  set_verified-Returns v h =
      elim (Option-cases (b.users.update_returning u (verified v) w.db.users)) [
        | inl failed ↦ ground arith
        | inr ((_, _), e) ↦
            ground (arith, b.users.update_returning_done u (verified v) w.db.users e)
      ]

  pub update_role-Returns :
      (role : UserRole) {r : Option User} {w' : World}
      → Returns (update_role b u role) w r w'
      → (r ≡ map_option (λ m. to_entity u (with_role role m) none) (w.db.users u))
        × (w' ≡ with_users (update_at u (map_option (with_role role) (w.db.users u)) w.db.users) w)
  unfolding update_role update_row
  update_role-Returns role h =
      elim (Option-cases (b.users.update_returning u (with_role role) w.db.users)) [
        | inl failed ↦ ground arith
        | inr ((_, _), e) ↦
            ground (arith, b.users.update_returning_done u (with_role role) w.db.users e)
      ]

  pub update_status-Returns :
      (status : UserStatus) {r : Option User} {w' : World}
      → Returns (update_status b u status) w r w'
      → (r ≡ map_option (λ m. to_entity u (with_status status m) none) (w.db.users u))
        × (w'
            ≡ with_users
                (update_at u (map_option (with_status status) (w.db.users u)) w.db.users)
                w)
  unfolding update_status update_row
  update_status-Returns status h =
      elim (Option-cases (b.users.update_returning u (with_status status) w.db.users)) [
        | inl failed ↦ ground arith
        | inr ((_, _), e) ↦
            ground (arith, b.users.update_returning_done u (with_status status) w.db.users e)
      ]

-- The row behind a user.
pub user_at-some :
    (db : Db) (id : Uuid) {x : User}
    → user_at db id ≡ some x
    → (m : UserModel) × (db.users id ≡ some m)
      × (x.role ≡ m.role)
      × (x.status ≡ m.status)
      × (x.authorization_version ≡ m.authorization_version)
unfolding to_entity
user_at-some db id h = elim (Option-cases (db.users id)) [
  | inl missing ↦ absurd (ground arith)
  | inr (m, here) ↦ (m, here, ground arith, ground arith, ground arith)
]
