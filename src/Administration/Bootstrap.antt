-- ===== src/Administration/Bootstrap.antt =====
-- app/modules/users/application/use_cases/bootstrap_super_admin.py. The email is passed in as
-- `email.strip().lower()` leaves it, and `id` is the `uuid4()` of a user that is created.
use base_backend.Prelude.{
  ◌≡◌, ◌∙◌, ap, sym, subst, refl, arith, String, Bool, true, false, Option, none, some, ◌==◌,
  map_option,
}
use base_backend.Errors.{user_not_found}
use base_backend.Exec.{Exec, pure, or_raise, ◌>>=◌, ◌>>◌}
use base_backend.Exec.Inversion.{Returns, bind-ok, pure-Returns}
use base_backend.Redis.{Time, Uuid}
use base_backend.Authorization.{super_admin, role_eq}
use base_backend.World.{UserModel, World, Backend, commit, transaction}
use base_backend.World.Transactions.{CommitsLast, Settles, transaction-Returns, commit-CommitsLast}
use base_backend.Users.Requests.{or_raise-KeepsCommitted}
use base_backend.Users.{User, UserDto, user_dto}
use base_backend.Users.Repository.{to_entity, with_role, get_or_create, update_role}
use base_backend.Users.Repository.Effects.{update_role-Returns}
use base_backend.Users.Repository.Transactional.{user_repository_rules}
use base_backend.Administration.{set_version}
use base_backend.Administration.Atomic.{set_version-KeepsCommitted}
use base_backend.Administration.Effects.{or_raise-Returns}

module _ (b : Backend) (now : Time) where
  -- The body of `try`.
  unfoldable pub bootstrap_super_admin_steps : Uuid → Exec World UserDto
  bootstrap_super_admin_steps user_id = do
    row ← update_role b user_id super_admin
    updated ← or_raise row user_not_found
    set_version b now updated
    commit b
    pure (user_dto updated)

  unfoldable pub promote : Bool → User → Exec World UserDto
  promote true u = commit b >> pure (user_dto u)
  promote false u = transaction (bootstrap_super_admin_steps u.id)

  unfoldable pub bootstrap_super_admin : Uuid → String → Exec World UserDto
  bootstrap_super_admin id normalized_email = do
    user ← get_or_create b id normalized_email now
    promote (user.role == super_admin) user

  bootstrap_steps-CommitsLast : (u : Uuid) → CommitsLast (bootstrap_super_admin_steps u)
  unfolding bootstrap_super_admin_steps
  bootstrap_steps-CommitsLast u =
      search (user_repository_rules, or_raise-KeepsCommitted, set_version-KeepsCommitted) depth 10

  settled :
      {d : UserDto} (m : Exec World UserDto) (w : World) {w' : World}
      → CommitsLast m
      → Returns m w d w'
      → w'.db ≡ w'.committed
  settled m w k h = subst (λ r. Settles w.committed r) h (k.at w)

  promoted_role :
      (u : Uuid) (o : Option UserModel) (x : User)
      → map_option (λ m. to_entity u (with_role super_admin m) none) o ≡ some x
      → (user_dto x).role ≡ super_admin
  unfolding to_entity user_dto
  promoted_role u none x h = absurd (cc)
  promoted_role u (some m) x h = ground arith

  steps-Returns :
      (u : Uuid) (w : World) {d : UserDto} {w' : World}
      → Returns (bootstrap_super_admin_steps u) w d w'
      → d.role ≡ super_admin
  unfolding bootstrap_super_admin_steps
  steps-Returns u w h =
      let (row, w1, e1, r1) = bind-ok (update_role b u super_admin) _ w h in
      let (x, w2, e2, r2) = bind-ok (or_raise row user_not_found) _ w1 r1 in
      let (_, w3, e3, r3) = bind-ok (set_version b now x) _ w2 r2 in
      let (_, w4, e4, r4) = bind-ok (commit b) _ w3 r3 in
      let (answer, _) = update_role-Returns b w u super_admin e1 in
      let (there, _) = or_raise-Returns b now u row user_not_found w1 e2 in
      let (shown, _) = pure-Returns (user_dto x) w4 r4 in
      sym (ap (λ (y : UserDto). y.role) shown)
      ∙ promoted_role u (w.db.users u) x (sym answer ∙ there)

  promote-Returns :
      (c : Bool) (x : User) (w : World) {d : UserDto} {w' : World}
      → (x.role == super_admin) ≡ c
      → Returns (promote c x) w d w'
      → (d.role ≡ super_admin) × (w'.db ≡ w'.committed)
  unfolding promote user_dto
  promote-Returns true x w e h =
      let (_, w1, e1, r1) = bind-ok (commit b) _ w h in
      let (shown, _) = pure-Returns (user_dto x) w1 r1 in
      (
        sym (ap (λ (y : UserDto). y.role) shown) ∙ (role_eq.equal_iff x.role super_admin).0 e,
        settled (commit b >> pure (user_dto x)) w (commit-CommitsLast b (user_dto x)) h,
      )
  promote-Returns false x w e h =
      let r = transaction-Returns (bootstrap_super_admin_steps x.id) w h in
      (
        steps-Returns x.id w r,
        settled (bootstrap_super_admin_steps x.id) w (bootstrap_steps-CommitsLast x.id) r,
      )

  -- The user that the bootstrap returns is a super admin, whether it was one, had another role or was
  -- created, and nothing is left uncommitted.
  pub bootstrap_super_admin-Returns :
      (id : Uuid) (normalized_email : String) (w : World) {d : UserDto} {w' : World}
      → Returns (bootstrap_super_admin id normalized_email) w d w'
      → (d.role ≡ super_admin) × (w'.db ≡ w'.committed)
  unfolding bootstrap_super_admin
  bootstrap_super_admin-Returns id normalized_email w h =
      let (x, w1, e1, r1) = bind-ok (get_or_create b id normalized_email now) _ w h in
      promote-Returns (x.role == super_admin) x w1 refl r1
