-- ===== src/Administration/Permissions.antt =====
-- Who may change what, and from which status: what the use cases have tested when they return.
use base_backend.Prelude.{
  ℕ, ◌≡◌, ◌⊎◌, ◌∙◌, inl, inr, ap, subst, sym, refl, true, not, Option, none, some, arith, ◌==◌,
  nat_eq, map_option,
}
use base_backend.Errors.{user_not_found, forbidden, invalid_user_status_transition}
use base_backend.Exec.{or_raise, raise_if}
use base_backend.Exec.Inversion.{Returns, bind-ok, raise_if-Returns}
use base_backend.Redis.{Time, Uuid}
use base_backend.Authorization.{
  UserRole, UserStatus, super_admin, admin, user, active, deletion_requested, role_eq, status_eq,
}
use base_backend.World.{UserModel, World, Backend}
use base_backend.World.Transactions.{transaction-Returns}
use base_backend.Users.{User, UserDto}
use base_backend.Users.Repository.{to_entity, completed_at, get_by_id}
use base_backend.Users.Repository.Effects.{get_by_id-Returns}
use base_backend.Administration.{
  can_manage_target, ensure_can_manage_target, change_user_role_steps, change_user_status_steps,
  request_account_deletion_steps, approve_user_deletion_request_steps, change_user_role,
  change_user_status, request_account_deletion, approve_user_deletion_request,
}
use base_backend.Administration.Effects.{
  set_role, set_status, IsChanged, IsApproved, or_raise-Returns, change_user_role_steps-Returns,
  change_user_status_steps-Returns, request_account_deletion_steps-Returns,
  approve_user_deletion_request_steps-Returns,
}

-- A super admin may manage anyone, and an admin the plain users.
abbrev pub MayManage : UserRole → UserModel → Type 0
MayManage actor m = (actor ≡ super_admin) ⊎ ((actor ≡ admin) × (m.role ≡ user))

pub may_manage :
    (actor : UserRole) (id : Uuid) (m : UserModel) (o : Option ℕ)
    → can_manage_target actor (to_entity id m o) ≡ true
    → MayManage actor m
unfolding to_entity
may_manage super_admin id m o h = inl refl
may_manage admin id m o h = inr (refl, ground arith)
may_manage user id m o h = absurd (ground arith)

module _ (b : Backend) (now : Time) (u : Uuid) where
  -- The user that the first lines look up.
  pub target_row :
      (w : World) {x : User} {w1 w2 : World} {found : Option User}
      → Returns (get_by_id b u) w found w1
      → Returns (or_raise found user_not_found) w1 x w2
      → (m : UserModel) × (w.db.users u ≡ some m)
        × (x ≡ to_entity u m (completed_at (w.db.profiles u)))
        × (w2 ≡ w)
  target_row w {x} {w1} {w2} {found} e1 e2 =
      let (f1, answer) = get_by_id-Returns b w u e1 in
      let (there, f2) = or_raise-Returns b now u found user_not_found w1 e2 in
      row (w.db.users u) (f2 ∙ f1) (sym answer ∙ there)
    where
      row :
          (o : Option UserModel)
          → w2 ≡ w
          → map_option (λ m. to_entity u m (completed_at (w.db.profiles u))) o ≡ some x
          → (m : UserModel) × (o ≡ some m)
            × (x ≡ to_entity u m (completed_at (w.db.profiles u)))
            × (w2 ≡ w)
      row none s h = absurd (cc)
      row (some m) s h = (m, refl, cc, s)

  pub permitted :
      (actor : UserRole) (x : User) (s : World) {w' : World}
      → Returns (ensure_can_manage_target b now actor x) s tt w'
      → (can_manage_target actor x ≡ true) × (w' ≡ s)
  unfolding ensure_can_manage_target
  permitted actor x s h =
      let (e, f) = raise_if-Returns (not (can_manage_target actor x)) forbidden s h in
      (ground arith, f)

  -- Only a super admin changes a role. The row has the new role and the next version and is else as it was,
  -- which is committed, and the cache has got that version.
  pub change_user_role-Returns :
      (actor : UserRole) (role : UserRole) (w : World) {d : UserDto} {w' : World}
      → Returns (change_user_role b now actor u role) w d w'
      → (actor ≡ super_admin) × IsChanged b now u (set_role role) w w'
  unfolding change_user_role
  change_user_role-Returns actor role w {d} {w'} h =
      let (_, w1, e1, r1) = bind-ok (raise_if (not (actor == super_admin)) forbidden) _ w h in
      let (allowed, same) = raise_if-Returns (not (actor == super_admin)) forbidden w e1 in
      let steps = change_user_role_steps b now u role in
      (
        (role_eq.equal_iff actor super_admin).0 (ground arith),
        change_user_role_steps-Returns b now u role w
            (subst (λ y. Returns steps y d w') same (transaction-Returns steps w1 r1)),
      )

  -- A status is changed by a super admin, or by an admin if its user is a plain user. The row has the new
  -- status and the next version and is else as it was, which is committed, and the cache has got that
  -- version.
  pub change_user_status-Returns :
      (actor : UserRole) (status : UserStatus) (w : World) {d : UserDto} {w' : World}
      → Returns (change_user_status b now actor u status) w d w'
      → ((m : UserModel) × (w.db.users u ≡ some m) × MayManage actor m)
        × IsChanged b now u (set_status status) w w'
  unfolding change_user_status to_entity
  change_user_status-Returns actor status w {d} {w'} h =
      let (found, w1, e1, r1) = bind-ok (get_by_id b u) _ w h in
      let (x, w2, e2, r2) = bind-ok (or_raise found user_not_found) _ w1 r1 in
      let (_, w3, e3, r3) = bind-ok (ensure_can_manage_target b now actor x) _ w2 r2 in
      let (m, here, ex, f2) = target_row w e1 e2 in
      let (allowed, f3) = permitted actor x w2 e3 in
      let steps = change_user_status_steps b now u status in
      let r4 = transaction-Returns (change_user_status_steps b now x.id status) w3 r3 in
      let r5 =
        subst (λ (y : User). Returns (change_user_status_steps b now y.id status) w3 d w') ex r4 in
      (
        (
          m,
          here,
          may_manage actor u m (completed_at (w.db.profiles u))
              (subst (λ y. can_manage_target actor y ≡ true) ex allowed),
        ),
        change_user_status_steps-Returns b now u status w
            (subst (λ y. Returns steps y d w') (f3 ∙ f2) r5),
      )

  -- A user asks for its deletion only while it is active. The row has the status `deletion_requested` and the
  -- next version and is else as it was, which is committed, and the cache has got that version.
  pub request_account_deletion-Returns :
      (w : World) {d : UserDto} {w' : World}
      → Returns (request_account_deletion b now u) w d w'
      → ((m : UserModel) × (w.db.users u ≡ some m) × (m.status ≡ active))
        × IsChanged b now u (set_status deletion_requested) w w'
  unfolding request_account_deletion to_entity
  request_account_deletion-Returns w {d} {w'} h =
      let (found, w1, e1, r1) = bind-ok (get_by_id b u) _ w h in
      let (x, w2, e2, r2) = bind-ok (or_raise found user_not_found) _ w1 r1 in
      let (_, w3, e3, r3) =
        bind-ok (raise_if (not (x.status == active)) invalid_user_status_transition) _ w2 r2 in
      let (m, here, ex, f2) = target_row w e1 e2 in
      let (is_active, f3) =
        raise_if-Returns (not (x.status == active)) invalid_user_status_transition w2 e3 in
      let steps = request_account_deletion_steps b now u in
      (
        (
          m,
          here,
          sym (ap (λ (y : User). y.status) ex)
              ∙ (status_eq.equal_iff x.status active).0 (ground arith),
        ),
        request_account_deletion_steps-Returns b now u w
            (subst (λ y. Returns steps y d w') (f3 ∙ f2) (transaction-Returns steps w3 r3)),
      )

  -- A deletion is approved by who may manage the user, and only after the user asked for it. The row then has
  -- the status `deleted` and the next version and its active sessions are revoked, which is committed; the
  -- access state has got that version and then revoked the sessions.
  pub approve_user_deletion_request-Returns :
      (actor : UserRole) (w : World) {d : UserDto} {w' : World}
      → Returns (approve_user_deletion_request b now actor u) w d w'
      → ((m : UserModel) × (w.db.users u ≡ some m)
          × MayManage actor m
          × (m.status ≡ deletion_requested))
        × IsApproved b now u w w'
  unfolding approve_user_deletion_request to_entity
  approve_user_deletion_request-Returns actor w {d} {w'} h =
      let (found, w1, e1, r1) = bind-ok (get_by_id b u) _ w h in
      let (x, w2, e2, r2) = bind-ok (or_raise found user_not_found) _ w1 r1 in
      let (_, w3, e3, r3) = bind-ok (ensure_can_manage_target b now actor x) _ w2 r2 in
      let (_, w4, e4, r4) =
        bind-ok (raise_if (not (x.status == deletion_requested)) invalid_user_status_transition) _
          w3 r3 in
      let (m, here, ex, f2) = target_row w e1 e2 in
      let (allowed, f3) = permitted actor x w2 e3 in
      let (asked, f4) =
        raise_if-Returns (not (x.status == deletion_requested)) invalid_user_status_transition w3
          e4 in
      let steps = approve_user_deletion_request_steps b now u in
      (
        (
          m,
          here,
          may_manage actor u m (completed_at (w.db.profiles u))
              (subst (λ y. can_manage_target actor y ≡ true) ex allowed),
          sym (ap (λ (y : User). y.status) ex)
              ∙ (status_eq.equal_iff x.status deletion_requested).0 (ground arith),
        ),
        approve_user_deletion_request_steps-Returns b now u w
            (subst (λ y. Returns steps y d w') (f4 ∙ f3 ∙ f2) (transaction-Returns steps w4 r4)),
      )
