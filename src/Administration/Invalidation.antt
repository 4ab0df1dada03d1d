-- ===== src/Administration/Invalidation.antt =====
-- What a change of a user's role or status does to the access tokens that were issued before.
use base_backend.Prelude.{◌≤◌, ◌+◌, ◌≡◌, ◌∙◌, ap, subst, sym, refl, String, some, arith, nat_eq}
use base_backend.Exec.Inversion.{Returns}
use base_backend.Redis.{Time, Uuid}
use base_backend.Authorization.{UserRole, UserStatus, CurrentPrincipal, deleted}
use base_backend.Authorization.Store
use base_backend.Authorization.Store.{set_version_call, revoke_all_call, perform}
use base_backend.Authorization.Store.Versions.{
  HasVersion, IsVersionKey, set_authorization_version-HasVersion, perform-HasVersion,
}
use base_backend.Authorization.Store.Index.{IsIndexed, perform-IsIndexed}
use base_backend.World.{UserModel, World, Backend}
use base_backend.Users.{UserDto}
use base_backend.Users.Repository.{with_role, with_status}
use base_backend.Auth.ValidateAccessToken.{ValidateCall, validate_access_token}
use base_backend.Auth.ValidateAccessToken.Refusals.{validate_access_token-refuses_old}
use base_backend.Auth.SignedOut.{all_gone-refuses}
use base_backend.Authorization
use base_backend.Administration.{
  change_user_role, change_user_status, request_account_deletion, approve_user_deletion_request,
}
use base_backend.Administration.Effects.{IsChanged, IsApproved}
use base_backend.Administration.Permissions.{
  change_user_role-Returns, change_user_status-Returns, request_account_deletion-Returns,
  approve_user_deletion_request-Returns,
}

module _ (b : Backend) (now : Time) (u : Uuid) (w w' : World) where
  -- One of the use cases that change a user's role or status has returned.
  pub data HasChanged : Type 0 where
    role_changed :
        (actor role : UserRole) (d : UserDto)
        → Returns (change_user_role b now actor u role) w d w'
        → HasChanged
    status_changed :
        (actor : UserRole) (status : UserStatus) (d : UserDto)
        → Returns (change_user_status b now actor u status) w d w'
        → HasChanged
    deletion_requested :
        (d : UserDto) → Returns (request_account_deletion b now u) w d w' → HasChanged
    deletion_approved :
        (actor : UserRole) (d : UserDto)
        → Returns (approve_user_deletion_request b now actor u) w d w'
        → HasChanged

-- After a change of a user's role or status has returned, no access token of that user that carries the
-- version from before the change, or an earlier one, is accepted, whatever its session.
pub changes-refuse_old :
    (b : Backend) (now : Time) (u : Uuid) (w w' : World) (m : UserModel) (call : ValidateCall)
    (token : String) {q : CurrentPrincipal} {w'' : World}
    → IsVersionKey u w.redis
    → w.db.users u ≡ some m
    → HasChanged b now u w w'
    → q.user_id ≡ u
    → q.authorization_version ≤ m.authorization_version
    → ¬ Returns (validate_access_token b call token) w' q w''
changes-refuse_old b now u w w' m call token {q} {w''} key here change same old =
    let has = version_of change in
    validate_access_token-refuses_old b call token w' (m.authorization_version + 1)
      (subst (λ x. HasVersion x (m.authorization_version + 1) w'.redis) (sym same) has)
      (omega arith)
  where
    told_version :
        (f : UserModel → UserModel)
        → ((n : UserModel) → (f n).authorization_version ≡ n.authorization_version + 1)
        → IsChanged b now u f w w'
        → HasVersion u (m.authorization_version + 1) w'.redis
    told_version f next c =
        let same_row : c.row ≡ m = cc (c.user_row, here) in
        let v : (f c.row).authorization_version ≡ m.authorization_version + 1 =
          next c.row ∙ ap (λ (n : UserModel). n.authorization_version + 1) same_row in
        subst (λ n. HasVersion u n w'.redis) v
          (subst (λ (y : World). HasVersion u (f c.row).authorization_version y.redis) (sym c.state)
            (set_authorization_version-HasVersion now u _ b.redis w.redis key c.told))

    approved_version : IsApproved b now u w w' → HasVersion u (m.authorization_version + 1) w'.redis
    approved_version c =
        let same_row : c.row ≡ m = cc (c.user_row, here) in
        let v : c.row.authorization_version + 1 ≡ m.authorization_version + 1 =
          ap (λ (n : UserModel). n.authorization_version + 1) same_row in
        subst (λ n. HasVersion u n w'.redis) v
          (subst (λ (y : World). HasVersion u (c.row.authorization_version + 1) y.redis)
            (sym c.state)
            (perform-HasVersion now u _ b.redis (revoke_all_call u) c.versioned
              (set_authorization_version-HasVersion now u _ b.redis w.redis key c.told) c.revoked))

    version_of : HasChanged b now u w w' → HasVersion u (m.authorization_version + 1) w'.redis
    version_of (role_changed actor role d h) =
        told_version (with_role role) (λ n. refl)
          ((change_user_role-Returns b now u actor role w h).1)
    version_of (status_changed actor status d h) =
        told_version (with_status status) (λ n. refl)
          ((change_user_status-Returns b now u actor status w h).1)
    version_of (deletion_requested d h) =
        told_version (with_status Authorization.deletion_requested) (λ n. refl)
          ((request_account_deletion-Returns b now u w h).1)
    version_of (deletion_approved actor d h) =
        approved_version ((approve_user_deletion_request-Returns b now u actor w h).1)

-- After the deletion of a user was approved, on an indexed store, no access token of that user is
-- accepted, at that time or later, whatever version it carries.
pub approved_deletion-refuses :
    (b : Backend) (now : Time) (u : Uuid) (w w' : World) (actor : UserRole) (call : ValidateCall)
    (token : String) {d : UserDto} {q : CurrentPrincipal} {w'' : World}
    → IsIndexed now w.redis
    → now ≤ call.read_now
    → Returns (approve_user_deletion_request b now actor u) w d w'
    → q.user_id ≡ u
    → ¬ Returns (validate_access_token b call token) w' q w''
approved_deletion-refuses b now u w w' actor call token indexed le h same =
    let c = (approve_user_deletion_request-Returns b now u actor w h).1 in
    all_gone-refuses b now u c.versioned w.db.sessions call token w'
      (perform-IsIndexed b.redis now (set_version_call u _) w.redis tt indexed c.told) le
      (subst (λ y. Returns (Store.revoke_all_sessions b.redis now u) c.versioned tt y)
        (sym (ap (λ (x : World). x.redis) c.state)) c.revoked)
      (ap (λ (x : World). x.db.sessions) c.state) same
