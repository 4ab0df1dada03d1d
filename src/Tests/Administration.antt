-- ===== src/Tests/Administration.antt =====
-- The changes of a role and of a status on a concrete backend.
use base_backend.Prelude.{◌≡◌, refl, false, some, nat_eq, arith}
use base_backend.Exec.Inversion.{Returns}
use base_backend.Redis.{Uuid, run, runs}
use base_backend.Sql.{select_one, update_row, update_all}
use base_backend.Authorization.{
  super_admin, admin, user, active, blocked, deletion_requested, deleted, role_eq, status_eq,
  CurrentPrincipal,
}
use base_backend.Authorization.Store
use base_backend.World.{UserModel, World, commit}
use base_backend.Users.{UserDto, user_dto}
use base_backend.Users.Repository.{to_entity, get_by_id, update_role, update_status}
use base_backend.Auth.Repository.{revoke_all_active_for_user}
use base_backend.Auth.ValidateAccessToken.{validate_access_token}
use base_backend.Administration.{
  ensure_can_manage_target, updated_or_rollback, set_version, change_user_role_steps,
  change_user_role, change_user_status_steps, change_user_status, request_account_deletion_steps,
  request_account_deletion, approve_user_deletion_request_steps, approve_user_deletion_request,
}
use base_backend.Administration.Effects.{set_role, set_status, IsChanged, IsApproved}
use base_backend.Administration.Permissions.{
  MayManage, change_user_role-Returns, change_user_status-Returns, request_account_deletion-Returns,
  approve_user_deletion_request-Returns,
}
use base_backend.Administration.Invalidation.{
  status_changed, changes-refuse_old, approved_deletion-refuses,
}
use base_backend.Tests.Fixtures.{backend, signed_in, principal, at, validate_at, ann, bob}
use base_backend.Tests.Sessions.{cached-IsIndexed}

abbrev dto : Uuid → UserModel → UserDto
dto id m = record {
  id = id;
  email = m.email;
  role = m.role;
  status = m.status;
  is_verified = m.is_verified;
  created_at = m.created_at;
  is_user_data_uploaded = false;
}

abbrev blocked_ann : World
blocked_ann = (change_user_status backend (at 1_500) admin 1 blocked signed_in).1

status_returns :
    Returns
      (change_user_status backend (at 1_500) admin 1 blocked)
      signed_in
      (dto 1 (set_status blocked ann))
      blocked_ann
unfolding change_user_status change_user_status_steps ensure_can_manage_target set_version get_by_id
    update_status update_row select_one to_entity user_dto Store.set_authorization_version
    Store.set_authorization_version_if_greater Store.write run runs commit
status_returns = refl

change_user_status-Returns_example :
    ((m : UserModel) × (signed_in.db.users 1 ≡ some m) × MayManage admin m)
    × IsChanged backend (at 1_500) 1 (set_status blocked) signed_in blocked_ann
change_user_status-Returns_example =
    change_user_status-Returns backend (at 1_500) 1 admin blocked signed_in status_returns

changes-refuse_old_example :
    ¬ Returns
      (validate_access_token backend (validate_at 1_600) "access")
      blocked_ann
      principal
      blocked_ann
changes-refuse_old_example =
    changes-refuse_old backend (at 1_500) 1 signed_in blocked_ann ann (validate_at 1_600) "access"
      (omega arith) refl
      (status_changed admin blocked (dto 1 (set_status blocked ann)) status_returns) refl
      (omega arith)

abbrev promoted : World
promoted = (change_user_role backend (at 1_500) super_admin 1 admin signed_in).1

role_returns :
    Returns
      (change_user_role backend (at 1_500) super_admin 1 admin)
      signed_in
      (dto 1 (set_role admin ann))
      promoted
unfolding change_user_role change_user_role_steps set_version update_role update_row to_entity
    user_dto Store.set_authorization_version Store.set_authorization_version_if_greater Store.write
    run runs commit
role_returns = refl

change_user_role-Returns_example :
    (super_admin ≡ super_admin) × IsChanged backend (at 1_500) 1 (set_role admin) signed_in promoted
change_user_role-Returns_example =
    change_user_role-Returns backend (at 1_500) 1 super_admin admin signed_in role_returns

abbrev asked : World
asked = (request_account_deletion backend (at 1_500) 1 signed_in).1

asked_returns :
    Returns
      (request_account_deletion backend (at 1_500) 1)
      signed_in
      (dto 1 (set_status deletion_requested ann))
      asked
unfolding request_account_deletion request_account_deletion_steps updated_or_rollback set_version
    get_by_id update_status update_row select_one to_entity user_dto Store.set_authorization_version
    Store.set_authorization_version_if_greater Store.write run runs commit
asked_returns = refl

request_account_deletion-Returns_example :
    ((m : UserModel) × (signed_in.db.users 1 ≡ some m) × (m.status ≡ active))
    × IsChanged backend (at 1_500) 1 (set_status deletion_requested) signed_in asked
request_account_deletion-Returns_example =
    request_account_deletion-Returns backend (at 1_500) 1 signed_in asked_returns

abbrev approved : World
approved = (approve_user_deletion_request backend (at 1_500) admin 2 signed_in).1

approved_returns :
    Returns
      (approve_user_deletion_request backend (at 1_500) admin 2)
      signed_in
      (dto 2 (set_status deleted bob))
      approved
unfolding approve_user_deletion_request approve_user_deletion_request_steps ensure_can_manage_target
    updated_or_rollback set_version get_by_id update_status update_row select_one to_entity user_dto
    revoke_all_active_for_user update_all Store.revoke_all_sessions Store.set_authorization_version
    Store.set_authorization_version_if_greater Store.write run runs commit
approved_returns = refl

approve_user_deletion_request-Returns_example :
    ((m : UserModel) × (signed_in.db.users 2 ≡ some m)
      × MayManage admin m
      × (m.status ≡ deletion_requested))
    × IsApproved backend (at 1_500) 2 signed_in approved
approve_user_deletion_request-Returns_example =
    approve_user_deletion_request-Returns backend (at 1_500) 2 admin signed_in approved_returns

abbrev bobs : CurrentPrincipal
bobs = record { user_id = 2; session_id = 23; role = user; authorization_version = 9 }

approved_deletion-refuses_example :
    ¬ Returns (validate_access_token backend (validate_at 1_600) "access") approved bobs approved
approved_deletion-refuses_example =
    approved_deletion-refuses backend (at 1_500) 2 signed_in approved admin (validate_at 1_600)
      "access" (cached-IsIndexed 1_500) (omega arith) approved_returns refl
