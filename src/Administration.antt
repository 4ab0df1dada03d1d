-- ===== src/Administration.antt =====
-- The use cases of app/modules/users/application/use_cases that change a user's role or status:
-- _permissions.py, change_user_role.py, change_user_status.py, request_account_deletion.py,
-- approve_user_deletion_request.py and, in Bootstrap, bootstrap_super_admin.py; in Lookups, those that
-- read. `now` is the time at which Redis gets the new version and, in the approval, what
-- `datetime.now(UTC)` returned.
pub mod Atomic
pub mod Writes
pub mod Effects
pub mod Permissions
pub mod Invalidation
pub mod Lookups
pub mod Bootstrap
use base_backend.Prelude.{Bool, true, false, not, ◌&&◌, Option, none, some, ◌==◌, if◌then◌else◌}
use base_backend.Errors.{forbidden, user_not_found, invalid_user_status_transition}
use base_backend.Exec.{Exec, pure, raise, raise_if, or_raise, ◌>>=◌, ◌>>◌}
use base_backend.Redis.{Time, Uuid}
use base_backend.Authorization.{
  UserRole, UserStatus, super_admin, admin, user, active, deletion_requested, deleted, role_eq,
  status_eq,
}
use base_backend.Authorization.Store
use base_backend.World.{World, Backend, on_redis, commit, rollback, transaction}
use base_backend.Users.{User, UserDto, user_dto}
use base_backend.Users.Repository.{get_by_id, update_role, update_status}
use base_backend.Auth.Repository.{revoke_all_active_for_user}

-- `ensure_can_manage_target`, which raises where this is false.
abbrev pub can_manage_target : UserRole → User → Bool
can_manage_target actor_role target =
    if actor_role == super_admin then true else (actor_role == admin) && (target.role == user)

-- `if updated is None: await self._unit_of_work.rollback(); raise UserNotFoundError()`
unfoldable pub updated_or_rollback : Option User → Exec World User
updated_or_rollback none = rollback >> raise user_not_found
updated_or_rollback (some u) = pure u

module _ (b : Backend) (now : Time) where
  unfoldable pub ensure_can_manage_target : UserRole → User → Exec World (Unit {0})
  ensure_can_manage_target actor_role target =
      raise_if (not (can_manage_target actor_role target)) forbidden

  -- `set_authorization_version(updated.id, updated.authorization_version)`
  unfoldable pub set_version : User → Exec World (Unit {0})
  set_version updated =
      on_redis
        (Store.set_authorization_version b.redis now updated.id updated.authorization_version)

  -- The body of `try` in each use case, under the name of the use case.
  unfoldable pub change_user_role_steps : Uuid → UserRole → Exec World UserDto
  change_user_role_steps user_id role = do
    row ← update_role b user_id role
    updated ← or_raise row user_not_found
    set_version updated
    commit b
    pure (user_dto updated)

  unfoldable pub change_user_role : UserRole → Uuid → UserRole → Exec World UserDto
  change_user_role actor_role user_id role = do
    raise_if (not (actor_role == super_admin)) forbidden
    transaction (change_user_role_steps user_id role)

  unfoldable pub change_user_status_steps : Uuid → UserStatus → Exec World UserDto
  change_user_status_steps user_id status = do
    row ← update_status b user_id status
    updated ← or_raise row user_not_found
    set_version updated
    commit b
    pure (user_dto updated)

  unfoldable pub change_user_status : UserRole → Uuid → UserStatus → Exec World UserDto
  change_user_status actor_role user_id status = do
    found ← get_by_id b user_id
    target ← or_raise found user_not_found
    ensure_can_manage_target actor_role target
    transaction (change_user_status_steps target.id status)

  unfoldable pub request_account_deletion_steps : Uuid → Exec World UserDto
  request_account_deletion_steps user_id = do
    row ← update_status b user_id deletion_requested
    updated ← updated_or_rollback row
    set_version updated
    commit b
    pure (user_dto updated)

  unfoldable pub request_account_deletion : Uuid → Exec World UserDto
  request_account_deletion user_id = do
    found ← get_by_id b user_id
    u ← or_raise found user_not_found
    raise_if (not (u.status == active)) invalid_user_status_transition
    transaction (request_account_deletion_steps user_id)

  unfoldable pub approve_user_deletion_request_steps : Uuid → Exec World UserDto
  approve_user_deletion_request_steps user_id = do
    row ← update_status b user_id deleted
    updated ← updated_or_rollback row
    revoke_all_active_for_user b user_id now
    set_version updated
    on_redis (Store.revoke_all_sessions b.redis now user_id)
    commit b
    pure (user_dto updated)

  unfoldable pub approve_user_deletion_request : UserRole → Uuid → Exec World UserDto
  approve_user_deletion_request actor_role user_id = do
    found ← get_by_id b user_id
    target ← or_raise found user_not_found
    ensure_can_manage_target actor_role target
    raise_if (not (target.status == deletion_requested)) invalid_user_status_transition
    transaction (approve_user_deletion_request_steps user_id)
