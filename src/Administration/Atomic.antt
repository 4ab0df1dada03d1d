-- ===== src/Administration/Atomic.antt =====
-- The use cases that change a user's role or status are atomic.
use base_backend.Prelude.{◌≡◌, refl, Option, none, some, nat_eq}
use base_backend.Redis.{Time, Uuid}
use base_backend.Authorization.{UserRole, UserStatus}
use base_backend.World.{World, Backend, rollback}
use base_backend.World.Transactions.{KeepsCommitted, CommitsLast, IsAtomic, transaction_rules}
use base_backend.Users.{User}
use base_backend.Users.Repository.Transactional.{user_repository_rules}
use base_backend.Auth.Repository.Transactional.{revoke_all_active_for_user-KeepsCommitted}
use base_backend.Administration.{
  ensure_can_manage_target, updated_or_rollback, set_version, change_user_role_steps,
  change_user_status_steps, request_account_deletion_steps, approve_user_deletion_request_steps,
  change_user_role, change_user_status, request_account_deletion, approve_user_deletion_request,
}
use base_backend.Users.Requests.{
  IsAtomicRequest, IsReading, or_raise-KeepsCommitted, or_raise-IsReading, raise_if-IsReading,
  transaction-IsAtomicRequest, bind-IsAtomicRequest, get_by_id-IsReading,
}

module _ (b : Backend) where
  updated_or_rollback-KeepsCommitted : (o : Option User) → KeepsCommitted (updated_or_rollback o)
  unfolding updated_or_rollback rollback
  updated_or_rollback-KeepsCommitted none = record { at = λ w. refl }
  updated_or_rollback-KeepsCommitted (some u) = record { at = λ w. refl }

module _ (b : Backend) (now : Time) where
  pub set_version-KeepsCommitted : (x : User) → KeepsCommitted (set_version b now x)
  unfolding set_version
  set_version-KeepsCommitted x = search transaction_rules

  ensure-IsReading :
      (actor : UserRole) (x : User) → IsReading (ensure_can_manage_target b now actor x)
  unfolding ensure_can_manage_target
  ensure-IsReading actor x = raise_if-IsReading _ _

  ruleset step_rules = (
    user_repository_rules, or_raise-KeepsCommitted, updated_or_rollback-KeepsCommitted,
    set_version-KeepsCommitted, revoke_all_active_for_user-KeepsCommitted,
  )

  change_user_role_steps-CommitsLast :
      (u : Uuid) (role : UserRole) → CommitsLast (change_user_role_steps b now u role)
  unfolding change_user_role_steps
  change_user_role_steps-CommitsLast u role = search step_rules depth 10

  change_user_status_steps-CommitsLast :
      (u : Uuid) (status : UserStatus) → CommitsLast (change_user_status_steps b now u status)
  unfolding change_user_status_steps
  change_user_status_steps-CommitsLast u status = search step_rules depth 10

  request_account_deletion_steps-CommitsLast :
      (u : Uuid) → CommitsLast (request_account_deletion_steps b now u)
  unfolding request_account_deletion_steps
  request_account_deletion_steps-CommitsLast u = search step_rules depth 10

  approve_user_deletion_request_steps-CommitsLast :
      (u : Uuid) → CommitsLast (approve_user_deletion_request_steps b now u)
  unfolding approve_user_deletion_request_steps
  approve_user_deletion_request_steps-CommitsLast u = search step_rules depth 12

  ruleset request_rules = (
    transaction-IsAtomicRequest, bind-IsAtomicRequest, or_raise-IsReading, raise_if-IsReading,
    get_by_id-IsReading, ensure-IsReading, change_user_role_steps-CommitsLast,
    change_user_status_steps-CommitsLast, request_account_deletion_steps-CommitsLast,
    approve_user_deletion_request_steps-CommitsLast,
  )

  role-request :
      (actor : UserRole) (u : Uuid) (role : UserRole)
      → IsAtomicRequest (change_user_role b now actor u role)
  unfolding change_user_role
  role-request actor u role = search request_rules depth 10

  status-request :
      (actor : UserRole) (u : Uuid) (status : UserStatus)
      → IsAtomicRequest (change_user_status b now actor u status)
  unfolding change_user_status
  status-request actor u status = search request_rules depth 10

  deletion-request : (u : Uuid) → IsAtomicRequest (request_account_deletion b now u)
  unfolding request_account_deletion
  deletion-request u = search request_rules depth 10

  approval-request :
      (actor : UserRole) (u : Uuid) → IsAtomicRequest (approve_user_deletion_request b now actor u)
  unfolding approve_user_deletion_request
  approval-request actor u = search request_rules depth 10

  pub changes-IsAtomic :
      (actor : UserRole) (u : Uuid) (role : UserRole) (status : UserStatus) (w : World)
      → w.db ≡ w.committed
      → IsAtomic w.committed (change_user_role b now actor u role w)
        × IsAtomic w.committed (change_user_status b now actor u status w)
        × IsAtomic w.committed (request_account_deletion b now u w)
        × IsAtomic w.committed (approve_user_deletion_request b now actor u w)
  changes-IsAtomic actor u role status w h = (
    (role-request actor u role).at w h,
    (status-request actor u status).at w h,
    (deletion-request u).at w h,
    (approval-request actor u).at w h,
  )
