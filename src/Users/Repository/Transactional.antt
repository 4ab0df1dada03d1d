-- ===== src/Users/Repository/Transactional.antt =====
-- The operations of the user repository commit nothing.
use base_backend.Prelude.{String, Bool, Option, none, some}
use base_backend.Redis.{Time, Uuid}
use base_backend.Authorization.{UserRole, UserStatus}
use base_backend.World.{UserModel, Backend}
use base_backend.World.Transactions.{KeepsCommitted, transaction_rules}
use base_backend.Users.{User}
use base_backend.Users.Repository.{
  with_profile, get_by_email, get_by_id, or_create, get_or_create, set_verified, update_role,
  update_status,
}

module _ (b : Backend) where
  with_profile-KeepsCommitted :
      (row : Option (Uuid × UserModel)) → KeepsCommitted (with_profile b row)
  unfolding with_profile
  with_profile-KeepsCommitted none = search transaction_rules
  with_profile-KeepsCommitted (some (id, m)) = search transaction_rules

  pub get_by_id-KeepsCommitted : (u : Uuid) → KeepsCommitted (get_by_id b u)
  unfolding get_by_id
  get_by_id-KeepsCommitted u = search (transaction_rules, with_profile-KeepsCommitted)

  pub get_by_email-KeepsCommitted : (email : String) → KeepsCommitted (get_by_email b email)
  unfolding get_by_email
  get_by_email-KeepsCommitted email = search (transaction_rules, with_profile-KeepsCommitted)

  or_create-KeepsCommitted :
      (id : Uuid) (email : String) (now : Time) (found : Option User)
      → KeepsCommitted (or_create b id email now found)
  unfolding or_create
  or_create-KeepsCommitted id email now none = search transaction_rules
  or_create-KeepsCommitted id email now (some u) = search transaction_rules

  pub get_or_create-KeepsCommitted :
      (id : Uuid) (email : String) (now : Time) → KeepsCommitted (get_or_create b id email now)
  unfolding get_or_create
  get_or_create-KeepsCommitted id email now =
      search (transaction_rules, get_by_email-KeepsCommitted, or_create-KeepsCommitted)

  pub set_verified-KeepsCommitted : (u : Uuid) (v : Bool) → KeepsCommitted (set_verified b u v)
  unfolding set_verified
  set_verified-KeepsCommitted u v = search transaction_rules

  pub update_role-KeepsCommitted :
      (u : Uuid) (role : UserRole) → KeepsCommitted (update_role b u role)
  unfolding update_role
  update_role-KeepsCommitted u role = search transaction_rules

  pub update_status-KeepsCommitted :
      (u : Uuid) (status : UserStatus) → KeepsCommitted (update_status b u status)
  unfolding update_status
  update_status-KeepsCommitted u status = search transaction_rules

pub ruleset user_repository_rules = (
  transaction_rules, get_by_id-KeepsCommitted, get_by_email-KeepsCommitted,
  get_or_create-KeepsCommitted, set_verified-KeepsCommitted, update_role-KeepsCommitted,
  update_status-KeepsCommitted,
)
