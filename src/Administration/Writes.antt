-- ===== src/Administration/Writes.antt =====
-- The use cases of the module users that write are atomic, those on roles and statuses, on profiles, on
-- avatars and on preferences.
use base_backend.Prelude.{◌≡◌, ℕ, String, Bool, Option}
use base_backend.Redis.{Time, Uuid}
use base_backend.Authorization.{UserRole, UserStatus}
use base_backend.World.{World, Backend}
use base_backend.World.Transactions.{IsAtomic}
use base_backend.Users.Profiles.{PhoneNumber, create_user_profile, update_user_profile}
use base_backend.Users.Avatars.{
  AvatarStorage, update_user_avatar, remove_user_avatar, profile_changes-IsAtomic,
}
use base_backend.Users.Preferences.{
  NewPreferences, PreferencesChange, create_user_preferences, update_user_preferences,
}
use base_backend.Users.Preferences.Changes.{
  create_user_preferences-IsAtomicRequest, update_user_preferences-IsAtomicRequest,
}
use base_backend.Administration.{
  change_user_role, change_user_status, request_account_deletion, approve_user_deletion_request,
}
use base_backend.Administration.Atomic.{changes-IsAtomic}

-- What the requests of the module users carry.
pub record UserRequests : Type 0 where
  pub actor : UserRole
  pub user_id : Uuid
  pub role : UserRole
  pub status : UserStatus
  pub full_name : String
  pub new_name : Option String
  pub phone : Option PhoneNumber
  pub filename : String
  pub content_type : String
  pub size : ℕ
  pub preferences : NewPreferences
  pub change : PreferencesChange

-- Whatever the database, Redis and the storage do, from a state with nothing uncommitted: each use case of the
-- module users that writes leaves nothing uncommitted when it returns, and when it raises it has changed no
-- row.
pub user_writes-IsAtomic :
    (isdigit : String → Bool) (b : Backend) (storage : AvatarStorage) (now : Time)
    (r : UserRequests) (w : World)
    → w.db ≡ w.committed
    → IsAtomic w.committed (change_user_role b now r.actor r.user_id r.role w)
      × IsAtomic w.committed (change_user_status b now r.actor r.user_id r.status w)
      × IsAtomic w.committed (request_account_deletion b now r.user_id w)
      × IsAtomic w.committed (approve_user_deletion_request b now r.actor r.user_id w)
      × IsAtomic w.committed (create_user_profile isdigit b r.user_id r.full_name r.phone now w)
      × IsAtomic w.committed (update_user_profile isdigit b r.user_id r.new_name r.phone now w)
      × IsAtomic w.committed
          (update_user_avatar isdigit b storage r.user_id r.filename r.content_type r.size now w)
      × IsAtomic w.committed (remove_user_avatar isdigit b storage r.user_id now w)
      × IsAtomic w.committed (create_user_preferences b r.user_id r.preferences now w)
      × IsAtomic w.committed (update_user_preferences b r.user_id r.change now w)
user_writes-IsAtomic isdigit b storage now r w h =
    let (role, status, request, approval) =
      changes-IsAtomic b now r.actor r.user_id r.role r.status w h in
    let (creates, updates, uploads, removes) =
      profile_changes-IsAtomic isdigit b storage r.user_id r.full_name r.new_name r.phone r.filename
        r.content_type r.size now w h in
    (
      role,
      status,
      request,
      approval,
      creates,
      updates,
      uploads,
      removes,
      (create_user_preferences-IsAtomicRequest b r.user_id r.preferences now).at w h,
      (update_user_preferences-IsAtomicRequest b r.user_id r.change now).at w h,
    )
