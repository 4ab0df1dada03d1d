-- ===== src/Users/Avatars.antt =====
-- app/modules/users/application/use_cases/update_user_avatar.py and remove_user_avatar.py. The
-- `AvatarStorageService` is an argument: what `save_avatar` and `delete_avatar` answer; where the
-- bytes go is not part of the state. Of the content only its size is read.
pub mod Accepted
use base_backend.Prelude.{
  ℕ, ◌*◌, ◌≡◌, String, Bool, not, ◌||◌, Option, none, some, is_none, ltb, ◌==◌, nat_eq, string_eq,
}
use base_backend.Errors.{
  Result, forbidden, user_not_found, user_profile_not_found, invalid_avatar_upload,
}
use base_backend.Exec.{Exec, pure, lift, raise_if, or_raise, ◌>>=◌, ◌>>◌}
use base_backend.Redis.{Time, Uuid}
use base_backend.Authorization.{active, status_eq}
use base_backend.World.{World, Backend, commit, transaction}
use base_backend.World.Transactions.{KeepsCommitted, CommitsLast, IsAtomic, transaction_rules}
use base_backend.Users.Repository.{get_by_id}
use base_backend.Users.Requests.{
  IsAtomicRequest, or_raise-IsReading, raise_if-IsReading, transaction-IsAtomicRequest,
  bind-IsAtomicRequest, get_by_id-IsReading,
}
use base_backend.Users.Profiles.{
  PhoneNumber, create_user_profile, update_user_profile, UserProfile, UserProfileDto, profile_dto,
  get_profile, update_avatar, clear_avatar, found_or_rollback,
}
use base_backend.Users.Profiles.Completion.{
  profiles-IsAtomic, get_profile-IsReading, flush_change-KeepsCommitted,
  found_or_rollback-KeepsCommitted,
}

pub record AvatarStorage : Type 0 where
  pub save_avatar : Uuid → String → String → ℕ → Result (String × String)
  pub delete_avatar : String → Result (Unit {0})

-- `_ALLOWED_AVATAR_CONTENT_TYPES`
abbrev pub is_allowed : String → Bool
is_allowed t = (t == "image/jpeg") || ((t == "image/png") || (t == "image/webp"))

abbrev pub max_avatar_bytes : ℕ
max_avatar_bytes = 5 * 1_024 * 1_024

module _ (isdigit : String → Bool) (b : Backend) (storage : AvatarStorage) where
  -- The body of `try` in each use case, under the name of the use case.
  unfoldable pub update_user_avatar_steps :
      Uuid → String → String → ℕ → Time → Exec World UserProfileDto
  update_user_avatar_steps user_id filename content_type size now = do
    saved ← lift (storage.save_avatar user_id filename content_type size)
    row ← update_avatar isdigit b user_id saved.0 saved.1 now
    profile ← found_or_rollback isdigit b row
    commit b
    pure (profile_dto profile)

  unfoldable pub update_user_avatar : Uuid → String → String → ℕ → Time → Exec World UserProfileDto
  update_user_avatar user_id filename content_type size now = do
    found ← get_by_id b user_id
    user ← or_raise found user_not_found
    raise_if (not (user.status == active)) forbidden
    raise_if (not (is_allowed content_type)) (invalid_avatar_upload "unsupported_content_type")
    raise_if (size == 0) (invalid_avatar_upload "empty_file")
    raise_if (ltb max_avatar_bytes size) (invalid_avatar_upload "file_too_large")
    profile ← get_profile isdigit b user_id
    raise_if (is_none profile) user_profile_not_found
    transaction (update_user_avatar_steps user_id filename content_type size now)

  -- `if profile.avatar_object_key is not None: await self._storage.delete_avatar(...)`
  unfoldable pub delete_stored : Option String → Exec World (Unit {0})
  delete_stored none = pure tt
  delete_stored (some object_key) = lift (storage.delete_avatar object_key)

  unfoldable pub remove_user_avatar_steps : Uuid → UserProfile → Time → Exec World UserProfileDto
  remove_user_avatar_steps user_id profile now = do
    delete_stored profile.avatar_object_key
    row ← clear_avatar isdigit b user_id now
    updated ← found_or_rollback isdigit b row
    commit b
    pure (profile_dto updated)

  unfoldable pub remove_user_avatar : Uuid → Time → Exec World UserProfileDto
  remove_user_avatar user_id now = do
    found ← get_by_id b user_id
    user ← or_raise found user_not_found
    raise_if (not (user.status == active)) forbidden
    row ← get_profile isdigit b user_id
    profile ← or_raise row user_profile_not_found
    transaction (remove_user_avatar_steps user_id profile now)

  update_avatar-KeepsCommitted :
      (u : Uuid) (url key : String) (now : Time)
      → KeepsCommitted (update_avatar isdigit b u url key now)
  unfolding update_avatar
  update_avatar-KeepsCommitted u url key now =
      search (transaction_rules, flush_change-KeepsCommitted)

  clear_avatar-KeepsCommitted :
      (u : Uuid) (now : Time) → KeepsCommitted (clear_avatar isdigit b u now)
  unfolding clear_avatar
  clear_avatar-KeepsCommitted u now = search (transaction_rules, flush_change-KeepsCommitted)

  delete_stored-KeepsCommitted : (key : Option String) → KeepsCommitted (delete_stored key)
  unfolding delete_stored
  delete_stored-KeepsCommitted none = search transaction_rules
  delete_stored-KeepsCommitted (some key) = search transaction_rules

  ruleset avatar_rules = (
    transaction_rules, update_avatar-KeepsCommitted, clear_avatar-KeepsCommitted,
    delete_stored-KeepsCommitted, found_or_rollback-KeepsCommitted,
  )

  update_steps-CommitsLast :
      (u : Uuid) (name type : String) (size : ℕ) (now : Time)
      → CommitsLast (update_user_avatar_steps u name type size now)
  unfolding update_user_avatar_steps
  update_steps-CommitsLast u name type size now = search avatar_rules depth 10

  remove_steps-CommitsLast :
      (u : Uuid) (p : UserProfile) (now : Time) → CommitsLast (remove_user_avatar_steps u p now)
  unfolding remove_user_avatar_steps
  remove_steps-CommitsLast u p now = search avatar_rules depth 10

  ruleset request_rules = (
    transaction-IsAtomicRequest, bind-IsAtomicRequest, or_raise-IsReading, raise_if-IsReading,
    get_by_id-IsReading, get_profile-IsReading, update_steps-CommitsLast, remove_steps-CommitsLast,
  )

  update-request :
      (u : Uuid) (name type : String) (size : ℕ) (now : Time)
      → IsAtomicRequest (update_user_avatar u name type size now)
  unfolding update_user_avatar
  update-request u name type size now = search request_rules depth 16

  remove-request : (u : Uuid) (now : Time) → IsAtomicRequest (remove_user_avatar u now)
  unfolding remove_user_avatar
  remove-request u now = search request_rules depth 14

  pub profile_changes-IsAtomic :
      (u : Uuid) (full_name : String) (new_name : Option String) (phone : Option PhoneNumber)
      (name type : String) (size : ℕ) (now : Time) (w : World)
      → w.db ≡ w.committed
      → IsAtomic w.committed (create_user_profile isdigit b u full_name phone now w)
        × IsAtomic w.committed (update_user_profile isdigit b u new_name phone now w)
        × IsAtomic w.committed (update_user_avatar u name type size now w)
        × IsAtomic w.committed (remove_user_avatar u now w)
  profile_changes-IsAtomic u full_name new_name phone name type size now w h =
      let (creates, updates) = profiles-IsAtomic isdigit b u full_name new_name phone now w h in
      (
        creates,
        updates,
        (update-request u name type size now).at w h,
        (remove-request u now).at w h,
      )
