-- ===== src/Tests/Lookups.antt =====
-- The look-ups, the bootstrap and the avatars on a concrete backend.
use base_backend.Prelude.{◌≤◌, String, [], ◌∷◌, ◌≡◌, refl, true, false, some, nat_eq, string_eq}
use base_backend.Errors.{ok}
use base_backend.Exec.{Exec}
use base_backend.Users.Avatars.Accepted.{update_user_avatar-Returns}
use base_backend.Tests.Database.{table}
use base_backend.Exec.Inversion.{Returns}
use base_backend.Redis.{run, runs}
use base_backend.Sql.{select_one, select_first, update_row, update_all, insert_row}
use base_backend.Authorization.{super_admin, admin, user, role_eq, status_eq}
use base_backend.Authorization.Store
use base_backend.World.{UserModel, UserProfileModel, World, Backend, commit}
use base_backend.Users.{UserDto, user_dto}
use base_backend.Users.Repository.{to_entity, get_by_id, get_by_email, get_or_create, update_role}
use base_backend.Users.Profiles.{
  UserProfileDto, update_avatar, flush_change, found_or_rollback, profile_dto, profile_entity,
  phone_number_entity, get_profile, create_user_profile, create_user_profile_steps, create_profile,
}
use base_backend.Users.Avatars.{
  AvatarStorage, is_allowed, max_avatar_bytes, update_user_avatar_steps, update_user_avatar,
}
use base_backend.Administration.{ensure_can_manage_target, set_version}
use base_backend.Administration.Permissions.{MayManage}
use base_backend.Administration.Lookups.{
  shown_profile, get_user_profile_by_id, get_user_profile_by_id-Returns,
}
use base_backend.Administration.Bootstrap.{
  bootstrap_super_admin, bootstrap_super_admin_steps, promote, bootstrap_super_admin-Returns,
}
use base_backend.Tests.Fixtures.{backend, signed_in, at, ann}
use base_backend.Tests.Profiles.{created_dto, with_profile_of_ann}

abbrev ann_dto : UserDto
ann_dto = record {
  id = 1;
  email = "ann@example.com";
  role = user;
  status = ann.status;
  is_verified = true;
  created_at = 0;
  is_user_data_uploaded = false;
}

profile_shown :
    Returns
      (get_user_profile_by_id backend (λ _. true) (at 1_600) admin 1)
      with_profile_of_ann
      created_dto
      with_profile_of_ann
unfolding get_user_profile_by_id get_by_id select_one to_entity ensure_can_manage_target get_profile
    profile_entity phone_number_entity profile_dto create_user_profile create_user_profile_steps
    create_profile insert_row commit
profile_shown = refl

get_user_profile_by_id-Returns_example :
    (m : UserModel) × (p : UserProfileModel) × (with_profile_of_ann.db.users 1 ≡ some m)
    × MayManage admin m
    × (with_profile_of_ann.db.profiles 1 ≡ some p)
    × (created_dto ≡ shown_profile backend (λ _. true) 1 p)
    × (with_profile_of_ann ≡ with_profile_of_ann)
get_user_profile_by_id-Returns_example =
    get_user_profile_by_id-Returns backend (λ _. true) (at 1_600) admin 1 with_profile_of_ann
      profile_shown

abbrev bootstrapped : World
bootstrapped = (bootstrap_super_admin backend (at 1_500) 3 "ann@example.com" signed_in).1

abbrev promoted_dto : UserDto
promoted_dto = record ann_dto { role = super_admin }

bootstraps :
    Returns
      (bootstrap_super_admin backend (at 1_500) 3 "ann@example.com")
      signed_in
      promoted_dto
      bootstrapped
unfolding bootstrap_super_admin bootstrap_super_admin_steps promote get_or_create get_by_email
    select_first select_one update_role update_row to_entity set_version user_dto
    Store.set_authorization_version Store.set_authorization_version_if_greater Store.write run runs
    commit
bootstraps = refl

bootstrap_super_admin-Returns_example :
    (promoted_dto.role ≡ super_admin) × (bootstrapped.db ≡ bootstrapped.committed)
bootstrap_super_admin-Returns_example =
    bootstrap_super_admin-Returns backend (at 1_500) 3 "ann@example.com" signed_in bootstraps

abbrev pub storage : AvatarStorage
storage = record {
  save_avatar = λ _ _ _ _. ok ("/uploads/avatars/1/a.png", "1/a.png");
  delete_avatar = λ _. ok tt;
}

abbrev profiles_backend : Backend
profiles_backend = record backend { profiles = table (1 ∷ []) }

abbrev upload : Exec World UserProfileDto
upload =
    update_user_avatar (λ _. true) profiles_backend storage 1 "a.png" "image/png" 100 (at 1_600)

abbrev uploaded_dto : UserProfileDto
uploaded_dto = record created_dto {
  avatar_url = some "/uploads/avatars/1/a.png";
  updated_at = at 1_600;
}

abbrev uploaded : World
uploaded = (upload with_profile_of_ann).1

uploads : Returns upload with_profile_of_ann uploaded_dto uploaded
unfolding update_user_avatar update_user_avatar_steps update_avatar flush_change update_all
    found_or_rollback get_by_id select_one to_entity get_profile profile_entity phone_number_entity
    profile_dto create_user_profile create_user_profile_steps create_profile insert_row commit
uploads = refl

update_user_avatar-Returns_example :
    (is_allowed "image/png" ≡ true)
    × (1 ≤ 100)
    × (100 ≤ max_avatar_bytes)
    × ((url : String) × (key : String) × (storage.save_avatar 1 "a.png" "image/png" 100
          ≡ ok (url, key))
        × (uploaded_dto.avatar_url ≡ some url)
        × (uploaded.db ≡ uploaded.committed)
        × ((m : UserProfileModel) × (uploaded.db.profiles 1 ≡ some m)
            × (m.avatar_url ≡ some url)
            × (m.avatar_object_key ≡ some key)))
update_user_avatar-Returns_example =
    update_user_avatar-Returns (λ _. true) profiles_backend storage 1 "a.png" "image/png" 100
      (at 1_600) with_profile_of_ann uploads
