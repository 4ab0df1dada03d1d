-- ===== src/Tests/Preferences.antt =====
-- The preferences on a concrete backend, and the atomicity of the use cases that write.
use base_backend.Prelude.{◌≡◌, refl, true, false, none, some, nat_eq, string_eq}
use base_backend.Exec.Inversion.{Returns}
use base_backend.Sql.{select_one, insert_row}
use base_backend.Authorization.{admin, blocked, status_eq, role_eq}
use base_backend.World.{World, commit}
use base_backend.World.Transactions.{IsAtomic}
use base_backend.Users.Repository.{get_by_id, to_entity}
use base_backend.Users.Profiles.{create_user_profile, update_user_profile}
use base_backend.Users.Avatars.{update_user_avatar, remove_user_avatar}
use base_backend.Users.Preferences.{
  ru, dark, light, UserPreferencesDto, preferences_dto, preferences_entity, NewPreferences,
  get_preferences, create_preferences, create_user_preferences_steps, create_user_preferences,
  update_user_preferences, get_user_preferences,
}
use base_backend.Users.Preferences.Stored.{asked, create_user_preferences-get}
use base_backend.Administration.{
  change_user_role, change_user_status, request_account_deletion, approve_user_deletion_request,
}
use base_backend.Administration.Writes.{UserRequests, user_writes-IsAtomic}
use base_backend.Tests.Fixtures.{backend, signed_in, at}
use base_backend.Tests.Lookups.{storage}

abbrev chosen : NewPreferences
chosen = record {
  language = ru;
  theme = dark;
  push_notifications_enabled = true;
  email_notifications_enabled = false;
  marketing_notifications_enabled = false;
}

abbrev chosen_dto : UserPreferencesDto
chosen_dto = record {
  user_id = 1;
  language = ru;
  theme = dark;
  push_notifications_enabled = true;
  email_notifications_enabled = false;
  marketing_notifications_enabled = false;
  created_at = at 1_500;
  updated_at = at 1_500;
}

abbrev with_preferences : World
with_preferences = (create_user_preferences backend 1 chosen (at 1_500) signed_in).1

preferences_created :
    Returns
      (create_user_preferences backend 1 chosen (at 1_500))
      signed_in
      chosen_dto
      with_preferences
unfolding create_user_preferences create_user_preferences_steps create_preferences get_preferences
    get_by_id select_one insert_row to_entity preferences_entity preferences_dto commit
preferences_created = refl

preferences_read :
    Returns (get_user_preferences backend 1) with_preferences chosen_dto with_preferences
unfolding get_user_preferences create_user_preferences create_user_preferences_steps
    create_preferences get_preferences get_by_id select_one insert_row to_entity preferences_entity
    preferences_dto commit
preferences_read = refl

create_user_preferences-get_example :
    (with_preferences.db ≡ with_preferences.committed)
    × (chosen_dto ≡ asked 1 chosen (at 1_500))
    × (chosen_dto ≡ chosen_dto)
    × (with_preferences ≡ with_preferences)
create_user_preferences-get_example =
    create_user_preferences-get backend 1 chosen (at 1_500) signed_in preferences_created
      preferences_read

abbrev requests : UserRequests
requests = record {
  actor = admin;
  user_id = 1;
  role = admin;
  status = blocked;
  full_name = "Ann";
  new_name = none;
  phone = none;
  filename = "a.png";
  content_type = "image/png";
  size = 100;
  preferences = chosen;
  change = record {
    language = none;
    theme = some light;
    push_notifications_enabled = none;
    email_notifications_enabled = none;
    marketing_notifications_enabled = none;
  };
}

user_writes-IsAtomic_example :
    IsAtomic signed_in.committed (change_user_role backend (at 1_500) admin 1 admin signed_in)
    × IsAtomic signed_in.committed (change_user_status backend (at 1_500) admin 1 blocked signed_in)
    × IsAtomic signed_in.committed (request_account_deletion backend (at 1_500) 1 signed_in)
    × IsAtomic signed_in.committed
        (approve_user_deletion_request backend (at 1_500) admin 1 signed_in)
    × IsAtomic signed_in.committed
        (create_user_profile (λ _. true) backend 1 "Ann" none (at 1_500) signed_in)
    × IsAtomic signed_in.committed
        (update_user_profile (λ _. true) backend 1 none none (at 1_500) signed_in)
    × IsAtomic signed_in.committed (
        update_user_avatar
          (λ _. true)
          backend
          storage
          1
          "a.png"
          "image/png"
          100
          (at 1_500)
          signed_in)
    × IsAtomic signed_in.committed
        (remove_user_avatar (λ _. true) backend storage 1 (at 1_500) signed_in)
    × IsAtomic signed_in.committed (create_user_preferences backend 1 chosen (at 1_500) signed_in)
    × IsAtomic signed_in.committed
        (update_user_preferences backend 1 requests.change (at 1_500) signed_in)
user_writes-IsAtomic_example =
    user_writes-IsAtomic (λ _. true) backend storage (at 1_500) requests signed_in refl
