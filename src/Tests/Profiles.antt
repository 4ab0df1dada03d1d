-- ===== src/Tests/Profiles.antt =====
-- The creation of a profile on a concrete backend.
use base_backend.Prelude.{String, ◌≡◌, refl, true, none, some, nat_eq, update_at}
use base_backend.Errors.{invalid_otp}
use base_backend.Exec.Inversion.{Returns}
use base_backend.Sql.{select_one, insert_row}
use base_backend.Authorization.{active}
use base_backend.World.{UserModel, World, commit}
use base_backend.Users.Repository.{get_by_id, to_entity}
use base_backend.Users.Repository.Effects.{user_at}
use base_backend.Users.Profiles.{
  UserProfileDto, profile_dto, phone_number_entity, profile_entity, get_profile, create_profile,
  create_user_profile_steps, create_user_profile,
}
use base_backend.Users.Profiles.Completion.{begun_profile, create_user_profile-Returns}
use base_backend.Handlers.Bodies.{error, answer_of, error_answer}
use base_backend.Handlers.Bodies.Consistent.{TellsOf, answer_of-IsConsistent}
use base_backend.Tests.Fixtures.{backend, signed_in, at}

abbrev pub created_dto : UserProfileDto
created_dto = record {
  user_id = 1;
  full_name = "Ann";
  phone_number = none;
  avatar_url = none;
  created_at = at 1_500;
  updated_at = at 1_500;
  completed_at = some (at 1_500);
}

abbrev pub with_profile_of_ann : World
with_profile_of_ann = (create_user_profile (λ _. true) backend 1 "Ann" none (at 1_500) signed_in).1

created :
    Returns
      (create_user_profile (λ _. true) backend 1 "Ann" none (at 1_500))
      signed_in
      created_dto
      with_profile_of_ann
unfolding create_user_profile get_by_id select_one to_entity get_profile create_user_profile_steps
    create_profile insert_row profile_entity phone_number_entity profile_dto commit
created = refl

create_user_profile-Returns_example :
    (m : UserModel) × (signed_in.db.users 1 ≡ some m)
    × (m.status ≡ active)
    × (signed_in.db.profiles 1 ≡ none)
    × (with_profile_of_ann.db ≡ with_profile_of_ann.committed)
    × (with_profile_of_ann.db.profiles
        ≡ update_at 1 (some (begun_profile "Ann" none (at 1_500))) signed_in.db.profiles)
    × (user_at with_profile_of_ann.db 1
        ≡ some (record {
          id = 1;
          email = m.email;
          role = m.role;
          status = m.status;
          is_verified = m.is_verified;
          created_at = m.created_at;
          is_user_data_uploaded = true;
          authorization_version = m.authorization_version;
        }))
create_user_profile-Returns_example =
    create_user_profile-Returns (λ _. true) backend 1 "Ann" none (at 1_500) signed_in created

abbrev shout : String → String
shout key = "translated"

answer_of-IsConsistent_example :
    let a = answer_of shout shout (error (invalid_otp 4)) in
    (400 ≡ a.status_code)
    × (a.body.details.status_code ≡ 400)
    × TellsOf shout shout (error (invalid_otp 4)) a
unfolding answer_of error_answer
answer_of-IsConsistent_example = answer_of-IsConsistent shout shout (error (invalid_otp 4))
