-- ===== src/Handlers/Bodies/Consistent.antt =====
-- What every answer to an exception says.
use base_backend.Prelude.{
  List, map, ◌∙◌, ℕ, ◌≡◌, ◌⊎◌, inl, inr, refl, String, true, Option, none, some, is_some,
}
use base_backend.Errors.{
  Error, forbidden, dependency_unavailable, invalid_dependency_state, otp_recipient_rejected,
  invalid_login_request, invalid_credentials, login_request_already_used, otp_expired,
  too_many_attempts, invalid_otp, token_expired, invalid_token, invalid_refresh_token,
  session_not_found, session_already_revoked, session_revoked, user_not_found,
  user_profile_already_exists, user_profile_not_found, user_preferences_already_exists,
  user_preferences_not_found, invalid_user_status_transition, invalid_avatar_upload,
  otp_delivery_failed, invalid_sort_key, sqlalchemy_error, redis_error, value_error, key_error,
  index_error, type_error, attribute_error, runtime_error, os_error,
}
use base_backend.Handlers.{error_code, status_of, or_bad_request, application_status_codes}
use base_backend.Handlers.Statuses.{status_of-error_code}
use base_backend.Pagination.Listing.{length, length-map}
use base_backend.Handlers.Bodies.{
  Answer, FieldError, Raised, error, rate_limit_exceeded, request_validation_error, http_exception,
  localized_field, validation_field_errors, answer_with, error_answer, answer_of,
}

module _ (translate lower : String → String) where
  -- What the answer tells of the exception: its code, with the status of the table, or that a
  -- dependency or the service has failed.
  abbrev pub Tells : Error → Answer → Type 0
  Tells e a =
      ((code : String) × (error_code e ≡ some code)
        × (status_of application_status_codes code ≡ some a.status_code)
        × (a.body.message ≡ translate (lower code)))
      ⊎ ((error_code e ≡ none)
          × (((a.status_code ≡ 503) × (a.body.message ≡ translate "dependency_unavailable"))
              ⊎ ((a.status_code ≡ 500)
                  × (a.body.message ≡ translate "service_unavailable_try_later"))))

  abbrev IsConsistent : Error → Answer → Type 0
  IsConsistent e a =
      (a.body.code ≡ a.status_code) × (a.body.details.status_code ≡ a.status_code) × Tells e a

  listed : (o : Option ℕ) → is_some o ≡ true → o ≡ some (or_bad_request o)
  listed none h = absurd (cc)
  listed (some n) h = refl

  with_code :
      (e : Error) (o : Option String)
      → error_code e ≡ o
      → IsConsistent e (answer_with translate lower e o)
  with_code e none h = (refl, refl, inr (h, inr (refl, refl)))
  with_code e (some code) h = (
    refl,
    refl,
    inl (
      code,
      h,
      listed (status_of application_status_codes code) (status_of-error_code e code h),
      refl,
    ),
  )

  error_answer-IsConsistent :
      (e : Error)
      → ((error_answer translate lower e).body.code ≡ (error_answer translate lower e).status_code)
        × ((error_answer translate lower e).body.details.status_code
            ≡ (error_answer translate lower e).status_code)
        × Tells e (error_answer translate lower e)
  unfolding error_answer
  error_answer-IsConsistent forbidden = with_code forbidden _ refl
  error_answer-IsConsistent (dependency_unavailable a) = with_code (dependency_unavailable a) _ refl
  error_answer-IsConsistent (invalid_dependency_state a) =
      with_code (invalid_dependency_state a) _ refl
  error_answer-IsConsistent otp_recipient_rejected = with_code otp_recipient_rejected _ refl
  error_answer-IsConsistent invalid_login_request = with_code invalid_login_request _ refl
  error_answer-IsConsistent (invalid_credentials a) = with_code (invalid_credentials a) _ refl
  error_answer-IsConsistent (login_request_already_used a) =
      with_code (login_request_already_used a) _ refl
  error_answer-IsConsistent otp_expired = with_code otp_expired _ refl
  error_answer-IsConsistent too_many_attempts = with_code too_many_attempts _ refl
  error_answer-IsConsistent (invalid_otp a) = with_code (invalid_otp a) _ refl
  error_answer-IsConsistent token_expired = with_code token_expired _ refl
  error_answer-IsConsistent invalid_token = with_code invalid_token _ refl
  error_answer-IsConsistent invalid_refresh_token = with_code invalid_refresh_token _ refl
  error_answer-IsConsistent session_not_found = with_code session_not_found _ refl
  error_answer-IsConsistent session_already_revoked = with_code session_already_revoked _ refl
  error_answer-IsConsistent session_revoked = with_code session_revoked _ refl
  error_answer-IsConsistent user_not_found = with_code user_not_found _ refl
  error_answer-IsConsistent user_profile_already_exists =
      with_code user_profile_already_exists _ refl
  error_answer-IsConsistent user_profile_not_found = with_code user_profile_not_found _ refl
  error_answer-IsConsistent user_preferences_already_exists =
      with_code user_preferences_already_exists _ refl
  error_answer-IsConsistent user_preferences_not_found = with_code user_preferences_not_found _ refl
  error_answer-IsConsistent invalid_user_status_transition =
      with_code invalid_user_status_transition _ refl
  error_answer-IsConsistent (invalid_avatar_upload a) = with_code (invalid_avatar_upload a) _ refl
  error_answer-IsConsistent otp_delivery_failed = with_code otp_delivery_failed _ refl
  error_answer-IsConsistent (invalid_sort_key a b) = with_code (invalid_sort_key a b) _ refl
  error_answer-IsConsistent sqlalchemy_error = (refl, refl, inr (refl, inl (refl, refl)))
  error_answer-IsConsistent redis_error = (refl, refl, inr (refl, inl (refl, refl)))
  error_answer-IsConsistent value_error = with_code value_error _ refl
  error_answer-IsConsistent key_error = with_code key_error _ refl
  error_answer-IsConsistent index_error = with_code index_error _ refl
  error_answer-IsConsistent type_error = with_code type_error _ refl
  error_answer-IsConsistent attribute_error = with_code attribute_error _ refl
  error_answer-IsConsistent runtime_error = with_code runtime_error _ refl
  error_answer-IsConsistent os_error = with_code os_error _ refl

  -- What the answer tells of what was raised.
  abbrev pub TellsOf : Raised → Answer → Type 0
  TellsOf (error e) a = Tells e a
  TellsOf rate_limit_exceeded a =
      (a.status_code ≡ 429) × (a.body.message ≡ translate "too_many_attempts")
  TellsOf (request_validation_error errors) a =
      (a.status_code ≡ 422)
      × (a.body.message ≡ translate "validation_failed")
      × ((fields : List FieldError) × (a.body.details.field_errors ≡ some fields)
          × (length fields ≡ length errors))
  TellsOf (http_exception status detail) a =
      (a.status_code ≡ status) × (a.body.message ≡ translate detail)

  -- Every answer to an exception has one status code, in the answer, in its body and in the details; of the
  -- HTTP exceptions, those with a text are meant. An error with a code is answered with the status that the
  -- table has for the code, and with the message of the code; any other error with 503 or 500 and the message
  -- for that. A passed rate limit is answered with 429, a request that is not valid with 422 and a field for
  -- each of its errors, and an HTTP exception with its own status and text.
  pub answer_of-IsConsistent :
      (x : Raised)
      → ((answer_of translate lower x).body.code ≡ (answer_of translate lower x).status_code)
        × ((answer_of translate lower x).body.details.status_code
            ≡ (answer_of translate lower x).status_code)
        × TellsOf x (answer_of translate lower x)
  unfolding answer_of
  answer_of-IsConsistent (error e) = error_answer-IsConsistent e
  answer_of-IsConsistent rate_limit_exceeded = (refl, refl, (refl, refl))
  answer_of-IsConsistent (request_validation_error errors) = (
    refl,
    refl,
    (
      refl,
      refl,
      (
        map (localized_field translate lower) (validation_field_errors errors),
        refl,
        length-map (localized_field translate lower) (validation_field_errors errors)
            ∙ length-map _ errors,
      ),
    ),
  )
  answer_of-IsConsistent (http_exception status detail) = (refl, refl, (refl, refl))
