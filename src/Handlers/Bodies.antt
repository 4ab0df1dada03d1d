-- ===== src/Handlers/Bodies.antt =====
-- The answers of the handlers in app/common/exceptions/handlers.py, with the bodies of
-- app/common/responses/error_response.py. `translate` gives the text of a message key in the locale of the
-- request, and `lower` is `str.lower`. What a handler logs is not modelled, nor is an `HTTPException`
-- whose `detail` is no text: `_http_exception_payload` reads that by the validation of pydantic.
pub mod Consistent
use base_backend.Prelude.{
  ℕ, String, Bool, true, false, not, Option, none, some, List, [], ◌∷◌, map, ◌==◌, string_eq,
  map_option, if◌then◌else◌,
}
use Prim.Native.String.{◌++◌ as ◌<>◌}
use base_backend.Errors.{
  Error, otp_recipient_rejected, invalid_credentials, login_request_already_used, invalid_otp,
  invalid_avatar_upload, invalid_sort_key, sqlalchemy_error, redis_error,
}
use base_backend.Ci.Json.{Json, number, text, texts, array}
use base_backend.Handlers.{error_code, status_of, or_bad_request, application_status_codes}

pub data ErrorType : Type 0 where
  snackbar banner inline_error alert full_screen silent : ErrorType

pub record FieldError : Type 0 where
  pub field_name : String
  pub message : String

-- `extra` are the fields beside the declared ones.
pub record ErrorDetails : Type 0 where
  pub kind : ErrorType
  pub field_errors : Option (List FieldError)
  pub status_code : ℕ
  pub extra : List (String × Json)

pub record ErrorResponse : Type 0 where
  pub message : String
  pub code : ℕ
  pub details : ErrorDetails

-- A `JSONResponse`.
pub record Answer : Type 0 where
  pub status_code : ℕ
  pub body : ErrorResponse

-- `exc.details`: the type and the field errors, where the exception gives them, and the other entries.
abbrev pub type_of : Error → ErrorType
type_of otp_recipient_rejected = inline_error
type_of _ = snackbar

abbrev pub field_errors_of : Error → Option (List FieldError)
field_errors_of otp_recipient_rejected =
    some (record { field_name = "email"; message = "otp_recipient_rejected" } ∷ [])
field_errors_of _ = none

abbrev attempts : Option ℕ → List (String × Json)
attempts none = []
attempts (some n) = ("attempts_left", number n) ∷ []

abbrev pub extra_of : Error → List (String × Json)
extra_of (invalid_credentials n) = attempts n
extra_of (login_request_already_used n) = attempts n
extra_of (invalid_otp n) = ("attempts_left", number n) ∷ []
extra_of (invalid_avatar_upload reason) = ("reason", text reason) ∷ []
extra_of (invalid_sort_key key allowed) =
    ("sort_key", text key) ∷ ("allowed_sort_keys", array (texts allowed)) ∷ []
extra_of _ = []

abbrev plain_details : ErrorType → ℕ → ErrorDetails
plain_details kind status = record {
  kind = kind;
  field_errors = none;
  status_code = status;
  extra = [];
}

-- An error of the validation of a request: `loc`, without what is no text, and `type`, if it is one.
pub record RawError : Type 0 where
  pub loc : List String
  pub kind : Option String

-- What a handler is called with: an error of the modules, the `RateLimitExceeded` of slowapi, the
-- `RequestValidationError` of FastAPI with its errors, or an `HTTPException` with its status and a `detail` that
-- is a text.
pub data Raised : Type 0 where
  error : Error → Raised
  rate_limit_exceeded : Raised
  request_validation_error : List RawError → Raised
  http_exception : ℕ → String → Raised

-- `_VALIDATION_MESSAGE_KEYS`
abbrev validation_message_keys : List (String × String)
validation_message_keys =
    ("missing", "field_required")
    ∷ ("value_error", "invalid_value")
    ∷ ("string_type", "invalid_string")
    ∷ ("string_too_short", "string_too_short")
    ∷ ("string_too_long", "string_too_long")
    ∷ ("string_pattern_mismatch", "invalid_format")
    ∷ ("int_parsing", "invalid_integer")
    ∷ ("int_type", "invalid_integer")
    ∷ ("bool_parsing", "invalid_boolean")
    ∷ ("bool_type", "invalid_boolean")
    ∷ ("uuid_parsing", "invalid_uuid")
    ∷ ("uuid_type", "invalid_uuid")
    ∷ ("greater_than_equal", "value_too_small")
    ∷ ("less_than_equal", "value_too_large")
    ∷ ("url_parsing", "invalid_url")
    ∷ []

abbrev message_key : List (String × String) → String → String
message_key [] kind = "invalid_value"
message_key ((k, m) ∷ rest) kind = if k == kind then m else message_key rest kind

abbrev without_body : List String → List String
without_body [] = []
without_body (p ∷ ps) = let rest = without_body ps in if p == "body" then rest else p ∷ rest

-- `".".join(parts) if parts else "request"`
abbrev dotted : List String → String
dotted [] = "request"
dotted (p ∷ []) = p
dotted (p ∷ (q ∷ ps)) = p <> ("." <> dotted (q ∷ ps))

abbrev or_value_error : Option String → String
or_value_error none = "value_error"
or_value_error (some kind) = kind

abbrev pub validation_field_errors : List RawError → List FieldError
validation_field_errors = map (λ e. record {
  field_name = dotted (without_body e.loc);
  message = message_key validation_message_keys (or_value_error e.kind);
})

module _ (translate lower : String → String) where
  abbrev pub localized_field : FieldError → FieldError
  localized_field e = record e { message = translate e.message }

  abbrev pub localized_response : ErrorResponse → ErrorResponse
  localized_response body = record {
    message = translate body.message;
    code = body.code;
    details = record (body.details) {
      field_errors = map_option (map localized_field) body.details.field_errors;
    };
  }

  abbrev pub answer : ℕ → String → ErrorDetails → Answer
  answer status message details = record {
    status_code = status;
    body = localized_response (record { message = message; code = status; details = details });
  }

  -- `application_exception_handler`, on the code of the exception.
  abbrev pub application_answer : Error → String → Answer
  application_answer e code =
      let status = or_bad_request (status_of application_status_codes code) in
      answer status (lower code) (record {
        kind = type_of e;
        field_errors = field_errors_of e;
        status_code = status;
        extra = extra_of e;
      })

  abbrev pub dependency_answer : Answer
  dependency_answer = answer 503 "dependency_unavailable" (plain_details alert 503)

  abbrev pub unhandled_answer : Answer
  unhandled_answer = answer 500 "service_unavailable_try_later" (plain_details alert 500)

  abbrev pub rate_limit_answer : Answer
  rate_limit_answer = answer 429 "too_many_attempts" (plain_details snackbar 429)

  abbrev pub validation_answer : List RawError → Answer
  validation_answer errors = answer 422 "validation_failed" (record {
    kind = inline_error;
    field_errors = some (validation_field_errors errors);
    status_code = 422;
    extra = [];
  })

  abbrev pub answer_with : Error → Option String → Answer
  answer_with e none = unhandled_answer
  answer_with e (some code) = application_answer e code

  -- `http_exception_handler` on an exception whose `detail` is a text.
  abbrev pub http_answer : ℕ → String → Answer
  http_answer status detail = answer status detail (plain_details snackbar status)

  -- The handlers of the errors of the modules.
  unfoldable pub error_answer : Error → Answer
  error_answer sqlalchemy_error = dependency_answer
  error_answer redis_error = dependency_answer
  error_answer e = answer_with e (error_code e)

  -- The handlers that `register_exception_handlers` names, by the class of the exception.
  unfoldable pub answer_of : Raised → Answer
  answer_of (error e) = error_answer e
  answer_of rate_limit_exceeded = rate_limit_answer
  answer_of (request_validation_error errors) = validation_answer errors
  answer_of (http_exception status detail) = http_answer status detail
