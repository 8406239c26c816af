-- ===== src/Error/Application.antt =====
-- infrastructure/error/ApplicationError.ts: the constructor and the factories.
use Prim.Native.String
use qa_api.Common.{ℕ, String, Bool, true, false, not, ◌&&◌, ◌||◌, Option, none, some}
use qa_api.Error.Types.{
  ErrorCategory, user_error, system_error, business_error, validation_error, authentication_error,
  authorization_error, ErrorSeverity, low, medium, high, critical, ErrorMetadata, RawError,
  is_user_category, is_system_category, is_business_category, is_user_kind, is_high, is_critical,
}
use qa_api.Error.Classifier.{classify_by_status_code}

-- `original` is the message that `databaseError` keeps in the context's additional data.
pub record ApplicationError : Type 0 where
  pub message : String
  pub status_code : ℕ
  pub category : ErrorCategory
  pub severity : ErrorSeverity
  pub is_operational : Bool
  pub metadata : ErrorMetadata
  pub original : Option String

abbrev or_else {ℓ} : {A : Type ℓ} → Option A → A → A
or_else none d = d
or_else (some a) d = a

-- The methods that the constructor calls on itself.
abbrev should_log : ErrorCategory → ErrorSeverity → Bool
should_log c s = not (is_user_category c) || is_high s

abbrev should_alert : ErrorCategory → ErrorSeverity → Bool
should_alert c s = is_system_category c && is_critical s

abbrev is_retryable : ErrorCategory → ErrorSeverity → Bool
is_retryable c s = is_system_category c && not (is_critical s)

abbrev with_metadata : String → ℕ → ErrorCategory → ErrorSeverity → Bool → ApplicationError
with_metadata message status c s operational = record {
  message = message;
  status_code = status;
  category = c;
  severity = s;
  is_operational = operational;
  metadata = record {
    category = c;
    severity = s;
    should_log = should_log c s;
    should_alert = should_alert c s;
    retryable = is_retryable c s;
  };
  original = none;
}

-- A missing category or severity is filled in from the status code.
unfoldable pub new_error :
    String → ℕ → Option ErrorCategory → Option ErrorSeverity → Bool → ApplicationError
new_error message status (some c) (some s) operational =
    with_metadata message status c s operational
new_error message status c s operational =
    let found = classify_by_status_code status in
    with_metadata message status (or_else c found.category) (or_else s found.severity) operational

unfoldable pub of_kind : String → ℕ → ErrorCategory → ErrorSeverity → Bool → ApplicationError
unfolding new_error
of_kind message status c s operational = new_error message status (some c) (some s) operational

module _ (message : String) where
  abbrev pub user_error_of : ℕ → ApplicationError
  user_error_of status = of_kind message status user_error low true

  abbrev pub validation_error_of : ApplicationError
  validation_error_of = of_kind message 422 validation_error low true

  abbrev pub authentication_error_of : ApplicationError
  authentication_error_of = of_kind message 401 authentication_error low true

  abbrev pub forbidden_error : ApplicationError
  forbidden_error = of_kind message 403 authorization_error low true

  abbrev pub business_error_of : ℕ → ApplicationError
  business_error_of status = of_kind message status business_error medium true

  abbrev pub system_error_of : ℕ → ApplicationError
  system_error_of status = of_kind message status system_error critical false

  abbrev pub not_found_error : ApplicationError
  not_found_error = of_kind message 404 user_error low true

  abbrev pub conflict_error : ApplicationError
  conflict_error = of_kind message 409 business_error medium true

  abbrev pub too_many_requests_error : ApplicationError
  too_many_requests_error = of_kind message 429 user_error low true

  abbrev pub internal_server_error : ApplicationError
  internal_server_error = of_kind message 500 system_error critical false

  abbrev pub service_unavailable_error : ApplicationError
  service_unavailable_error = of_kind message 503 system_error high false

  abbrev pub foreign_key_error : ApplicationError
  foreign_key_error = of_kind message 400 validation_error low true

  abbrev pub network_error : ApplicationError
  network_error = of_kind message 503 system_error high false

  abbrev pub timeout_error : ApplicationError
  timeout_error = of_kind message 408 system_error medium false

  -- The original error's message goes to the context, not to the message.
  abbrev pub database_error : Option String → ApplicationError
  database_error original =
      let e = of_kind message 500 system_error high false in record e { original = original }

-- `${field} already exists`
abbrev pub duplicate_key_error : String → ApplicationError
duplicate_key_error field =
    of_kind (String.◌++◌ field " already exists") 409 validation_error low true

abbrev pub from_custom_error : RawError → ApplicationError
from_custom_error e = new_error e.message e.status_code none none true

module _ (e : ApplicationError) where
  abbrev pub is_user_error : Bool
  is_user_error = is_user_kind e.category

  abbrev pub is_system_error : Bool
  is_system_error = is_system_category e.category

  abbrev pub is_business_error : Bool
  is_business_error = is_business_category e.category
