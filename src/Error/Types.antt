-- ===== src/Error/Types.antt =====
-- infrastructure/error/ErrorTypes.ts, and the shape of what JavaScript code may throw.
use qa_api.Common.{ℕ, String, Bool, true, false, List}

pub data ErrorCategory : Type 0 where
  user_error system_error business_error : ErrorCategory
  validation_error authentication_error authorization_error : ErrorCategory

pub data ErrorSeverity : Type 0 where
  low medium high critical : ErrorSeverity

-- What a classification answers.
pub record Classification : Type 0 where
  pub category : ErrorCategory
  pub severity : ErrorSeverity

-- The flags of `ErrorMetadata`; the context (time, stack) is held by the runtime.
pub record ErrorMetadata : Type 0 where
  pub category : ErrorCategory
  pub severity : ErrorSeverity
  pub should_log : Bool
  pub should_alert : Bool
  pub retryable : Bool

-- The property `code` of a thrown object: absent, a number or a text.
pub data ErrorCode : Type 0 where
  no_code : ErrorCode
  number : ℕ → ErrorCode
  text : String → ErrorCode

-- An object that is thrown and is no `ApplicationError`. An absent name or message is "", an
-- absent status is 0: the source tests them by truth value or against other constants only.
-- `errors` holds the messages of a Mongoose validation error, `key_value` the keys of a duplicate.
pub record RawError : Type 0 where
  pub name : String
  pub message : String
  pub status_code : ℕ
  pub code : ErrorCode
  pub errors : List String
  pub key_value : List String

abbrev pub is_user_category : ErrorCategory → Bool
is_user_category ErrorCategory.user_error = true
is_user_category _ = false

abbrev pub is_system_category : ErrorCategory → Bool
is_system_category ErrorCategory.system_error = true
is_system_category _ = false

abbrev pub is_business_category : ErrorCategory → Bool
is_business_category ErrorCategory.business_error = true
is_business_category _ = false

-- The four categories that the source lists as user errors.
abbrev pub is_user_kind : ErrorCategory → Bool
is_user_kind ErrorCategory.system_error = false
is_user_kind ErrorCategory.business_error = false
is_user_kind _ = true

abbrev pub is_high : ErrorSeverity → Bool
is_high ErrorSeverity.high = true
is_high _ = false

abbrev pub is_critical : ErrorSeverity → Bool
is_critical ErrorSeverity.critical = true
is_critical _ = false
