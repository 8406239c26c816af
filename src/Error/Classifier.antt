-- ===== src/Error/Classifier.antt =====
-- infrastructure/error/ErrorClassifier.ts.
use qa_api.Common.{ℕ, String, Bool, false, not, ◌&&◌, ◌||◌, ltb, leb, ◌==◌, ◌===◌, if◌then◌else◌}
use qa_api.Error.Types.{
  ErrorCategory, user_error, system_error, business_error, validation_error, authentication_error,
  authorization_error, ErrorSeverity, low, medium, high, critical, Classification, ErrorMetadata,
  ErrorCode, no_code, number, text, RawError, is_user_category, is_system_category, is_user_kind,
  is_high, is_critical,
}

abbrev classed : ErrorCategory → ErrorSeverity → Classification
classed c s = record { category = c; severity = s }

unfoldable pub classify_by_status_code : ℕ → Classification
classify_by_status_code status =
    if leb 400 status && ltb status 500
    then (if status == 401
        then classed authentication_error low
        else if status == 403
        then classed authorization_error low
        else if status == 422
        then classed validation_error low
        else classed user_error low)
    else if leb 500 status
    then classed system_error critical
    else classed business_error medium

unfoldable pub classify_by_error_name : String → Classification
classify_by_error_name name =
    if name === "ValidationError"
    then classed validation_error low
    else if name === "CastError"
    then classed validation_error low
    else if name === "SyntaxError"
    then classed user_error low
    else if name === "ReferenceError"
    then classed system_error critical
    else if name === "TypeError"
    then classed system_error high
    else if name === "RangeError"
    then classed system_error high
    else if name === "URIError"
    then classed user_error low
    else if name === "EvalError"
    then classed system_error critical
    else classed business_error medium

-- A property key: the number and its decimal text name the same entry.
abbrev has_key : ErrorCode → ℕ → String → Bool
has_key no_code n s = false
has_key (number m) n s = m == n
has_key (text t) n s = t === s

abbrev is_text : ErrorCode → String → Bool
is_text (text t) s = t === s
is_text _ s = false

unfoldable pub classify_by_error_code : ErrorCode → Classification
classify_by_error_code code =
    if has_key code 11000 "11000"
      || has_key code 121 "121"
      || has_key code 23505 "23505"
      || has_key code 23503 "23503"
    then classed validation_error low
    else if has_key code 42703 "42703" || is_text code "42P01"
    then classed system_error high
    else classed business_error medium

-- Truth values: 0, "" and `undefined` are false.
abbrev has_code : ErrorCode → Bool
has_code no_code = false
has_code (number n) = not (n == 0)
has_code (text s) = not (s === "")

-- The chain of `classifyError`: by status, by name, by code.
unfoldable pub classification : RawError → Classification
classification e =
    if not (e.status_code == 0)
    then classify_by_status_code e.status_code
    else if not (e.name === "")
    then classify_by_error_name e.name
    else if has_code e.code
    then classify_by_error_code e.code
    else classed business_error medium

abbrev pub flags : Classification → ErrorMetadata
flags c = record {
  category = c.category;
  severity = c.severity;
  should_log = not (is_user_category c.category) || is_high c.severity;
  should_alert = is_system_category c.category && is_critical c.severity;
  retryable = is_system_category c.category && not (is_critical c.severity);
}

unfoldable pub classify_error : RawError → ErrorMetadata
unfolding classification
classify_error e = flags (classification e)

pub is_user_error : ErrorMetadata → Bool
is_user_error m = is_user_kind m.category

pub is_system_error : ErrorMetadata → Bool
is_system_error m = is_system_category m.category
