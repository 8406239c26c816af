-- ===== src/Error/Handler.antt =====
-- middlewares/errors/appErrorHandler.ts: from whatever was thrown to the response that is sent.
-- The time, the stack, the random error id and the console are the runtime's and not modelled;
-- `has_error_id` says whether an id is put into the body.
use Prim.Native.String
use qa_api.Common.{
  ℕ, String, Bool, true, false, not, ◌&&◌, ◌||◌, ◌==◌, ◌===◌, if◌then◌else◌, Option, none, some,
  List, [], ◌∷◌,
}
use qa_api.Error.Types.{
  ErrorCategory, ErrorSeverity, ErrorCode, number, text, RawError, is_system_category, is_user_kind,
  is_critical,
}
use qa_api.Error.Application.{
  ApplicationError, user_error_of, validation_error_of, authentication_error_of,
  internal_server_error, foreign_key_error, network_error, timeout_error, database_error,
  duplicate_key_error, from_custom_error, is_user_error, is_system_error, is_business_error,
}

-- What reaches the handler.
pub data Thrown : Type 0 where
  application : ApplicationError → Thrown
  other : RawError → Thrown

pub record Request : Type 0 where
  pub original_url : String
  pub method : String
  pub user_id : Option String

-- `join(', ')`
abbrev join : List String → String
join [] = ""
join (s ∷ []) = s
join (s ∷ t ∷ r) = String.◌++◌ s (String.◌++◌ ", " (join (t ∷ r)))

abbrev is_number : ErrorCode → ℕ → Bool
is_number (number m) n = m == n
is_number _ n = false

abbrev is_text : ErrorCode → String → Bool
is_text (text t) s = t === s
is_text _ s = false

-- `Object.keys(err.keyValue)[0] || 'field'`
abbrev first_key : List String → String
first_key [] = "field"
first_key (k ∷ _) = if k === "" then "field" else k

-- `err.message || d`
abbrev or_text : String → String → String
or_text s d = if s === "" then d else s

-- The last part of `classifyAndTransformError`: codes of PostgreSQL and of the network.
unfoldable pub transform_by_code : RawError → ApplicationError
transform_by_code e =
    if is_text e.code "23505"
    then duplicate_key_error "Resource already exists"
    else if is_text e.code "23503"
    then foreign_key_error "Referenced resource not found"
    else if is_text e.code "42703"
    then database_error "Database schema error" (some e.message)
    else if is_text e.code "ECONNREFUSED"
    then network_error "Service connection refused"
    else if is_text e.code "ETIMEDOUT"
    then timeout_error "Request timeout"
    else internal_server_error (or_text e.message "Unknown error occurred")

-- Its middle part: names of errors, from the id format to the database's time limit.
unfoldable pub transform_by_name : RawError → ApplicationError
transform_by_name e =
    if e.name === "CastError"
    then validation_error_of "Please provide a valid id"
    else if e.name === "SyntaxError"
    then user_error_of "Invalid JSON syntax" 400
    else if e.name === "JsonWebTokenError"
    then authentication_error_of "Invalid token"
    else if e.name === "TokenExpiredError"
    then authentication_error_of "Token expired"
    else if e.name === "MongoNetworkError" || e.name === "MongooseServerSelectionError"
    then database_error "Database connection failed" (some e.message)
    else if e.name === "MongoTimeoutError"
    then timeout_error "Database operation timeout"
    else transform_by_code e

unfoldable pub classify_and_transform_error : RawError → ApplicationError
classify_and_transform_error e =
    if e.name === "ValidationError"
    then validation_error_of (join e.errors)
    else if is_number e.code 11000
    then duplicate_key_error (first_key e.key_value)
    else transform_by_name e

-- The first step of `appErrorHandler`.
unfoldable pub to_application_error : Thrown → ApplicationError
to_application_error (application e) = e
to_application_error (other e) =
    if not (e.status_code == 0) && not (e.message === "")
    then from_custom_error e
    else classify_and_transform_error e

-- What the handler reports, and to whom.
pub data Report : Type 0 where
  warned captured : ApplicationError → Request → Report
  unreported : Report

unfoldable pub handle_error_logging : ApplicationError → Request → Report
handle_error_logging e req =
    if is_user_error e
    then warned e req
    else if is_system_error e || is_business_error e && is_critical e.severity
    then captured e req
    else unreported

pub record Debug : Type 0 where
  pub category : ErrorCategory
  pub severity : ErrorSeverity
  pub endpoint : String
  pub method : String

pub record Body : Type 0 where
  pub success : Bool
  pub error : String
  pub status_code : ℕ
  pub debug : Option Debug
  pub has_error_id : Bool

abbrev base_body : ApplicationError → Body
base_body e = record {
  success = false;
  error = e.message;
  status_code = e.status_code;
  debug = none;
  has_error_id = false;
}

-- Development and test: the debug part is added.
abbrev add_debug : String → ApplicationError → Request → Body → Body
add_debug node_env e req b =
    if node_env === "development" || node_env === "test"
    then record b {
      debug = some (record {
        category = e.category;
        severity = e.severity;
        endpoint = req.original_url;
        method = req.method;
      });
    }
    else b

-- Production: a system error is hidden behind a general message and an id.
abbrev hide_system : String → ApplicationError → Body → Body
hide_system node_env e b =
    if node_env === "production" && is_system_category e.category
    then record b { error = "Internal server error"; has_error_id = true }
    else b

abbrev show_user : ApplicationError → Body → Body
show_user e b = if is_user_kind e.category then record b { error = e.message } else b

unfoldable pub prepare_error_response : String → ApplicationError → Request → Body
prepare_error_response node_env e req =
    show_user e (hide_system node_env e (add_debug node_env e req (base_body e)))

pub record Reply : Type 0 where
  pub status : ℕ
  pub body : Body
  pub report : Report

-- `res.status(appError.statusCode || 500)`
abbrev status_or_500 : ℕ → ℕ
status_or_500 s = if s == 0 then 500 else s

unfoldable pub app_error_handler : String → Thrown → Request → Reply
unfolding to_application_error handle_error_logging prepare_error_response
app_error_handler node_env err req =
    let e = to_application_error err in
    record {
      status = status_or_500 e.status_code;
      body = prepare_error_response node_env e req;
      report = handle_error_logging e req;
    }
