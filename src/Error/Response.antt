-- ===== src/Error/Response.antt =====
-- What the error handler lets out, and what it reports.
use qa_api.Common.{
  String, true, false, ◌&&◌, ◌||◌, ◌≡◌, ◌≢◌, ◌↔◌, ◌===◌, none, List, [], ◌∷◌, any, arith,
}
use qa_api.Error.Types.{
  RawError, text, is_system_category, is_business_category, is_user_kind, is_critical,
}
use qa_api.Error.Application.{of_kind}
use qa_api.Error.Handler.{
  Thrown, other, Request, warned, captured, transform_by_code, transform_by_name,
  classify_and_transform_error, to_application_error, app_error_handler,
}

-- The debug part is sent in exactly the environments "development" and "test".
debug_part_iff :
    (node_env : String) (err : Thrown) (req : Request)
    → ((app_error_handler node_env err req).body.debug ≢ none)
      ↔ ((node_env === "development" || node_env === "test") ≡ true)
unfolding app_error_handler
debug_part_iff node_env err req = ground arith

-- In every environment an error that is not the system's keeps its own message and has no error
-- id.
reply_keeps_message :
    (node_env : String) (err : Thrown) (req : Request)
    → is_system_category (to_application_error err).category ≡ false
    → ((app_error_handler node_env err req).body.error ≡ (to_application_error err).message)
      × ((app_error_handler node_env err req).body.has_error_id ≡ false)
unfolding app_error_handler
reply_keeps_message node_env err req h = ground arith

-- The exception tracker is told exactly of system errors and of critical business errors; the
-- log is told exactly of the four user kinds.
report_iff :
    (node_env : String) (err : Thrown) (req : Request)
    → let e = to_application_error err in
      let r = (app_error_handler node_env err req).report in
      ((r ≡ captured e req) ↔ (
        (is_system_category e.category || is_business_category e.category && is_critical e.severity)
        ≡ true))
      × ((r ≡ warned e req) ↔ (is_user_kind e.category ≡ true))
unfolding app_error_handler
report_iff node_env err req = ground arith

-- The names that `classifyAndTransformError` tests before it comes to the codes of PostgreSQL.
abbrev pub handled_names : List String
handled_names =
    "ValidationError" ∷ "CastError" ∷ "SyntaxError" ∷ "JsonWebTokenError" ∷ "TokenExpiredError"
    ∷ "MongoNetworkError" ∷ "MongooseServerSelectionError" ∷ "MongoTimeoutError" ∷ []

-- A PostgreSQL unique violation (code "23505") that comes without a status, under a name that is
-- not handled by itself, is answered in every environment with 409 and with the words "already
-- exists" twice, since the factory takes the name of a field.
unique_violation_message :
    (node_env : String) (e : RawError) (req : Request)
    → any (λ n. e.name === n) handled_names ≡ false
    → e.code ≡ text "23505"
    → e.status_code ≡ 0
    → let r = app_error_handler node_env (other e) req in
      (r.status ≡ 409) × (r.body.error ≡ "Resource already exists already exists")
unfolding app_error_handler classify_and_transform_error transform_by_name transform_by_code of_kind
unique_violation_message node_env e req n c st = ground arith
