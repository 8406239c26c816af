-- ===== src/Error/Flags.antt =====
-- How the classifier, the constructor of application errors and the transformation of foreign
-- errors agree.
use qa_api.Common.{ℕ, String, Bool, true, false, ◌≡◌, ◌≢◌, ◌↔◌, ◌⊎◌, ◌≤◌, Option, none, List, arith}
use qa_api.Error.Types.{ErrorCategory, ErrorSeverity, no_code, RawError, is_system_category}
use qa_api.Error.Classifier.{classify_by_status_code, classify_error}
use qa_api.Error.Application.{ApplicationError, new_error, of_kind}
use qa_api.Error.Handler.{transform_by_code, transform_by_name, classify_and_transform_error}

-- An application error, read as the plain object that `classifyError` inspects.
abbrev pub as_raw : ApplicationError → RawError
as_raw e = record {
  name = "ApplicationError";
  message = e.message;
  status_code = e.status_code;
  code = no_code;
  errors = List.[];
  key_value = List.[];
}

-- The classifier and the constructor agree: for an error built from a nonzero status alone,
-- classifying the error object afterwards gives the metadata that the constructor has stored.
classify_error-new_error :
    (message : String) (status : ℕ) (operational : Bool)
    → status ≢ 0
    → classify_error (as_raw (new_error message status none none operational))
      ≡ (new_error message status none none operational).metadata
unfolding classify_error new_error classify_by_status_code
classify_error-new_error message status operational h = ground arith

-- Whatever category and severity are given or left out, the metadata of an application error is
-- that of its own fields, an error that alerts is also logged and is never retried, and an error
-- that is retried is logged.
new_error_metadata :
    (message : String) (status : ℕ) (c : Option ErrorCategory) (s : Option ErrorSeverity)
    (operational : Bool)
    → let e = new_error message status c s operational in
      (e.metadata.category ≡ e.category)
      × (e.metadata.severity ≡ e.severity)
      × (e.metadata.should_alert ≡ true
          → (e.metadata.should_log ≡ true) × (e.metadata.retryable ≡ false))
      × (e.metadata.retryable ≡ true → e.metadata.should_log ≡ true)
unfolding new_error
new_error_metadata message status c s operational = ground arith

-- An error built from its status alone raises an alert exactly when the status is 500 or more.
new_error_alerts_iff :
    (message : String) (status : ℕ) (operational : Bool)
    → ((new_error message status none none operational).metadata.should_alert ≡ true)
      ↔ (500 ≤ status)
unfolding new_error classify_by_status_code
new_error_alerts_iff message status operational = ground arith

-- The statuses of errors that were not raised on purpose: 5xx, and 408 for a database's or the
-- network's time limit.
abbrev pub ServerSide : ℕ → Type 0
ServerSide s = (s ≡ 408) ⊎ ((s ≡ 500) ⊎ (s ≡ 503))

abbrev pub ClientSide : ℕ → Type 0
ClientSide s = (s ≡ 400) ⊎ ((s ≡ 401) ⊎ ((s ≡ 409) ⊎ (s ≡ 422)))

-- A transformed error: of the system and with a server's status, or neither.
abbrev pub IsSortedOut : ApplicationError → Type 0
IsSortedOut e =
    ((is_system_category e.category ≡ true) × ServerSide e.status_code × (e.is_operational ≡ false))
    ⊎ ((is_system_category e.category ≡ false)
        × ClientSide e.status_code
        × (e.is_operational ≡ true)
        × (e.metadata.should_alert ≡ false))

transform_by_code-IsSortedOut : (e : RawError) → IsSortedOut (transform_by_code e)
unfolding transform_by_code of_kind
transform_by_code-IsSortedOut e = ground arith

transform_by_name-IsSortedOut : (e : RawError) → IsSortedOut (transform_by_name e)
unfolding transform_by_name of_kind
transform_by_name-IsSortedOut e = ground (arith, transform_by_code-IsSortedOut e)

-- Every foreign error becomes either a system error that is not operational, with status 408, 500
-- or 503, or an operational error that raises no alert, with status 400, 401, 409 or 422.
transform-IsSortedOut : (e : RawError) → IsSortedOut (classify_and_transform_error e)
unfolding classify_and_transform_error of_kind
transform-IsSortedOut e = ground (arith, transform_by_name-IsSortedOut e)
