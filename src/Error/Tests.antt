-- ===== src/Error/Tests.antt =====
-- The theorems on errors at concrete inputs.
use qa_api.Common.{some, []}
use qa_api.Error.Types.{RawError, no_code, text}
use qa_api.Error.Handler.{Request}

abbrev request : Request
request = record { original_url = "/api/users"; method = "POST"; user_id = some "u1" }

abbrev unique_violation : RawError
unique_violation = record {
  name = "PrismaClientUnknownRequestError";
  message = "duplicate key value";
  status_code = 0;
  code = text "23505";
  errors = [];
  key_value = [];
}

abbrev network_failure : RawError
network_failure = record {
  name = "MongoNetworkError";
  message = "connection refused";
  status_code = 0;
  code = no_code;
  errors = [];
  key_value = [];
}

abbrev server_down : RawError
server_down = record {
  name = "MongooseServerSelectionError";
  message = "no primary at 10.0.0.7";
  status_code = 0;
  code = no_code;
  errors = [];
  key_value = [];
}
