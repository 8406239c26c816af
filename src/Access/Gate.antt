-- ===== src/Access/Gate.antt =====
-- middlewares/authorization/authMiddleware.ts. What a middleware does is call `next`, with an
-- error or with the request as it leaves it.
use Prim.Native.String.{String}
use qa_api.Common.{
  ℕ, ◌*◌, Bool, true, false, not, ◌&&◌, ◌==◌, ◌===◌, ltb, if◌then◌else◌, Option, none, some, [],
}
use qa_api.Effect.{Outcome, ok, err}
use qa_api.Error.Types.{no_code}
use qa_api.Error.Application.{new_error}
use qa_api.Error.Handler.{Thrown, application, other}
use qa_api.Access.Bearer.{is_token_included, get_access_token_from_header}
use qa_api.Access.Identity.{is_id_valid_for_database}

pub record SessionUser : Type 0 where
  pub id : String
  pub name : String
  pub role : Option String

-- The parts of the request that the middlewares read or set.
pub record Request : Type 0 where
  pub authorization : Option String
  pub user : Option SessionUser
  pub locale : Option String

-- What a token carries; `iat` is in seconds.
pub record DecodedToken : Type 0 where
  pub id : String
  pub name : String
  pub role : Option String
  pub lang : Option String
  pub iat : Option ℕ

-- `next(error)` and `next()`
pub data Next : Type 0 where
  next_error : Thrown → Next
  next : Request → Next

-- The environment variable with the secret, `jwt.verify`, the configured database and the user
-- service, of which the time of the last password change in milliseconds is used.
pub record Services : Type 0 where
  pub jwt_secret_key : Option String
  pub verify : String → String → Option DecodedToken
  pub database_type : String
  pub find_user : String → Outcome (Option (Option ℕ))

-- A text that is missing or empty is false.
abbrev pub has_text : Option String → Bool
has_text none = false
has_text (some s) = not (s === "")

abbrev pub or_default : Option String → String → String
or_default none d = d
or_default (some s) d = s

abbrev pub refuse : String → ℕ → Next
refuse message status = next_error (application (new_error message status none none true))

abbrev pub unauthorized : Next
unauthorized = refuse "You are not authorized to access this route" 401

module _ (s : Services) where
  -- `!decodedToken.id || !isIdValidForDatabase(…)`, negated
  abbrev pub is_known : DecodedToken → Bool
  is_known d = not (d.id === "") && is_id_valid_for_database d.id s.database_type

  -- The token was issued before the last password change; an error of the user service counts as
  -- no. An `iat` of 0 is none.
  abbrev pub is_older : ℕ → Outcome (Option (Option ℕ)) → Bool
  is_older iat (ok (some (some change))) = ltb (iat * 1000) change
  is_older iat _ = false

  abbrev pub is_expired : DecodedToken → Bool
  is_expired d = elim d.iat [
    | none ↦ false
    | some iat ↦ not (iat == 0) && is_older iat (s.find_user d.id)
  ]

  abbrev pub let_in : DecodedToken → Request → Next
  let_in d req = next (record req {
    user = some (record { id = d.id; name = d.name; role = d.role });
    locale = some (or_default d.lang "en");
  })

  abbrev pub verified : Request → Option DecodedToken → Next
  verified req none = unauthorized
  verified req (some d) =
      if is_known d
      then if is_expired d then refuse "Token expired due to password change" 401 else let_in d req
      else unauthorized

  abbrev pub with_secret : Request → String → Option String → Next
  with_secret req token none = refuse "JWT secret key is not set" 500
  with_secret req token (some secret) =
      if secret === ""
      then refuse "JWT secret key is not set" 500
      else verified req (s.verify token secret)

  abbrev pub with_token : Request → Option String → Next
  with_token req none = refuse "No access token provided" 401
  with_token req (some token) =
      if token === ""
      then refuse "No access token provided" 401
      else with_secret req token s.jwt_secret_key

  unfoldable pub get_access_to_route : Request → Next
  get_access_to_route req =
      if is_token_included req.authorization
      then with_token req (get_access_token_from_header req.authorization)
      else unauthorized

  -- The optional check: the same steps, each of which lets the request pass as it is; the time of
  -- the password change is not looked at.
  abbrev pub optional_user : Request → Option DecodedToken → Request
  optional_user req none = req
  optional_user req (some d) =
      if is_known d
      then record req { user = some (record { id = d.id; name = d.name; role = d.role }) }
      else req

  abbrev pub optional_secret : Request → String → Option String → Request
  optional_secret req token none = req
  optional_secret req token (some secret) =
      if secret === "" then req else optional_user req (s.verify token secret)

  abbrev pub optional_token : Request → Option String → Request
  optional_token req none = req
  optional_token req (some token) =
      if token === "" then req else optional_secret req token s.jwt_secret_key

  unfoldable pub get_optional_access : Request → Next
  get_optional_access req = next (
      if is_token_included req.authorization
      then optional_token req (get_access_token_from_header req.authorization)
      else req)

-- The checks that only the owner passes; they run behind `getAccessToRoute`, with its user's id.
-- `owner` is the field `user` of the question, or the id in it for an answer that is populated.
abbrev missing : String → Next
missing message = next_error (
    other (record {
      name = "Error";
      message = message;
      status_code = 0;
      code = no_code;
      errors = [];
      key_value = [];
    }))

abbrev pub owns : String → Request → Outcome (Option String) → Next
owns user_id req (ok (some owner)) =
    if owner === user_id then next req else refuse "Only owner can handle this operation" 403
owns user_id req (ok none) = refuse "Only owner can handle this operation" 403
owns user_id req (err e) = next_error e

module _ (find_owner : String → Outcome (Option String)) where
  unfoldable pub get_question_owner_access : String → Option String → Request → Next
  get_question_owner_access user_id none req = missing "questionId is required"
  get_question_owner_access user_id (some id) req =
      if id === "" then missing "questionId is required" else owns user_id req (find_owner id)

  unfoldable pub get_answer_owner_access : String → Option String → Request → Next
  get_answer_owner_access user_id none req = missing "answerId is required"
  get_answer_owner_access user_id (some id) req =
      if id === "" then missing "answerId is required" else owns user_id req (find_owner id)
