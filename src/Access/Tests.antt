-- ===== src/Access/Tests.antt =====
-- The theorems on access at concrete inputs.
use qa_api.Common.{
  String, true, ◌≡◌, ◌↔◌, refl, ◌===◌, if◌then◌else◌, Option, none, some, [], ◌∷◌, any, includes,
  arith, eq_iff,
}
use qa_api.Effect.{Outcome, ok, err}
use qa_api.Error.Handler.{application}
use qa_api.Error.Application.{not_found_error}
use qa_api.Access.Bearer.{is_token_included, get_access_token_from_header}
use qa_api.Access.Identity.{is_id_valid_for_database}
use qa_api.Access.Gate.{
  Request, DecodedToken, next, Services, is_known, let_in, get_access_to_route,
}
use qa_api.Access.Permission.{text_id, Role, Permission, Directory, get_user_permissions}
use qa_api.Access.Tokens.{Carries, IsStale, access_iff}
use qa_api.Access.Grants.{role_grants, permission-IsGranted}

-- A token that was issued at 5,000,700 ms, 200 ms after the password change.
abbrev decoded : DecodedToken
decoded = record {
  id = "0123456789abcdef01234567";
  name = "Ann";
  role = none;
  lang = some "tr";
  iat = some 5000;
}

abbrev services : Services
services = record {
  jwt_secret_key = some "secret";
  verify = λ token secret. if token === "token" then some decoded else none;
  database_type = "mongodb";
  find_user = λ id. ok (some (some 5000500));
}

abbrev request : Request
request = record { authorization = some "Bearer token"; user = none; locale = none }

carried : Carries services request decoded
unfolding is_token_included get_access_token_from_header
carried = ("token", "secret", refl, refl, refl, refl, refl, refl)

known : is_known services decoded ≡ true
unfolding is_id_valid_for_database
known = refl

access_iff_example : (get_access_to_route services request ≡ next request) ↔ (
    (d : DecodedToken) × Carries services request d
    × (is_known services d ≡ true)
    × (IsStale services request d → ⊥)
    × (next request ≡ let_in services d request))
access_iff_example = access_iff services request request

-- One active role that lists one active permission.
abbrev role : String → Option Role
role id =
    if id === "r1"
    then some (record { is_active = true; permissions = some (text_id "p1" ∷ []) })
    else none

abbrev permission : String → Option Permission
permission id =
    if id === "p1" then some (record { name = "system:admin"; is_active = true }) else none

-- As the services answer: a missing id is an error.
abbrev found : {A : Type 0} → Option A → Outcome (Option A)
found none = err (application (not_found_error "not found"))
found (some a) = ok (some a)

abbrev directory : Directory
directory = record {
  get_user_active_roles = λ u. ok ("r1" ∷ []);
  find_role = λ id. found (role id);
  find_permission = λ id. found (permission id);
}

only-role : (id : String) → includes ("r1" ∷ []) id ≡ true → directory.find_role id ≡ ok (role id)
only-role id h = let same : id ≡ "r1" = ground (arith, eq_iff "r1" id) in rw same refl

only-permission :
    (id : String)
    → includes ("p1" ∷ []) id ≡ true
    → directory.find_permission id ≡ ok (permission id)
only-permission id h = let same : id ≡ "p1" = ground (arith, eq_iff "p1" id) in rw same refl

permission-IsGranted_example :
    includes (get_user_permissions directory "ann") "system:admin"
    ≡ any (λ id. role_grants permission "system:admin" (role id)) ("r1" ∷ [])
permission-IsGranted_example =
    permission-IsGranted directory role permission "ann" "system:admin" ("r1" ∷ []) refl
      (λ id h. only-role id h) (λ id h. only-permission id h)
