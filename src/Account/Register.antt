-- ===== src/Account/Register.antt =====
-- services/managers/AuthManager.ts: registerUser, over the roles. The accounts themselves (finding
-- one by its address, and making one) are a parameter, and so is `trim`.
use qa_api.Common.{String, Bool, false, not, ◌===◌, ◌+++◌, if◌then◌else◌, Option, none, some}
use qa_api.Effect.{ok, err, Action, pure, throw_if, is_object, ◌>>=◌, ◌>>◌}
use qa_api.Error.Application.{business_error_of}
use qa_api.Role.Table.{UserRole, Table}
use qa_api.Role.Assigned.{assign_role_to_user}
use qa_api.Role.Catalog.{Catalog, find_by_id, get_default_role}

pub record Account : Type 0 where
  pub id : String
  pub name : String
  pub email : String

pub record NewAccount : Type 0 where
  pub name : String
  pub email : String
  pub password : String
  pub language : String

pub record Registration : Type 0 where
  pub first_name : String
  pub last_name : String
  pub email : String
  pub password : String
  pub role_id : Option String
  pub language : Option String

-- `IUserRepository`, as far as the registration calls it: the search throws when there is no such
-- account.
pub record Accounts (Db : Type 0) : Type 0 where
  pub find_by_email : String → Action Db Account
  pub create : NewAccount → Action Db Account

abbrev or_text : Option String → String → String
or_text none d = d
or_text (some s) d = if s === "" then d else s

abbrev pub given : Option String → Option String
given none = none
given (some s) = if s === "" then none else some s

module _ {Db : Type 0} (accounts : Accounts Db) (catalog : Catalog Db) (user_roles : Table Db)
    (trim : String → String) where
  abbrev pub new_account : Registration → NewAccount
  new_account d = record {
    name = trim (d.first_name +++ " " +++ d.last_name);
    email = d.email;
    password = d.password;
    language = or_text d.language "en";
  }

  -- Whatever the search throws counts as no account.
  abbrev existing : String → Db → Bool × Db
  existing email db =
      let (r, db') = accounts.find_by_email email db in
      (elim r [ ok a ↦ is_object a | err _ ↦ false ], db')

  abbrev pub give_role : Account → Option String → Action Db UserRole
  give_role user (some id) = do
    role ← find_by_id catalog id
    throw_if (not (is_object role)) (business_error_of "Specified role not found" 400)
    throw_if (not role.is_active) (business_error_of "Specified role is not active" 400)
    assign_role_to_user user_roles user.id id none
  give_role user none = do
    role ← get_default_role catalog
    assign_role_to_user user_roles user.id role.id none

  unfoldable pub register_user : Registration → Action Db Account
  unfolding find_by_id get_default_role assign_role_to_user
  register_user d db =
      let (taken, db') = existing d.email db in
      (do
        throw_if taken (business_error_of "User with this email already exists" 400)
        user ← accounts.create (new_account d)
        give_role user (given d.role_id)
        pure user)
        db'
