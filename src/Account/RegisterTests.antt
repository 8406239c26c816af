-- ===== src/Account/RegisterTests.antt =====
-- The theorems on the registration at concrete inputs: a list of accounts beside the roles of users
-- of Role/Memory.antt. The role "user" is active, the role "guest" is not.
use qa_api.Common.{
  arith, ap, String, true, false, ◌≡◌, refl, ◌||◌, ◌&&◌, ◌===◌, if◌then◌else◌, Option, none, some,
  List, [], ◌∷◌, find,
}
use qa_api.Effect.{ok, err}
use qa_api.Error.Handler.{application}
use qa_api.Error.Application.{not_found_error, business_error_of}
use qa_api.Role.Table.{Table, IsTable}
use qa_api.Role.Rows.{holds}
use qa_api.Role.Catalog.{Catalog, Role, Permission}
use qa_api.Role.Memory.{Rows, table, table-IsTable}
use qa_api.Account.Register.{Account, Accounts, Registration, register_user}
use qa_api.Account.Registered.{
  IsAccounts, refused_registration_keeps_account, registered_user_holds_role,
}

abbrev Db : Type 0
Db = List Account × Rows

abbrev user_roles : Table Db
user_roles = record {
  find_by_user = λ db u. table.find_by_user db.1 u;
  find_by_role = λ db role. table.find_by_role db.1 role;
  create_row = λ d db. let (o, rows) = table.create_row d db.1 in (o, (db.0, rows));
  update_row = λ id p db. let (o, rows) = table.update_row id p db.1 in (o, (db.0, rows));
}

user_roles-IsTable : IsTable user_roles (λ db. db.1.0)
user_roles-IsTable = record {
  keyed = λ db. table-IsTable.keyed db.1;
  by_user = λ db u. table-IsTable.by_user db.1 u;
  created = λ d db free. table-IsTable.created d db.1 free;
  refused = λ d db taken.
      let (e, same) = table-IsTable.refused d db.1 taken in (e, ap (λ o. (o.0, (db.0, o.1))) same);
  updated = λ id p db h l there. table-IsTable.updated id p db.1 h l there;
}

abbrev accounts : Accounts Db
accounts = record {
  find_by_email = λ email db. (
    elim (find (λ a. a.email === email) db.0) [
      | none ↦ err (application (not_found_error "User not found"))
      | some a ↦ ok a
    ],
    db,
  );
  create = λ d db.
      let a : Account = record { id = d.email; name = d.name; email = d.email } in
      (ok a, (a ∷ db.0, db.1));
}

abbrev role_of : String → Option Role
role_of id =
    if id === "user" || id === "guest"
    then some (record {
      id = id;
      name = id;
      description = "";
      permissions = [];
      is_system = true;
      is_active = id === "user";
    })
    else none

abbrev no_role : Role
no_role = record {
  id = "";
  name = "";
  description = "";
  permissions = [];
  is_system = false;
  is_active = false;
}

abbrev no_permission : Permission
no_permission = record {
  id = "";
  name = "";
  description = "";
  resource = "";
  action = "";
  category = "";
  is_active = false;
}

abbrev catalog : Catalog Db
catalog = record {
  find_role = λ db id. role_of id;
  find_role_named = λ db name. role_of name;
  create_role = λ name d s a db. (ok no_role, db);
  update_role = λ id p db. (ok no_role, db);
  delete_role = λ id db. (ok no_role, db);
  link = λ id ps db. (ok tt, db);
  unlink = λ id ps db. (ok tt, db);
  find_permission_named = λ db name. none;
  create_permission = λ d db. (ok no_permission, db);
}

abbrev form : Option String → Registration
form role = record {
  first_name = "Ann";
  last_name = "Lee";
  email = "ann@x";
  password = "pw";
  role_id = role;
  language = none;
}

abbrev ann : Account
ann = record { id = "ann@x"; name = "Ann Lee"; email = "ann@x" }

abbrev before : Db
before = ([], ([], tt))

abbrev after : Db
after = (ann ∷ [], ([], tt))

accounts-IsAccounts : IsAccounts accounts catalog (λ db. db.1.0) (λ db. db.0)
accounts-IsAccounts = record {
  found = λ email a db h. ground arith;
  absent = λ email db h. (application (not_found_error "User not found"), ground arith);
  made = λ d db has_text free. (_, _, refl, refl, refl, refl, λ id. refl);
}

-- A guest is refused, and then the same address without a role.
refused_registration_keeps_account_example :
    (user : Account) × (db1 : Db) × (register_user accounts catalog user_roles
        (λ s. s)
        (form (some "guest"))
        before
      ≡ (err (application (business_error_of "Specified role is not active" 400)), db1))
    × (db1.0 ≡ user ∷ [])
    × (user.email ≡ "ann@x")
    × (db1.1.0 ≡ [])
    × (register_user accounts catalog user_roles (λ s. s) (form none) db1
        ≡ (err (application (business_error_of "User with this email already exists" 400)), db1))
refused_registration_keeps_account_example =
    refused_registration_keeps_account accounts catalog user_roles (λ s. s) (λ db. db.1.0)
      user_roles-IsTable (λ db. db.0) accounts-IsAccounts (form (some "guest")) (form none) "guest"
      (record no_role { id = "guest"; name = "guest"; is_system = true }) before refl refl refl refl
      refl refl

registered_user_holds_role_example :
    let (o, db) = register_user accounts catalog user_roles (λ s. s) (form none) before in
    (o ≡ ok ann)
    × (holds db.1.0 "ann@x" "user" ≡ true)
    × ((u r : String) → holds db.1.0 u r ≡ (holds [] u r || ("ann@x" === u && "user" === r)))
registered_user_holds_role_example =
    registered_user_holds_role accounts catalog user_roles (λ s. s) (λ db. db.1.0)
      user_roles-IsTable (form none)
      (record no_role { id = "user"; name = "user"; is_system = true; is_active = true }) ann
      (application (not_found_error "User not found")) before after refl refl refl refl refl
