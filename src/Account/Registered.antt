-- ===== src/Account/Registered.antt =====
-- What a registration leaves behind.
use qa_api.Common.{
  Bool, refl, find, ◌∷◌, ◌||◌, ◌&&◌, eq_refl, String, true, false, ◌≡◌, ◌===◌, none, some, List,
  arith, any, ap, ◌∙◌,
}
use qa_api.Effect.{ok, err}
use qa_api.Error.Handler.{Thrown, application}
use qa_api.Error.Application.{business_error_of}
use qa_api.Role.Table.{UserRole, Table, IsTable, is_pair}
use qa_api.Role.Catalog.{
  Role, Catalog, find_by_id, source_find_by_id, source_find_by_name, get_default_role,
}
use qa_api.Role.Assigned.{assign_role_to_user}
use qa_api.Role.Rows.{holds}
use qa_api.Role.Given.{assign_role-gives}
use qa_api.Account.Register.{
  Account, NewAccount, Accounts, Registration, register_user, new_account, given, give_role,
}

abbrev pub has_email : String → Account → Bool
has_email email a = a.email === email

found_first :
    (email : String) (a : Account) (rest : List Account)
    → a.email ≡ email
    → find (has_email email) (a ∷ rest) ≡ some a
found_first email a rest h =
    let same : (a.email === email) ≡ true = rw h (eq_refl email) in rw same refl

-- The repository of users: a search by an address finds the account that has it and throws when
-- there is none; an account with a password and an address that is free is made, with that address,
-- and neither the roles nor who holds them change.
pub record IsAccounts {Db : Type 0} (accounts : Accounts Db) (catalog : Catalog Db)
    (rows : Db → List UserRole) (stored : Db → List Account) : Type 0 where
  pub found :
      (email : String) (a : Account) (db : Db)
      → find (has_email email) (stored db) ≡ some a
      → accounts.find_by_email email db ≡ (ok a, db)
  pub absent :
      (email : String) (db : Db)
      → find (has_email email) (stored db) ≡ none
      → (e : Thrown) × (accounts.find_by_email email db ≡ (err e, db))
  pub made :
      (d : NewAccount) (db : Db)
      → (d.password === "") ≡ false
      → find (has_email d.email) (stored db) ≡ none
      → (a : Account) × (db' : Db) × (accounts.create d db ≡ (ok a, db'))
        × (stored db' ≡ a ∷ stored db)
        × (a.email ≡ d.email)
        × (rows db' ≡ rows db)
        × ((id : String) → catalog.find_role db' id ≡ catalog.find_role db id)

module _ {Db : Type 0} (accounts : Accounts Db) (catalog : Catalog Db) (user_roles : Table Db)
    (trim : String → String) (rows : Db → List UserRole) (table : IsTable user_roles rows) where
  inactive_role :
      (user : Account) (id : String) (role : Role) (db : Db)
      → catalog.find_role db id ≡ some role
      → role.is_active ≡ false
      → give_role accounts catalog user_roles trim user (some id) db
        ≡ (err (application (business_error_of "Specified role is not active" 400)), db)
  unfolding find_by_id source_find_by_id
  inactive_role user id role db found off = ground arith

  taken_address :
      (d : Registration) (user : Account) (db : Db)
      → accounts.find_by_email d.email db ≡ (ok user, db)
      → register_user accounts catalog user_roles trim d db
        ≡ (err (application (business_error_of "User with this email already exists" 400)), db)
  unfolding register_user
  taken_address d user db found = ground arith

  refused-run :
      (d : Registration) (id : String) (role : Role) (user : Account) (e : Thrown) (db db1 : Db)
      → given d.role_id ≡ some id
      → accounts.find_by_email d.email db ≡ (err e, db)
      → accounts.create (new_account accounts catalog user_roles trim d) db ≡ (ok user, db1)
      → catalog.find_role db1 id ≡ some role
      → role.is_active ≡ false
      → register_user accounts catalog user_roles trim d db
        ≡ (err (application (business_error_of "Specified role is not active" 400)), db1)
  unfolding register_user
  refused-run d id role user e db db1 wanted free made found off =
      let refused = inactive_role user id role db1 found off in ground arith

  -- A registration, with a password, for an address that is free and a role that exists and is not
  -- active: it is refused, and yet the account is made and stays, while no role is given to anyone;
  -- and every registration for that address which follows on this state is refused as one that
  -- exists, and changes nothing.
  pub refused_registration_keeps_account :
      (stored : Db → List Account)
      → IsAccounts accounts catalog rows stored
      → (d again : Registration) (id : String) (role : Role) (db : Db) → given d.role_id ≡ some id
      → (d.password === "") ≡ false
      → find (has_email d.email) (stored db) ≡ none
      → catalog.find_role db id ≡ some role
      → role.is_active ≡ false
      → again.email ≡ d.email
      → (user : Account) × (db1 : Db) × (register_user accounts catalog user_roles trim d db
          ≡ (err (application (business_error_of "Specified role is not active" 400)), db1))
        × (stored db1 ≡ user ∷ stored db)
        × (user.email ≡ d.email)
        × (rows db1 ≡ rows db)
        × (register_user accounts catalog user_roles trim again db1 ≡ (
          err (application (business_error_of "User with this email already exists" 400)),
          db1,
        ))
  refused_registration_keeps_account stored are d again id role db wanted password free found off
        same =
      let account = new_account accounts catalog user_roles trim d in
      let (e, absent) = are.absent d.email db free in
      let (user, db1, made, listed, address, kept, roles) = are.made account db password free in
      let there : find (has_email d.email) (stored db1) ≡ some user =
        ap (find (has_email d.email)) listed ∙ found_first d.email user (stored db) address in
      let again_found : accounts.find_by_email again.email db1 ≡ (ok user, db1) =
        rw same (are.found d.email user db1 there) in
      (
        user,
        db1,
        refused-run d id role user e db db1 wanted absent made (roles id ∙ found) off,
        listed,
        address,
        kept,
        taken_address again user db1 again_found,
      )

  account_made :
      (d : Registration) (user : Account) (r : UserRole) (e : Thrown) (db db1 db2 : Db)
      → accounts.find_by_email d.email db ≡ (err e, db)
      → accounts.create (new_account accounts catalog user_roles trim d) db ≡ (ok user, db1)
      → give_role accounts catalog user_roles trim user (given d.role_id) db1 ≡ (ok r, db2)
      → register_user accounts catalog user_roles trim d db ≡ (ok user, db2)
  unfolding register_user
  account_made d user r e db db1 db2 free made role = ground arith

  default_role :
      (user : Account) (role : Role) (db : Db)
      → catalog.find_role_named db "user" ≡ some role
      → give_role accounts catalog user_roles trim user none db
        ≡ assign_role_to_user user_roles user.id role.id none db
  unfolding get_default_role source_find_by_name
  default_role user role db found = ground arith

  -- A registration without a role, for an address that is free: where the account is made, the
  -- default role exists and the new account has no row of it yet, the account is returned and holds
  -- the default role, and every user holds the other roles as before.
  pub registered_user_holds_role :
      (d : Registration) (role : Role) (user : Account) (e : Thrown) (db db1 : Db)
      → given d.role_id ≡ none
      → accounts.find_by_email d.email db ≡ (err e, db)
      → accounts.create (new_account accounts catalog user_roles trim d) db ≡ (ok user, db1)
      → catalog.find_role_named db1 "user" ≡ some role
      → any (is_pair user.id role.id) (rows db1) ≡ false
      → let (o, db') = register_user accounts catalog user_roles trim d db in
        (o ≡ ok user)
        × (holds (rows db') user.id role.id ≡ true)
        × ((u r : String)
            → holds (rows db') u r ≡ (holds (rows db1) u r || (user.id === u && role.id === r)))
  registered_user_holds_role d role user e db db1 none_asked free made found fresh =
      let ((r, assigned), gives) =
        assign_role-gives user_roles rows table user.id role.id none db1 fresh in
      let default = default_role user role db1 found in
      let given_role : give_role accounts catalog user_roles trim user (given d.role_id) db1
          ≡ (ok r, (assign_role_to_user user_roles user.id role.id none db1).1) =
        rw none_asked (
          default
          ∙ ap (λ o. (o, (assign_role_to_user user_roles user.id role.id none db1).1)) assigned) in
      let run =
        account_made d user r e db db1 (assign_role_to_user user_roles user.id role.id none db1).1
          free made given_role in
      (
        ap (λ o. o.0) run,
        ap (λ o. holds (rows o.1) user.id role.id) run
            ∙ gives user.id role.id
            ∙ rw (eq_refl user.id, eq_refl role.id) (ground arith),
        λ u r'. ap (λ o. holds (rows o.1) u r') run ∙ gives u r',
      )
