-- ===== src/Account/Table.antt =====
-- What the accounts rest on and src/ does not implement, as parameters: the table of users behind
-- the Prisma client, and bcrypt. Dates are milliseconds.
use qa_api.Common.{ℕ, String, Bool, true, ◌≡◌, ◌===◌, if◌then◌else◌, Option, none, some, List}
use qa_api.Effect.{ok, Action}

-- The columns of `User` that the password operations read or write.
pub record UserRow : Type 0 where
  pub id : String
  pub name : String
  pub email : String
  pub password : String
  pub language : String
  pub is_google_user : Bool
  pub last_password_change : Option ℕ
  pub reset_password_token : Option String
  pub reset_password_expire : Option ℕ
  pub change_code : Option String
  pub change_code_expire : Option ℕ
  pub verification_token : Option String
  pub verification_token_expire : Option ℕ

-- The argument `data` of `user.update`: `none` leaves the column alone, `some none` sets NULL.
pub record RowData : Type 0 where
  pub name : Option String
  pub email : Option String
  pub password : Option String
  pub language : Option String
  pub last_password_change : Option ℕ
  pub reset_password_token : Option (Option String)
  pub reset_password_expire : Option (Option ℕ)
  pub change_code : Option (Option String)
  pub change_code_expire : Option (Option ℕ)
  pub verification_token : Option (Option String)
  pub verification_token_expire : Option (Option ℕ)

abbrev pub or_value {ℓ} : {A : Type ℓ} → Option A → A → A
or_value none d = d
or_value (some a) d = a

abbrev pub or_option {ℓ} : {A : Type ℓ} → Option A → Option A → Option A
or_option none d = d
or_option (some a) d = some a

abbrev pub apply : RowData → UserRow → UserRow
apply d row = record {
  id = row.id;
  name = or_value d.name row.name;
  email = or_value d.email row.email;
  password = or_value d.password row.password;
  language = or_value d.language row.language;
  is_google_user = row.is_google_user;
  last_password_change = or_option d.last_password_change row.last_password_change;
  reset_password_token = or_value d.reset_password_token row.reset_password_token;
  reset_password_expire = or_value d.reset_password_expire row.reset_password_expire;
  change_code = or_value d.change_code row.change_code;
  change_code_expire = or_value d.change_code_expire row.change_code_expire;
  verification_token = or_value d.verification_token row.verification_token;
  verification_token_expire = or_value d.verification_token_expire row.verification_token_expire;
}

-- `user.findUnique` by id and by email, `user.findMany` and `user.update`.
pub record UserTable : Type 1 where
  pub Db : Type 0
  pub find_unique : Db → String → Option UserRow
  pub find_unique_email : Db → String → Option UserRow
  pub find_many : Db → List UserRow
  pub update : String → RowData → Action Db UserRow

-- An update of a user that exists writes the columns that it names, and no other user.
pub record IsLawful (t : UserTable) : Type 0 where
  pub updated :
      (db : t.Db) (id : String) (d : RowData) (row : UserRow)
      → t.find_unique db id ≡ some row
      → (db' : t.Db) × (t.update id d db ≡ (ok (apply d row), db'))
        × ((j : String)
            → t.find_unique db' j ≡ (if id === j then some (apply d row) else t.find_unique db j))

-- bcrypt: a hash begins with `$2`, and a password matches its own hash.
pub record Crypto : Type 0 where
  pub hash : String → String
  pub compare : String → String → Bool
  pub is_hash : String → Bool
  pub is_hash-hash : (s : String) → is_hash (hash s) ≡ true
  pub compare-hash : (s : String) → compare s (hash s) ≡ true
