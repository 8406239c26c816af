-- ===== src/Account/Source.antt =====
-- repositories/postgresql/UserPostgreSQLDataSource.ts: reading a user, and updating one from a
-- partial entity, with its columns cut to those of Account/Table.antt.
use qa_api.Common.{
  ℕ, String, Bool, false, ◌&&◌, ◌===◌, ltb, if◌then◌else◌, Option, none, some, find,
}
use qa_api.Effect.{Action, ◌>>=◌, gets, or_throw}
use qa_api.Error.Application.{not_found_error}
use qa_api.Account.Table.{UserRow, RowData, UserTable, Crypto}

-- A property of a JavaScript object: absent or `undefined`, `null`, or a value.
pub data Field {ℓ} (A : Type ℓ) : Type ℓ where
  undefined null : Field A
  value : A → Field A

-- `Partial<IUserModel>`
pub record UserPatch : Type 0 where
  pub name : Field String
  pub email : Field String
  pub password : Field String
  pub language : Field String
  pub last_password_change : Field ℕ
  pub reset_password_token : Field String
  pub reset_password_expire : Field ℕ
  pub change_code : Field String
  pub change_code_expire : Field ℕ
  pub verification_token : Field String
  pub verification_token_expire : Field ℕ

abbrev pub no_change : UserPatch
no_change = record {
  name = undefined;
  email = undefined;
  password = undefined;
  language = undefined;
  last_password_change = undefined;
  reset_password_token = undefined;
  reset_password_expire = undefined;
  change_code = undefined;
  change_code_expire = undefined;
  verification_token = undefined;
  verification_token_expire = undefined;
}

-- `...(rest.x != null && { x: rest.x })`
abbrev pub unless_null {ℓ} : {A : Type ℓ} → Field A → Option A
unless_null (value a) = some a
unless_null _ = none

-- `...(rest.x !== undefined && { x: rest.x ?? null })`
abbrev pub unless_undefined {ℓ} : {A : Type ℓ} → Field A → Option (Option A)
unless_undefined undefined = none
unless_undefined null = some none
unless_undefined (value a) = some (some a)

module _ (t : UserTable) (c : Crypto) where
  -- A password that is no hash yet is hashed.
  abbrev stored_password : Field String → Option String
  stored_password (value s) = some (if c.is_hash s then s else c.hash s)
  stored_password _ = none

  unfoldable pub update_data : UserPatch → RowData
  update_data d = record {
    name = unless_null d.name;
    email = unless_null d.email;
    password = stored_password d.password;
    language = unless_null d.language;
    last_password_change = unless_null d.last_password_change;
    reset_password_token = unless_undefined d.reset_password_token;
    reset_password_expire = unless_undefined d.reset_password_expire;
    change_code = unless_undefined d.change_code;
    change_code_expire = unless_undefined d.change_code_expire;
    verification_token = unless_undefined d.verification_token;
    verification_token_expire = unless_undefined d.verification_token_expire;
  }

  unfoldable pub find_by_id : String → Action t.Db UserRow
  find_by_id id = do
    row ← gets (λ db. t.find_unique db id)
    or_throw row (not_found_error "User not found")

  unfoldable pub find_by_email_with_password : String → Action t.Db UserRow
  find_by_email_with_password email = do
    row ← gets (λ db. t.find_unique_email db email)
    or_throw row (not_found_error "Database error in BaseRepository.findByFieldValue")

  unfoldable pub update_by_id : String → UserPatch → Action t.Db UserRow
  unfolding update_data
  update_by_id id d = t.update id (update_data d)

  abbrev is_later : Option ℕ → ℕ → Bool
  is_later none now = false
  is_later (some expire) now = ltb now expire

  abbrev is_token : Option String → String → Bool
  is_token none token = false
  is_token (some s) token = s === token

  -- repositories/UserRepository.ts, findByResetToken, at the time `now`
  unfoldable pub find_by_reset_token : String → ℕ → Action t.Db UserRow
  find_by_reset_token token now = do
    row ← gets (λ db.
        find (λ u. is_token u.reset_password_token token && is_later u.reset_password_expire now)
          (t.find_many db))
    or_throw row (not_found_error "Database error in BaseRepository.findByFieldValue")
