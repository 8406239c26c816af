-- ===== src/Account/Change.antt =====
-- Changing a password with a code and a token: what is checked and what is written.
use qa_api.Common.{ℕ, ◌+◌, String, true, false, ◌&&◌, ◌≡◌, ◌≢◌, refl, some, arith}
use qa_api.Effect.{ok}
use qa_api.Account.Table.{UserRow, UserTable, IsLawful, Crypto}
use qa_api.Account.Source.{find_by_id, update_data, update_by_id}
use qa_api.Account.Strength.{is_strong}
use qa_api.Account.Password.{
  accepts, token_patch, password_patch, verify_password_change_code, confirm_password_change,
}
use qa_api.Account.Stored.{Writes, update_by_id-Writes}

module _ (t : UserTable) (c : Crypto) (lawful : IsLawful t) (db : t.Db) (id : String)
    (row : UserRow) (stored : t.find_unique db id ≡ some row) where
  pub found : find_by_id t c id db ≡ (ok row, db)
  unfolding find_by_id
  found = rw stored

  confirm-run :
      (token password : String) (now : ℕ)
      → accepts row.verification_token row.verification_token_expire token now ≡ true
      → is_strong password ≡ true
      → confirm_password_change t c id token password now db
        ≡ (ok tt, (update_by_id t c id (password_patch (c.hash password) now) db).1)
  unfolding confirm_password_change
  confirm-run token password now h s = ground (
    arith,
    found,
    (update_by_id-Writes t c lawful db id (password_patch (c.hash password) now) row stored).0,
  )

  -- Confirming for a stored user with the stored token before it expires, and with a strong password: the hash of the
  -- password and the time are written, and nothing else of any user changes. In particular the
  -- stored code and token stay, since PostgreSQL is not told to clear a field that is `undefined`.
  pub confirm-Writes :
      (token password : String) (now : ℕ)
      → accepts row.verification_token row.verification_token_expire token now ≡ true
      → is_strong password ≡ true
      → Writes t c lawful db id
          (record row { password = c.hash password; last_password_change = some now })
          tt
          (confirm_password_change t c id token password now db)
  unfolding update_data
  confirm-Writes token password now h s = rw (confirm-run token password now h s) (
    refl,
    rw (c.is_hash-hash password) at
        (update_by_id-Writes t c lawful db id (password_patch (c.hash password) now) row stored).1,
  )

  verify-run :
      (code fresh : String) (now : ℕ)
      → accepts row.change_code row.change_code_expire code now ≡ true
      → verify_password_change_code t c id code now fresh db
        ≡ (ok fresh, (update_by_id t c id (token_patch fresh now) db).1)
  unfolding verify_password_change_code
  verify-run code fresh now h =
      ground
        (arith, found, (update_by_id-Writes t c lawful db id (token_patch fresh now) row stored).0)

  -- A code of a stored user that is accepted gives out the fresh token and stores it for five minutes; no other
  -- column and no other user changes.
  pub verify-Writes :
      (code fresh : String) (now : ℕ)
      → accepts row.change_code row.change_code_expire code now ≡ true
      → Writes t c lawful db id
          (record row {
            verification_token = some fresh;
            verification_token_expire = some (now + 300000);
          })
          fresh
          (verify_password_change_code t c id code now fresh db)
  unfolding update_data
  verify-Writes code fresh now h =
      rw (verify-run code fresh now h)
        (refl, (update_by_id-Writes t c lawful db id (token_patch fresh now) row stored).1)

  -- For a stored user, without an accepted token or with a weak password, nothing is written and an error is thrown.
  pub confirm_refused :
      (token password : String) (now : ℕ)
      → (accepts row.verification_token row.verification_token_expire token now
          && is_strong password)
        ≡ false
      → ((confirm_password_change t c id token password now db).0 ≢ ok tt)
        × ((confirm_password_change t c id token password now db).1 ≡ db)
  unfolding confirm_password_change
  confirm_refused token password now h = ground (arith, found)

  verify_refused :
      (code fresh : String) (now : ℕ)
      → accepts row.change_code row.change_code_expire code now ≡ false
      → ((verify_password_change_code t c id code now fresh db).0 ≢ ok fresh)
        × ((verify_password_change_code t c id code now fresh db).1 ≡ db)
  unfolding verify_password_change_code
  verify_refused code fresh now h = ground (arith, found)
