-- ===== src/Account/Reuse.antt =====
-- How long a token or a code that was given out can be used.
use qa_api.Common.{
  ℕ, ◌+◌, ◌≤◌, String, true, ◌≡◌, ◌≢◌, ◌↔◌, refl, ◌===◌, ◌⊎◌, Option, some, arith, eq_refl, eq_iff,
  if◌then◌else◌, leb, leb→le, le→leb, Bool-cases, inl, inr,
}
use qa_api.Effect.{ok, err, Action}
use qa_api.Error.Handler.{Thrown, application}
use qa_api.Error.Application.{not_found_error}
use qa_api.Account.Table.{UserRow, UserTable, IsLawful, Crypto}
use qa_api.Account.Source.{update_data, update_by_id}
use qa_api.Account.Strength.{is_strong}
use qa_api.Account.Password.{
  accepts, code_patch, no_code_patch, check_old_password, request_password_change,
  verify_password_change_code, confirm_password_change,
}
use qa_api.Account.Stored.{Writes, update_by_id-Writes}
use qa_api.Account.Change.{found, confirm-Writes, confirm_refused, verify-Writes}

accepted_in_time :
    (fresh : String) (expire later : ℕ)
    → fresh ≢ ""
    → leb later expire ≡ true
    → accepts (some fresh) (some expire) fresh later ≡ true
accepted_in_time fresh expire later f h = ground (arith, eq_iff fresh "", eq_refl fresh)

module _ (t : UserTable) (c : Crypto) (lawful : IsLawful t) (db : t.Db) (id : String)
    (row : UserRow) (stored : t.find_unique db id ≡ some row) where
  -- The token of a stored user can be used more than once: after a confirmation at `now`, the same token confirms
  -- another password at any time `later` at which it has not expired, where both passwords are strong.
  pub confirm_again :
      (token password other : String) (now later : ℕ)
      → accepts row.verification_token row.verification_token_expire token now ≡ true
      → accepts row.verification_token row.verification_token_expire token later ≡ true
      → is_strong password ≡ true
      → is_strong other ≡ true
      → let db' = (confirm_password_change t c id token password now db).1 in
        Writes t c lawful db' id
          (record row { password = c.hash other; last_password_change = some later })
          tt
          (confirm_password_change t c id token other later db')
  confirm_again token password other now later h h' s s' =
      let saved = (confirm-Writes t c lawful db id row stored token password now h s).1 in
      let row' : UserRow = record row {
        password = c.hash password;
        last_password_change = some now;
      } in
      confirm-Writes t c lawful (confirm_password_change t c id token password now db).1 id row'
        (rw (saved id, eq_refl id)) token other later h' s'

  -- A token that was given out at `now` for an accepted code confirms a strong password at `later`
  -- exactly when five minutes have not gone by.
  pub confirm_window :
      (code fresh password : String) (now later : ℕ)
      → accepts row.change_code row.change_code_expire code now ≡ true
      → fresh ≢ ""
      → is_strong password ≡ true
      → let db' = (verify_password_change_code t c id code now fresh db).1 in
        ((confirm_password_change t c id fresh password later db').0 ≡ ok tt)
        ↔ (later ≤ now + 300000)
  confirm_window code fresh password now later h f s =
      let db' : t.Db = (verify_password_change_code t c id code now fresh db).1 in
      let row' : UserRow = record row {
        verification_token = some fresh;
        verification_token_expire = some (now + 300000);
      } in
      let stored' : t.find_unique db' id ≡ some row' =
        rw ((verify-Writes t c lawful db id row stored code fresh now h).1 id, eq_refl id) in
      elim (Bool-cases (leb later (now + 300000))) [
        | inl early ↦ (
          λ _. leb→le _ _ early,
          λ _.
              (confirm-Writes t c lawful db' id row' stored' fresh password later
                (accepted_in_time fresh (now + 300000) later f early) s).0,
        )
        | inr late ↦ (
          λ e. absurd (
              (confirm_refused t c lawful db' id row' stored' fresh password later
                  (rw late (ground arith))).0
                e),
          λ k. cc (late, le→leb _ _ k),
        )
      ]

  -- The code is written, and then an update follows that names no value.
  code_kept :
      (code : String) (now : ℕ)
      → let db' = (update_by_id t c id (code_patch code now) db).1 in
        Writes t c lawful db' id
          (record row { change_code = some code; change_code_expire = some (now + 180000) })
          (record row { change_code = some code; change_code_expire = some (now + 180000) })
          (update_by_id t c id no_code_patch db')
  unfolding update_data
  code_kept code now =
      let row' : UserRow = record row {
        change_code = some code;
        change_code_expire = some (now + 180000);
      } in
      let (_, others) = update_by_id-Writes t c lawful db id (code_patch code now) row stored in
      update_by_id-Writes t c lawful (update_by_id t c id (code_patch code now) db).1 id
        no_code_patch row' (rw (others id, eq_refl id))

  request-run :
      (old : Option String) (password code : String) (now : ℕ)
      (send : UserRow → Action t.Db (Unit {0})) (e : Thrown)
      → (row.is_google_user ≡ true) ⊎ (check_old_password t c row old db ≡ (ok tt, db))
      → is_strong password ≡ true
      → ((s : t.Db) → send row s ≡ (err e, s))
      → request_password_change t c id old password now code send db ≡ (
        err (application (not_found_error "Email could not be sent")),
        (update_by_id t c id no_code_patch (update_by_id t c id (code_patch code now) db).1).1,
      )
  unfolding request_password_change
  request-run old password code now send e h s fails = ground (
    arith,
    found t c lawful db id row stored,
    (update_by_id-Writes t c lawful db id (code_patch code now) row stored).0,
    (code_kept code now).0,
    fails (update_by_id t c id (code_patch code now) db).1,
  )

  -- Where the old password is right or not needed and the new one is strong, but the mail with the
  -- code cannot be sent: an error is thrown, and the code stays stored, to be accepted for three
  -- minutes. No other user changes.
  request_failed_keeps_code :
      (old : Option String) (password code : String) (now : ℕ)
      (send : UserRow → Action t.Db (Unit {0})) (e : Thrown)
      → (row.is_google_user ≡ true) ⊎ (check_old_password t c row old db ≡ (ok tt, db))
      → is_strong password ≡ true
      → ((s : t.Db) → send row s ≡ (err e, s))
      → let (r, db') = request_password_change t c id old password now code send db in
        (r ≡ err (application (not_found_error "Email could not be sent")))
        × ((j : String)
            → t.find_unique db' j ≡ (
                if id === j
                then some (record row {
                  change_code = some code;
                  change_code_expire = some (now + 180000);
                })
                else t.find_unique db j))
  unfolding update_data
  request_failed_keeps_code old password code now send e h s fails =
      let (_, first) = update_by_id-Writes t c lawful db id (code_patch code now) row stored in
      let (_, second) = code_kept code now in
      rw (request-run old password code now send e h s fails)
        (refl, λ j. ground (arith, first j, second j))
