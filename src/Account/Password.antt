-- ===== src/Account/Password.antt =====
-- services/managers/AuthManager.ts: resetPassword, requestPasswordChange,
-- verifyPasswordChangeCode and confirmPasswordChange, over PostgreSQL. The clock and the random
-- tokens are arguments; so is `send`, the notification service.
use qa_api.Common.{
  ℕ, ◌+◌, String, Bool, false, not, ◌&&◌, ◌===◌, leb, if◌then◌else◌, Option, none, some,
}
use qa_api.Effect.{ok, err, Action, pure, throw, throw_if, ◌>>=◌, ◌>>◌}
use qa_api.Error.Application.{not_found_error, validation_error_of}
use qa_api.Account.Table.{UserRow, UserTable, Crypto}
use qa_api.Account.Source.{
  UserPatch, undefined, value, no_change, find_by_id, find_by_email_with_password, update_by_id,
  find_by_reset_token,
}
use qa_api.Account.Strength.{is_strong}

-- `!stored || stored !== given || !expire || expire < new Date()`, negated
abbrev pub accepts : Option String → Option ℕ → String → ℕ → Bool
accepts (some stored) (some expire) given now =
    not (stored === "") && stored === given && leb now expire
accepts _ _ given now = false

abbrev weak_password : String
weak_password =
    "Password must be at least 8 characters and contain at least one uppercase letter, one lowercase letter, one number, and one special character"

-- `try { … } catch { onError }` around a call without a result.
abbrev pub catch : {S : Type 0} → Action S (Unit {0}) → Action S (Unit {0}) → Action S (Unit {0})
catch m on_error s = let (r, s') = m s in elim r [ ok _ ↦ (ok tt, s') | err _ ↦ on_error s' ]

abbrev has_text : Option String → Bool
has_text none = false
has_text (some s) = not (s === "")

abbrev text_of : Option String → String
text_of none = ""
text_of (some s) = s

-- What the operations write.
abbrev pub token_patch : String → ℕ → UserPatch
token_patch fresh now = record no_change {
  verification_token = value fresh;
  verification_token_expire = value (now + 300000);
}

abbrev pub code_patch : String → ℕ → UserPatch
code_patch code now = record no_change {
  change_code = value code;
  change_code_expire = value (now + 180000);
}

abbrev pub no_code_patch : UserPatch
no_code_patch = record no_change { change_code = undefined; change_code_expire = undefined }

abbrev pub password_patch : String → ℕ → UserPatch
password_patch hashed now = record no_change {
  password = value hashed;
  change_code = undefined;
  change_code_expire = undefined;
  verification_token = undefined;
  verification_token_expire = undefined;
  last_password_change = value now;
}

abbrev pub reset_patch : String → ℕ → UserPatch
reset_patch hashed now = record no_change {
  password = value hashed;
  reset_password_token = undefined;
  reset_password_expire = undefined;
  last_password_change = value now;
}

module _ (t : UserTable) (c : Crypto) where
  -- The check of the old password, for users with a password of their own.
  unfoldable pub check_old_password : UserRow → Option String → Action t.Db (Unit {0})
  check_old_password user old = do
    throw_if (not (has_text old))
        (validation_error_of "Old password is required for non-Google users")
    with_password ← find_by_email_with_password t c user.email
    throw_if (not (c.compare (text_of old) with_password.password))
        (validation_error_of "Current password is incorrect")

  unfoldable pub request_password_change :
      String
      → Option String
      → String
      → ℕ
      → String
      → (UserRow → Action t.Db (Unit {0}))
      → Action t.Db (Unit {0})
  request_password_change user_id old new_password now code send = do
    user ← find_by_id t c user_id
    if user.is_google_user then pure tt else check_old_password user old
    throw_if (not (is_strong new_password)) (validation_error_of weak_password)
    update_by_id t c user_id (code_patch code now)
    catch (send user) (do
      update_by_id t c user_id no_code_patch
      throw (not_found_error "Email could not be sent"))

  unfoldable pub verify_password_change_code : String → String → ℕ → String → Action t.Db String
  verify_password_change_code user_id code now fresh = do
    user ← find_by_id t c user_id
    throw_if (not (accepts user.change_code user.change_code_expire code now))
        (validation_error_of "Invalid or expired verification code")
    update_by_id t c user_id (token_patch fresh now)
    pure fresh

  unfoldable pub confirm_password_change : String → String → String → ℕ → Action t.Db (Unit {0})
  confirm_password_change user_id token new_password now = do
    user ← find_by_id t c user_id
    throw_if (not (accepts user.verification_token user.verification_token_expire token now))
        (validation_error_of "Invalid or expired verification token")
    throw_if (not (is_strong new_password)) (validation_error_of weak_password)
    update_by_id t c user_id (password_patch (c.hash new_password) now)
    pure tt

  unfoldable pub reset_password : String → String → ℕ → Action t.Db (Unit {0})
  reset_password token new_password now = do
    user ← find_by_reset_token t c token now
    update_by_id t c user.id (reset_patch (c.hash new_password) now)
    pure tt
