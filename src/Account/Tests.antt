-- ===== src/Account/Tests.antt =====
-- The theorems on password changes at a concrete user, who has a code and a token.
use qa_api.Common.{◌≤◌, true, false, ◌≡◌, ◌↔◌, refl, ◌===◌, if◌then◌else◌, none, some, eq_iff}
use qa_api.Effect.{ok, err, Action}
use qa_api.Error.Handler.{application}
use qa_api.Error.Application.{internal_server_error}
use qa_api.Account.Table.{UserRow}
use qa_api.Account.Strength.{is_strong}
use qa_api.Account.Password.{verify_password_change_code, confirm_password_change}
use qa_api.Account.Stored.{Writes}
use qa_api.Account.Change.{confirm-Writes}
use qa_api.Account.Reuse.{confirm_again, confirm_window}
use qa_api.Account.Memory.{Users, table, table-IsLawful, crypto}

abbrev ann : UserRow
ann = record {
  id = "ann";
  name = "Ann";
  email = "ann@example.org";
  password = "$2Old-pass1";
  language = "en";
  is_google_user = true;
  last_password_change = none;
  reset_password_token = none;
  reset_password_expire = none;
  change_code = some "123456";
  change_code_expire = some 2000;
  verification_token = some "token";
  verification_token_expire = some 5000;
}

abbrev users : Users
users id = if id === "ann" then some ann else none

abbrev no_mail : UserRow → Action Users (Unit {0})
no_mail user db = (err (application (internal_server_error "smtp")), db)

confirm-Writes_example :
    Writes table crypto table-IsLawful users "ann"
      (record ann { password = "$2New-pass1"; last_password_change = some 4000 })
      tt
      (confirm_password_change table crypto "ann" "token" "New-pass1" 4000 users)
unfolding is_strong
confirm-Writes_example =
    confirm-Writes table crypto table-IsLawful users "ann" ann refl "token" "New-pass1" 4000 refl
      refl

confirm_again_example :
    let db' = (confirm_password_change table crypto "ann" "token" "New-pass1" 3000 users).1 in
    Writes table crypto table-IsLawful db' "ann"
      (record ann { password = "$2Other-pass1"; last_password_change = some 4000 })
      tt
      (confirm_password_change table crypto "ann" "token" "Other-pass1" 4000 db')
unfolding is_strong
confirm_again_example =
    confirm_again table crypto table-IsLawful users "ann" ann refl "token" "New-pass1" "Other-pass1"
      3000 4000 refl refl refl refl

confirm_window_example :
    let db' = (verify_password_change_code table crypto "ann" "123456" 1000 "fresh" users).1 in
    ((confirm_password_change table crypto "ann" "fresh" "New-pass1" 301001 db').0 ≡ ok tt)
    ↔ (301001 ≤ 301000)
unfolding is_strong
confirm_window_example =
    confirm_window table crypto table-IsLawful users "ann" ann refl "123456" "fresh" "New-pass1"
      1000 301001 refl (λ e. let no : false ≡ true = (eq_iff "fresh" "").1 e in cc no) refl
