-- ===== src/Account/Memory.antt =====
-- A table of users and a hash that meet the laws of Account/Table.antt: the parameters of the
-- witnesses, not a model of any code.
use Prim.Native.String
use text.Mathlib.Text.{starts_with}
use text.Mathlib.TextPositions.{starts_with-append}
use qa_api.Common.{String, refl, ◌===◌, if◌then◌else◌, Option, none, some, [], eq_refl}
use qa_api.Effect.{ok, err, Outcome}
use qa_api.Error.Handler.{application}
use qa_api.Error.Application.{not_found_error}
use qa_api.Account.Table.{UserRow, RowData, UserTable, IsLawful, Crypto, apply}

abbrev pub Users : Type 0
Users = String → Option UserRow

abbrev written : String → RowData → Option UserRow → Users → Outcome UserRow × Users
written id d none db = (err (application (not_found_error "no such row")), db)
written id d (some row) db = (ok (apply d row), λ j. if id === j then some (apply d row) else db j)

abbrev pub table : UserTable
table = record {
  Db = Users;
  find_unique = λ db id. db id;
  find_unique_email = λ db email. none;
  find_many = λ db. [];
  update = λ id d db. written id d (db id) db;
}

pub table-IsLawful : IsLawful table
table-IsLawful = record {
  updated =
      λ db id d row h. ((λ j. if id === j then some (apply d row) else db j), rw h refl, λ j. refl);
}

abbrev pub crypto : Crypto
crypto = record {
  hash = λ s. String.◌++◌ "$2" s;
  compare = λ s h. String.◌++◌ "$2" s === h;
  is_hash = λ h. starts_with h "$2";
  is_hash-hash = λ s. starts_with-append "$2" s;
  compare-hash = λ s. eq_refl (String.◌++◌ "$2" s);
}
