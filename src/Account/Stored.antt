-- ===== src/Account/Stored.antt =====
-- What each update of a password operation writes, and what it leaves alone.
use qa_api.Common.{String, ◌≡◌, refl, ◌===◌, if◌then◌else◌, some}
use qa_api.Effect.{Outcome, ok}
use qa_api.Account.Table.{UserRow, UserTable, IsLawful, Crypto, apply}
use qa_api.Account.Source.{UserPatch, update_data, update_by_id}

module _ (t : UserTable) (c : Crypto) (lawful : IsLawful t) where
  -- A call that ends well, leaves the user `id` as `row` and every other user as it was.
  abbrev pub Writes : {A : Type 0} → t.Db → String → UserRow → A → Outcome A × t.Db → Type 0
  Writes db id row a (r, db') =
      (r ≡ ok a)
      × ((j : String) → t.find_unique db' j ≡ (if id === j then some row else t.find_unique db j))

  pub update_by_id-Writes :
      (db : t.Db) (id : String) (d : UserPatch) (row : UserRow)
      → t.find_unique db id ≡ some row
      → Writes db id
          (apply (update_data t c d) row)
          (apply (update_data t c d) row)
          (update_by_id t c id d db)
  unfolding update_by_id
  update_by_id-Writes db id d row h =
      let (db', e, same) = lawful.updated db id (update_data t c d) row h in rw e (refl, same)
