-- ===== src/Follow/Memory.antt =====
-- A table of follows in memory that meets the laws of Follow/Table.antt: the parameter of the
-- witnesses, not a model of any code.
use qa_api.Common.{String, not, refl, ◌===◌, if◌then◌else◌, some, none, List, select, includes}
use qa_api.Effect.{ok}
use qa_api.Follow.Table.{UserFollow, Table, IsTable, joined, put_all}

-- The ids of the users, and the rows.
pub record Db : Type 0 where
  pub ids : List String
  pub rows : List UserFollow

abbrev pub table : Table Db
table = record {
  find_user = λ db id. if includes db.ids id then some (joined id db.rows) else none;
  delete_by_follower =
      λ id db. (ok tt, record db { rows = select (λ r. not (r.follower_id === id)) db.rows });
  delete_by_following =
      λ id db. (ok tt, record db { rows = select (λ r. not (r.following_id === id)) db.rows });
  create_many = λ rs db. (ok tt, record db { rows = put_all db.rows rs });
  update_user = λ id db. (ok (joined id db.rows), db);
}

pub table-IsTable : IsTable table (λ db. db.ids) (λ db. db.rows)
table-IsTable = record {
  found = λ db id. refl;
  deleted_follower = λ id db. (_, refl, refl, refl);
  deleted_following = λ id db. (_, refl, refl, refl);
  created = λ rs db h. (_, refl, refl, refl);
  updated = λ id db h. (db, refl, refl, refl);
}
