-- ===== src/Follow/Table.antt =====
-- The table `UserFollow` of prisma/schema.prisma as the Prisma client serves it: a parameter, with
-- the documented behaviour of the calls as laws. The relation `following` of `User` is the one
-- named "Following", which the schema ties to the column followingId, and `followers` the one named
-- "Follower", tied to followerId: so a user's `following` are the rows whose followingId is that
-- user. Of a user only the id matters here.
use qa_api.Common.{
  String, Bool, true, not, ◌≡◌, ◌&&◌, ◌===◌, if◌then◌else◌, Option, none, some, List, [], ◌∷◌, ◌++◌,
  select, any, all, includes,
}
use qa_api.Effect.{ok, Action}

pub record UserFollow : Type 0 where
  pub follower_id : String
  pub following_id : String

-- A row of `User` with the rows of its two relations.
pub record UserRow : Type 0 where
  pub id : String
  pub following : List UserFollow
  pub followers : List UserFollow

abbrev pub joined : String → List UserFollow → UserRow
joined id rows = record {
  id = id;
  following = select (λ r. r.following_id === id) rows;
  followers = select (λ r. r.follower_id === id) rows;
}

abbrev pub is_follow : String → String → UserFollow → Bool
is_follow a b r = r.follower_id === a && r.following_id === b

-- `createMany` with `skipDuplicates`.
abbrev pub put_all : List UserFollow → List UserFollow → List UserFollow
put_all rows [] = rows
put_all rows (r ∷ rs) =
    put_all (if any (is_follow r.follower_id r.following_id) rows then rows else rows ++ r ∷ []) rs

-- `userFollow.deleteMany` by one of the columns, `userFollow.createMany`, and `user.update`
-- without a column that changes.
pub record Table (Db : Type 0) : Type 0 where
  pub find_user : Db → String → Option UserRow
  pub delete_by_follower : String → Action Db (Unit {0})
  pub delete_by_following : String → Action Db (Unit {0})
  pub create_many : List UserFollow → Action Db (Unit {0})
  pub update_user : String → Action Db UserRow

pub record IsTable {Db : Type 0} (t : Table Db) (ids : Db → List String)
    (rows : Db → List UserFollow) : Type 0 where
  pub found :
      (db : Db) (id : String)
      → t.find_user db id ≡ (if includes (ids db) id then some (joined id (rows db)) else none)
  pub deleted_follower :
      (id : String) (db : Db)
      → (db' : Db) × (t.delete_by_follower id db ≡ (ok tt, db'))
        × (rows db' ≡ select (λ r. not (r.follower_id === id)) (rows db))
        × (ids db' ≡ ids db)
  pub deleted_following :
      (id : String) (db : Db)
      → (db' : Db) × (t.delete_by_following id db ≡ (ok tt, db'))
        × (rows db' ≡ select (λ r. not (r.following_id === id)) (rows db))
        × (ids db' ≡ ids db)
  pub created :
      (rs : List UserFollow) (db : Db)
      → all (λ r. includes (ids db) r.follower_id && includes (ids db) r.following_id) rs ≡ true
      → (db' : Db) × (t.create_many rs db ≡ (ok tt, db'))
        × (rows db' ≡ put_all (rows db) rs)
        × (ids db' ≡ ids db)
  pub updated :
      (id : String) (db : Db)
      → includes (ids db) id ≡ true
      → (db' : Db) × (t.update_user id db ≡ (ok (joined id (rows db)), db'))
        × (rows db' ≡ rows db)
        × (ids db' ≡ ids db)
