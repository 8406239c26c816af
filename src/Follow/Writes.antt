-- ===== src/Follow/Writes.antt =====
-- What findById and updateById do over a table that meets its laws.
use qa_api.Common.{
  String, true, ◌≡◌, refl, ◌&&◌, ◌||◌, ◌===◌, if◌then◌else◌, none, some, List, [], ◌∷◌, map, all,
  includes, arith, sym, ap, ◌∙◌, eq_iff,
}
use qa_api.Effect.{ok}
use qa_api.Follow.Table.{UserFollow, Table, IsTable, joined}
use qa_api.Follow.Users.{
  to_entity, find_by_id, update_by_id, write_following, write_followers, create_some,
}
use qa_api.Follow.Rows.{
  follows, follows-put_all, follows-without_follower, follows-without_following, follows-following,
  follows-followers,
}

-- All ends of rows are ids of users.
abbrev AreUsers : List String → List UserFollow → Type 0
AreUsers ids rs = all (λ r. includes ids r.follower_id && includes ids r.following_id) rs ≡ true

following-AreUsers :
    (ids : List String) (id : String) (others : List String)
    → includes ids id ≡ true
    → all (includes ids) others ≡ true
    → AreUsers ids (map (λ other. record { follower_id = id; following_id = other }) others)
following-AreUsers ids id [] h l = refl
following-AreUsers ids id (o ∷ others) h l = ground (arith, following-AreUsers ids id others h)

followers-AreUsers :
    (ids : List String) (id : String) (others : List String)
    → includes ids id ≡ true
    → all (includes ids) others ≡ true
    → AreUsers ids (map (λ other. record { follower_id = other; following_id = id }) others)
followers-AreUsers ids id [] h l = refl
followers-AreUsers ids id (o ∷ others) h l = ground (arith, followers-AreUsers ids id others h)

module _ {Db : Type 0} (t : Table Db) (ids : Db → List String) (rows : Db → List UserFollow)
    (table : IsTable t ids rows) where
  pub find_by_id-there :
      (id : String) (db : Db)
      → includes (ids db) id ≡ true
      → find_by_id t id db ≡ (ok (to_entity (joined id (rows db))), db)
  unfolding find_by_id
  find_by_id-there id db h = ground (arith, table.found db id)

  create_some-done :
      (rs : List UserFollow) (db : Db)
      → AreUsers (ids db) rs
      → (db' : Db) × (create_some t rs db ≡ (ok tt, db'))
        × ((a b : String) → follows (rows db') a b ≡ (follows (rows db) a b || follows rs a b))
        × (ids db' ≡ ids db)
  create_some-done [] db h = (db, refl, λ a b. ground arith, refl)
  create_some-done (r ∷ rs) db h =
      let (db', done, after, same) = table.created (r ∷ rs) db h in
      (
        db',
        done,
        λ a b. ap (λ xs. follows xs a b) after ∙ follows-put_all (r ∷ rs) a b (rows db),
        same,
      )

  -- An update of the list `following` of a user leaves exactly these rows of the user as follower.
  pub update_following :
      (id : String) (others : List String) (db : Db)
      → includes (ids db) id ≡ true
      → all (includes (ids db)) others ≡ true
      → (db' : Db) × (update_by_id t id (some others) none db
          ≡ (ok (to_entity (joined id (rows db'))), db'))
        × ((a b : String)
            → follows (rows db') a b
              ≡ (if id === a then includes others b else follows (rows db) a b))
        × (ids db' ≡ ids db)
  unfolding update_by_id write_following write_followers
  update_following id others db h l =
      let (db1, deleted, kept, ids1) = table.deleted_follower id db in
      let new : List UserFollow =
        map (λ other. record { follower_id = id; following_id = other }) others in
      let (db2, made, put, ids2) =
        create_some-done new db1 (rw ids1 (following-AreUsers (ids db) id others h l)) in
      let (db3, updated, same, ids3) = table.updated id db2 (rw (ids2, ids1) h) in
      let run : update_by_id t id (some others) none db
          ≡ (ok (to_entity (joined id (rows db2))), db3) =
        ground arith in
      (
        db3,
        run ∙ ap (λ rs. (ok (to_entity (joined id rs)), db3)) (sym same),
        λ a b.
            ap (λ rs. follows rs a b) same
            ∙ put a b
            ∙ rw
                (
                  ap (λ rs. follows rs a b) kept ∙ follows-without_follower (rows db) id a b,
                  follows-following id others a b,
                )
                (ground (arith, eq_iff id a, eq_iff a id)),
        ids3 ∙ ids2 ∙ ids1,
      )

  pub update_followers :
      (id : String) (others : List String) (db : Db)
      → includes (ids db) id ≡ true
      → all (includes (ids db)) others ≡ true
      → (db' : Db) × (update_by_id t id none (some others) db
          ≡ (ok (to_entity (joined id (rows db'))), db'))
        × ((a b : String)
            → follows (rows db') a b
              ≡ (if id === b then includes others a else follows (rows db) a b))
        × (ids db' ≡ ids db)
  unfolding update_by_id write_following write_followers
  update_followers id others db h l =
      let (db1, deleted, kept, ids1) = table.deleted_following id db in
      let new : List UserFollow =
        map (λ other. record { follower_id = other; following_id = id }) others in
      let (db2, made, put, ids2) =
        create_some-done new db1 (rw ids1 (followers-AreUsers (ids db) id others h l)) in
      let (db3, updated, same, ids3) = table.updated id db2 (rw (ids2, ids1) h) in
      let run : update_by_id t id none (some others) db
          ≡ (ok (to_entity (joined id (rows db2))), db3) =
        ground arith in
      (
        db3,
        run ∙ ap (λ rs. (ok (to_entity (joined id rs)), db3)) (sym same),
        λ a b.
            ap (λ rs. follows rs a b) same
            ∙ put a b
            ∙ rw
                (
                  ap (λ rs. follows rs a b) kept ∙ follows-without_following (rows db) id a b,
                  follows-followers id others a b,
                )
                (ground (arith, eq_iff id b, eq_iff b id)),
        ids3 ∙ ids2 ∙ ids1,
      )
