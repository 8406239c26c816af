-- ===== src/Follow/Tests.antt =====
-- The theorems on following at concrete inputs: bob follows ann and eve, and ann follows bob.
use qa_api.Common.{String, ◌≡◌, refl, ◌&&◌, ◌||◌, ◌===◌, if◌then◌else◌, [], ◌∷◌, map, select}
use qa_api.Effect.{ok, err}
use qa_api.Error.Handler.{application}
use qa_api.Error.Application.{business_error_of}
use qa_api.Follow.Table.{UserFollow, joined}
use qa_api.Follow.Users.{User, to_entity, follow_user, unfollow_user, get_followers, get_following}
use qa_api.Follow.Rows.{follows, follows_anyone, has_follower}
use qa_api.Follow.Followed.{follow_user-loses, unfollow_user-refuses, lists_repeat_the_user}
use qa_api.Follow.Memory.{Db, table, table-IsTable}

abbrev follow : String → String → UserFollow
follow a b = record { follower_id = a; following_id = b }

abbrev db : Db
db = record {
  ids = "ann" ∷ "bob" ∷ "eve" ∷ [];
  rows = follow "bob" "ann" ∷ follow "bob" "eve" ∷ follow "ann" "bob" ∷ [];
}

-- bob follows ann once more.
follow_user-loses_example :
    let (o, db') = follow_user table "ann" "bob" db in
    ((x : User) × (o ≡ ok x))
    × ((a b : String)
        → follows db'.rows a b ≡ (
            if "ann" === b
            then "bob" === a || ("ann" === a && follows_anyone db.rows "ann")
            else if "bob" === a
            then "bob" === b && has_follower db.rows "bob"
            else follows db.rows a b))
follow_user-loses_example =
    follow_user-loses table (λ x. x.ids) (λ x. x.rows) table-IsTable "ann" "bob" db refl refl refl

unfollow_user-refuses_example :
    unfollow_user table "ann" "bob" db
    ≡ (err (application (business_error_of "Not following this user" 400)), db)
unfollow_user-refuses_example =
    unfollow_user-refuses table (λ x. x.ids) (λ x. x.rows) table-IsTable "ann" "bob" db refl refl
      refl

lists_repeat_the_user_example :
    (get_followers table "bob" db ≡ (
      ok (
          map
            (λ r. to_entity (joined "bob" db.rows))
            (select (λ r. r.follower_id === "bob") db.rows)),
      db,
    ))
    × (get_following table "bob" db ≡ (
      ok (
          map
            (λ r. to_entity (joined "bob" db.rows))
            (select (λ r. r.following_id === "bob") db.rows)),
      db,
    ))
lists_repeat_the_user_example =
    lists_repeat_the_user table (λ x. x.ids) (λ x. x.rows) table-IsTable "bob" db refl
