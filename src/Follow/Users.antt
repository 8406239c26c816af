-- ===== src/Follow/Users.antt =====
-- repositories/UserRepository.ts: following, unfollowing and the two lists, over findById and
-- updateById of repositories/postgresql/UserPostgreSQLDataSource.ts. An entity has the fields these
-- calls read; an update names no other.
use qa_api.Common.{
  String, not, ◌===◌, ◌&&◌, Option, none, some, List, [], ◌∷◌, ◌++◌, map, select, includes, without,
}
use qa_api.Effect.{Action, pure, throw_if, ◌>>=◌, ◌>>◌, gets, or_throw, is_object}
use qa_api.Error.Application.{ApplicationError, business_error_of, not_found_error}
use qa_api.Follow.Table.{UserFollow, UserRow, Table}

pub record User : Type 0 where
  pub id : String
  pub following : List String
  pub followers : List String

unfoldable pub to_entity : UserRow → User
to_entity row = record {
  id = row.id;
  following = map (λ r. r.following_id) row.following;
  followers = map (λ r. r.follower_id) row.followers;
}

abbrev pub user_not_found : ApplicationError
user_not_found = not_found_error "User not found"

abbrev pub not_there : ApplicationError
not_there = not_found_error "Database error in BaseRepository.findById"

module _ {Db : Type 0} (t : Table Db) where
  unfoldable pub find_by_id : String → Action Db User
  unfolding to_entity
  find_by_id id = do
    found ← gets (λ db. t.find_user db id)
    row ← or_throw found user_not_found
    pure (to_entity row)

  -- `createMany` is called for a list that is not empty.
  abbrev pub create_some : List UserFollow → Action Db (Unit {0})
  create_some [] = pure tt
  create_some (r ∷ rs) = t.create_many (r ∷ rs)

  unfoldable pub write_following : String → Option (List String) → Action Db (Unit {0})
  write_following id none = pure tt
  write_following id (some following) = do
    t.delete_by_follower id
    create_some (map (λ other. record { follower_id = id; following_id = other }) following)

  unfoldable pub write_followers : String → Option (List String) → Action Db (Unit {0})
  write_followers id none = pure tt
  write_followers id (some followers) = do
    t.delete_by_following id
    create_some (map (λ other. record { follower_id = other; following_id = id }) followers)

  unfoldable pub update_by_id :
      String → Option (List String) → Option (List String) → Action Db User
  unfolding write_following write_followers to_entity
  update_by_id id following followers = do
    write_following id following
    write_followers id followers
    row ← t.update_user id
    pure (to_entity row)

  unfoldable pub follow_user : String → String → Action Db User
  unfolding find_by_id update_by_id
  follow_user user_id follower_id = do
    throw_if (user_id === follower_id) (business_error_of "Cannot follow yourself" 400)
    user ← find_by_id user_id
    follower ← find_by_id follower_id
    throw_if (not (is_object user && is_object follower)) not_there
    throw_if (includes follower.following user_id)
        (business_error_of "Already following this user" 400)
    update_by_id follower_id (some (follower.following ++ user_id ∷ [])) none
    update_by_id user_id none (some (user.followers ++ follower_id ∷ []))

  unfoldable pub unfollow_user : String → String → Action Db User
  unfolding find_by_id update_by_id
  unfollow_user user_id follower_id = do
    user ← find_by_id user_id
    follower ← find_by_id follower_id
    throw_if (not (is_object user && is_object follower)) not_there
    throw_if (not (includes follower.following user_id))
        (business_error_of "Not following this user" 400)
    update_by_id follower_id (some (without user_id follower.following)) none
    update_by_id user_id none (some (without follower_id user.followers))

  -- `Promise.all` of the searches, one after the other.
  abbrev pub find_each : List String → Action Db (List User)
  find_each [] = pure []
  find_each (id ∷ ids) = do u ← find_by_id id; us ← find_each ids; pure (u ∷ us)

  unfoldable pub get_followers : String → Action Db (List User)
  unfolding find_by_id
  get_followers id = do
    user ← find_by_id id
    throw_if (not (is_object user)) not_there
    us ← find_each user.followers
    pure (select is_object us)

  unfoldable pub get_following : String → Action Db (List User)
  unfolding find_by_id
  get_following id = do
    user ← find_by_id id
    throw_if (not (is_object user)) not_there
    us ← find_each user.following
    pure (select is_object us)
