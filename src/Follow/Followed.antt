-- ===== src/Follow/Followed.antt =====
-- What following and unfollowing do to who follows whom, and what the two lists of a user are.
use qa_api.Common.{
  String, Bool, true, false, ◌≡◌, refl, ◌&&◌, ◌||◌, ◌===◌, if◌then◌else◌, List, [], ◌∷◌, ◌++◌, map,
  select, all, includes, arith, ap, ◌∙◌, eq_iff, Bool-cases, inl, inr, some, none,
}
use qa_api.Effect.{ok, err, is_object}
use qa_api.Error.Handler.{application}
use qa_api.Error.Application.{business_error_of}
use qa_api.Follow.Table.{UserFollow, Table, IsTable, joined}
use qa_api.Follow.Users.{
  User, to_entity, find_by_id, update_by_id, follow_user, unfollow_user, get_followers,
  get_following, find_each,
}
use qa_api.Follow.Rows.{
  follows, follows_anyone, has_follower, following_self, followers_self, includes-put,
}
use qa_api.Follow.Writes.{find_by_id-there, update_following, update_followers}

all-put :
    (p : String → Bool) (xs : List String) (x : String)
    → all p xs ≡ true
    → p x ≡ true
    → all p (xs ++ x ∷ []) ≡ true
all-put p [] x h l = ground arith
all-put p (y ∷ xs) x h l = ground (arith, all-put p xs x)

following-there :
    (p : String → Bool) (id : String) (rs : List UserFollow)
    → p id ≡ true
    → all p (map (λ r. r.following_id) (select (λ r. r.following_id === id) rs)) ≡ true
following-there p id [] h = refl
following-there p id (r ∷ rs) h =
    let same : (r.following_id === id) ≡ true → p r.following_id ≡ true =
      λ e. ap p (ground (arith, eq_iff r.following_id id)) ∙ h in
    ground (arith, following-there p id rs h, same)

followers-there :
    (p : String → Bool) (id : String) (rs : List UserFollow)
    → p id ≡ true
    → all p (map (λ r. r.follower_id) (select (λ r. r.follower_id === id) rs)) ≡ true
followers-there p id [] h = refl
followers-there p id (r ∷ rs) h =
    let same : (r.follower_id === id) ≡ true → p r.follower_id ≡ true =
      λ e. ap p (ground (arith, eq_iff r.follower_id id)) ∙ h in
    ground (arith, followers-there p id rs h, same)

module _ {Db : Type 0} (t : Table Db) (ids : Db → List String) (rows : Db → List UserFollow)
    (table : IsTable t ids rows) where
  abbrev seen : Db → String → User
  unfolding to_entity
  seen db id = to_entity (joined id (rows db))

  follow_user-run :
      (u f : String) (db : Db)
      → (u === f) ≡ false
      → includes (ids db) u ≡ true
      → includes (ids db) f ≡ true
      → includes (seen db f).following u ≡ false
      → (x y : User) (db1 db2 : Db)
      → update_by_id t f (some ((seen db f).following ++ u ∷ [])) none db ≡ (ok x, db1)
      → update_by_id t u none (some ((seen db u).followers ++ f ∷ [])) db1 ≡ (ok y, db2)
      → follow_user t u f db ≡ (ok y, db2)
  unfolding follow_user to_entity
  follow_user-run u f db other user follower fresh x y db1 db2 first second =
      let user_read = find_by_id-there t ids rows table u db user in
      let follower_read = find_by_id-there t ids rows table f db follower in ground arith

  -- Following another user succeeds always, also when the follower follows that user already, and
  -- loses other rows: afterwards the follower follows that user, and themself if anyone followed
  -- them, and nobody else; that user is followed by the follower, and by themself if they followed
  -- anyone, and by nobody else. All other pairs are as before.
  pub follow_user-loses :
      (u f : String) (db : Db)
      → (u === f) ≡ false
      → includes (ids db) u ≡ true
      → includes (ids db) f ≡ true
      → let (o, db') = follow_user t u f db in
        ((x : User) × (o ≡ ok x))
        × ((a b : String)
            → follows (rows db') a b ≡ (
                if u === b
                then f === a || (u === a && follows_anyone (rows db) u)
                else if f === a
                then f === b && has_follower (rows db) f
                else follows (rows db) a b))
  unfolding to_entity
  follow_user-loses u f db other user follower =
      let follows_self = following_self (rows db) f u in
      let fresh : includes (seen db f).following u ≡ false =
        ground (arith, eq_iff u f, eq_iff f u) in
      let (db1, first, after, same) =
        update_following t ids rows table f ((seen db f).following ++ u ∷ []) db follower (
          all-put (includes (ids db)) (seen db f).following u
            (following-there (includes (ids db)) f (rows db) follower) user) in
      let (db2, second, after2, same2) =
        update_followers t ids rows table u ((seen db u).followers ++ f ∷ []) db1 (rw same user) (
          rw same (
            all-put (includes (ids db)) (seen db u).followers f
              (followers-there (includes (ids db)) u (rows db) user) follower)) in
      let run = follow_user-run u f db other user follower fresh _ _ db1 db2 first second in
      (
        (_, ap (λ o. o.0) run),
        λ a b.
            ap (λ o. follows (rows o.1) a b) run
            ∙ after2 a b
            ∙ rw
                (
                  after a b,
                  includes-put (seen db u).followers f a,
                  followers_self (rows db) u a,
                  includes-put (seen db f).following u b,
                  following_self (rows db) f b,
                )
                (ground arith),
      )

  -- Unfollowing another user is refused always, with status 400 and without a write, also when the
  -- follower follows that user.
  pub unfollow_user-refuses :
      (u f : String) (db : Db)
      → (u === f) ≡ false
      → includes (ids db) u ≡ true
      → includes (ids db) f ≡ true
      → unfollow_user t u f db
        ≡ (err (application (business_error_of "Not following this user" 400)), db)
  unfolding unfollow_user to_entity
  unfollow_user-refuses u f db other user follower =
      let user_read = find_by_id-there t ids rows table u db user in
      let follower_read = find_by_id-there t ids rows table f db follower in
      let follows_self = following_self (rows db) f u in
      let fresh : includes (seen db f).following u ≡ false =
        ground (arith, eq_iff u f, eq_iff f u) in
      ground arith

  find_each-next :
      (x : String) (xs : List String) (u : User) (us : List User) (db : Db)
      → find_by_id t x db ≡ (ok u, db)
      → find_each t xs db ≡ (ok us, db)
      → find_each t (x ∷ xs) db ≡ (ok (u ∷ us), db)
  find_each-next x xs u us db h l = ground arith

  find_each-following :
      (id : String) (db : Db) (rs : List UserFollow)
      → includes (ids db) id ≡ true
      → find_each t (map (λ r. r.following_id) (select (λ r. r.following_id === id) rs)) db
        ≡ (ok (map (λ r. seen db id) (select (λ r. r.following_id === id) rs)), db)
  unfolding to_entity
  find_each-following id db [] h = refl
  find_each-following id db (r ∷ rs) h = elim (Bool-cases (r.following_id === id)) [
    | inl same ↦
        let its_id : r.following_id ≡ id = ground (arith, eq_iff r.following_id id) in
        let read : find_by_id t r.following_id db ≡ (ok (seen db id), db) =
          rw its_id (find_by_id-there t ids rows table id db h) in
        rw same (
          find_each-next r.following_id
            (map (λ x. x.following_id) (select (λ x. x.following_id === id) rs)) (seen db id)
            (map (λ x. seen db id) (select (λ x. x.following_id === id) rs)) db read
            (find_each-following id db rs h))
    | inr other ↦ rw other (find_each-following id db rs h)
  ]

  find_each-followers :
      (id : String) (db : Db) (rs : List UserFollow)
      → includes (ids db) id ≡ true
      → find_each t (map (λ r. r.follower_id) (select (λ r. r.follower_id === id) rs)) db
        ≡ (ok (map (λ r. seen db id) (select (λ r. r.follower_id === id) rs)), db)
  unfolding to_entity
  find_each-followers id db [] h = refl
  find_each-followers id db (r ∷ rs) h = elim (Bool-cases (r.follower_id === id)) [
    | inl same ↦
        let its_id : r.follower_id ≡ id = ground (arith, eq_iff r.follower_id id) in
        let read : find_by_id t r.follower_id db ≡ (ok (seen db id), db) =
          rw its_id (find_by_id-there t ids rows table id db h) in
        rw same (
          find_each-next r.follower_id
            (map (λ x. x.follower_id) (select (λ x. x.follower_id === id) rs)) (seen db id)
            (map (λ x. seen db id) (select (λ x. x.follower_id === id) rs)) db read
            (find_each-followers id db rs h))
    | inr other ↦ rw other (find_each-followers id db rs h)
  ]

  select-objects : (us : List User) → select is_object us ≡ us
  select-objects [] = refl
  select-objects (u ∷ us) = ap (λ vs. u ∷ vs) (select-objects us)

  lists-run :
      (id : String) (db : Db) (us vs : List User)
      → find_by_id t id db ≡ (ok (seen db id), db)
      → find_each t (seen db id).followers db ≡ (ok us, db)
      → find_each t (seen db id).following db ≡ (ok vs, db)
      → (get_followers t id db ≡ (ok us, db)) × (get_following t id db ≡ (ok vs, db))
  unfolding get_followers get_following to_entity
  lists-run id db us vs read others followed =
      let kept = select-objects us in let kept' = select-objects vs in (ground arith, ground arith)

  -- The followers of a user are answered as that user again, once for each user they follow, and
  -- the users that they follow as that user again, once for each follower.
  pub lists_repeat_the_user :
      (id : String) (db : Db)
      → includes (ids db) id ≡ true
      → (get_followers t id db ≡ (
        ok (
            map
              (λ r. to_entity (joined id (rows db)))
              (select (λ r. r.follower_id === id) (rows db))),
        db,
      ))
        × (get_following t id db ≡ (
          ok (
              map
                (λ r. to_entity (joined id (rows db)))
                (select (λ r. r.following_id === id) (rows db))),
          db,
        ))
  unfolding to_entity
  lists_repeat_the_user id db h =
      let read = find_by_id-there t ids rows table id db h in
      (lists-run id db _ _ read (find_each-followers id db (rows db) h)
        (find_each-following id db (rows db) h))
